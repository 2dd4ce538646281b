-- ===== src/Tests/Codec.antt =====
-- The encoders and decoders at concrete texts.
use amigao.Base.{◌≡◌, refl, none, some, [], ◌∷◌, Bytes, codes, IsBytes, arith}
use amigao.Codec.{crypt, decrypt, escape_url, deescape_url}
use amigao.Codec.RoundTrip.{decrypt-crypt, deescape_url-escape_url}

abbrev quoted : Bytes
quoted = codes "it's 100%"

abbrev chinese : Bytes
chinese = 230 ∷ 144 ∷ 156 ∷ []

quoted-IsBytes : IsBytes quoted
quoted-IsBytes = ground arith

encodings :
    (crypt quoted ≡ codes "it#27s#20100#25")
    × (escape_url chinese ≡ codes "%E6%90%9C")
    × (deescape_url (codes "a%2fb") ≡ some (codes "a/b"))
    × (deescape_url (codes "50%") ≡ none)
unfolding crypt escape_url deescape_url
encodings = (refl, refl, refl, refl)

decrypt-crypt_example : decrypt (crypt quoted) ≡ some quoted
decrypt-crypt_example = decrypt-crypt quoted quoted-IsBytes

deescape_url-escape_url_example : deescape_url (escape_url quoted) ≡ some quoted
deescape_url-escape_url_example = deescape_url-escape_url quoted quoted-IsBytes
