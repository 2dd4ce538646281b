-- ===== src/Codec/RoundTrip.antt =====
-- The decoders undo the encoders, and fault on a text that ends inside an escape.
use mathlib.Core.List.{append-nil, append_assoc}
use amigao.Base.{
  ℕ, ◌-◌, ◌*◌, ◌/◌, ◌<◌, Bool, true, false, [], ◌∷◌, ◌++◌, none, some, ◌≡◌, refl, sym, ap, ◌∙◌, inl,
  inr, arith, ◌==◌, Bool-cases, ==_iff, Bytes, IsBytes,
}
use amigao.Codec.Defs.{
  hex_char2dec, dec2hex_char, is_alnum, is_plain, encode_byte, decode_pair, decode_from, crypt,
  decrypt, escape_url, deescape_url,
}
use amigao.Codec.Escaped.{encoded, encode_from-encoded}

-- A nibble comes back from its digit.
hex_char2dec-dec2hex_char : (n : ℕ) → n < 16 → hex_char2dec (dec2hex_char n) ≡ n
unfolding hex_char2dec dec2hex_char
hex_char2dec-dec2hex_char n h = ground arith

decode_pair-byte :
    (c : ℕ) → c < 256 → decode_pair (dec2hex_char (c / 16)) (dec2hex_char (c - c / 16 * 16)) ≡ c
unfolding decode_pair
decode_pair-byte c h =
    rw (hex_char2dec-dec2hex_char (c / 16) (omega arith))
      (rw (hex_char2dec-dec2hex_char (c - c / 16 * 16) (omega arith)) (omega arith))

decode_from-plain :
    (mark : ℕ) (result : Bytes) (c : ℕ) (rest : Bytes)
    → (c == mark) ≡ false
    → decode_from mark result (c ∷ rest) ≡ decode_from mark (result ++ c ∷ []) rest
unfolding decode_from
decode_from-plain mark result c [] e = rw e
decode_from-plain mark result c (x ∷ []) e = rw (e, decode_from)
decode_from-plain mark result c (x ∷ y ∷ r) e = rw (e, decode_from)

decode_from-mark :
    (mark : ℕ) (result : Bytes) (c1 c0 : ℕ) (rest : Bytes)
    → decode_from mark result (mark ∷ c1 ∷ c0 ∷ rest)
      ≡ decode_from mark (result ++ decode_pair c1 c0 ∷ []) rest
unfolding decode_from
decode_from-mark mark result c1 c0 rest = rw ((==_iff mark mark).1 refl, decode_from)

module _ (keep : ℕ → Bool) (mark : ℕ) (marked : keep mark ≡ false) where
  ne_mark_of_keep : (c : ℕ) → keep c ≡ true → (c == mark) ≡ false
  ne_mark_of_keep c kept = elim (Bool-cases (c == mark)) [
    | inl same ↦ cc ((==_iff c mark).0 same)
    | inr e ↦ e
  ]

  decode_from-encode_byte :
      (result : Bytes) (c : ℕ) (rest : Bytes)
      → c < 256
      → decode_from mark result (encode_byte keep mark c ++ rest)
        ≡ decode_from mark (result ++ c ∷ []) rest
  unfolding encode_byte
  decode_from-encode_byte result c rest h = elim (Bool-cases (keep c)) [
    | inl kept ↦ rw kept (decode_from-plain mark result c rest (ne_mark_of_keep c kept))
    | inr escaped ↦ rw escaped (decode_from-mark mark result _ _ rest ∙ rw (decode_pair-byte c h))
  ]

  -- The loop reads an encoded text and goes on with what follows it.
  decode_from-encoded :
      (s result rest : Bytes)
      → IsBytes s
      → decode_from mark result (encoded keep mark s ++ rest) ≡ decode_from mark (result ++ s) rest
  decode_from-encoded [] result rest h = rw append-nil
  decode_from-encoded (c ∷ cs) result rest h =
      rw (append_assoc (encode_byte keep mark c) (encoded keep mark cs) rest) (
        decode_from-encode_byte result c (encoded keep mark cs ++ rest) h.0
        ∙ decode_from-encoded cs (result ++ c ∷ []) rest h.1
        ∙ rw append_assoc)

  decode-encode : (s : Bytes) → IsBytes s → decode_from mark [] (encoded keep mark s) ≡ some s
  unfolding decode_from
  decode-encode s h =
      ap (decode_from mark []) (sym (append-nil (encoded keep mark s)))
      ∙ decode_from-encoded s [] [] h

  decode-cut :
      (s : Bytes) → IsBytes s → decode_from mark [] (encoded keep mark s ++ mark ∷ []) ≡ none
  decode-cut s h =
      decode_from-encoded s [] (mark ∷ []) h ∙ unfold decode_from in rw ((==_iff mark mark).1 refl)

-- Decrypting the database text of a string of bytes gives the string back.
pub decrypt-crypt : (s : Bytes) → IsBytes s → decrypt (crypt s) ≡ some s
unfolding decrypt crypt
decrypt-crypt s h = rw encode_from-encoded (decode-encode is_alnum b'#' refl s h)

-- De-escaping an escaped string of bytes gives the string back.
pub deescape_url-escape_url : (s : Bytes) → IsBytes s → deescape_url (escape_url s) ≡ some s
unfolding deescape_url escape_url
deescape_url-escape_url s h = rw encode_from-encoded (decode-encode is_plain b'%' refl s h)

-- When a text ends in the byte `%` right behind the escapes of any string of bytes, de-escaping it
-- reads behind the terminator of the string.
pub deescape_url-cut : (s : Bytes) → IsBytes s → deescape_url (escape_url s ++ b'%' ∷ []) ≡ none
unfolding deescape_url escape_url
deescape_url-cut s h = rw encode_from-encoded (decode-cut is_plain b'%' refl s h)

-- The text ends in the byte `mark`.
abbrev pub EndsIn : ℕ → Bytes → Type 0
EndsIn mark s = (t : Bytes) × (s ≡ t ++ mark ∷ [])

EndsIn-cons : (mark c : ℕ) (s : Bytes) → EndsIn mark s → EndsIn mark (c ∷ s)
EndsIn-cons mark c s (t, e) = (c ∷ t, ap (◌∷◌ c) e)

decode_from-none : (mark : ℕ) (result s : Bytes) → decode_from mark result s ≡ none → EndsIn mark s
unfolding decode_from
decode_from-none mark result [] e = cc
decode_from-none mark result (c ∷ []) e = elim (Bool-cases (c == mark)) [
  | inl same ↦ ([], ap (λ x. x ∷ []) ((==_iff c mark).0 same))
  | inr other ↦ cc (rw other at e)
]
decode_from-none mark result (c ∷ c1 ∷ []) e = elim (Bool-cases (c == mark)) [
  | inl same ↦ cc (rw (same, decode_from) at e)
  | inr other ↦
      EndsIn-cons mark c (c1 ∷ [])
        (decode_from-none mark (result ++ c ∷ []) (c1 ∷ []) (rw (other, decode_from) at e))
]
decode_from-none mark result (c ∷ c1 ∷ c0 ∷ cs) e = elim (Bool-cases (c == mark)) [
  | inl same ↦ EndsIn-cons mark c (c1 ∷ c0 ∷ cs) (
      EndsIn-cons mark c1 (c0 ∷ cs) (
        EndsIn-cons mark c0 cs (
          decode_from-none mark (result ++ decode_pair c1 c0 ∷ []) cs
            (rw (same, decode_from) at e))))
  | inr other ↦
      EndsIn-cons mark c (c1 ∷ c0 ∷ cs)
        (decode_from-none mark (result ++ c ∷ []) (c1 ∷ c0 ∷ cs) (rw (other, decode_from) at e))
]

-- A text on which de-escaping reads behind the terminator ends in the byte `%`: on every other
-- text it returns a string.
deescape_url-none : (s : Bytes) → deescape_url s ≡ none → EndsIn b'%' s
unfolding deescape_url
deescape_url-none s e = decode_from-none b'%' [] s e
