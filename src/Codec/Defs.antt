-- ===== src/Codec/Defs.antt =====
-- The functions of crypt_string.cc and escape_url.cc. A `char` is a byte below 256: the code tests
-- ranges below 128 only, where the sign of a `char` does not matter, and its `j += 256` undoes the
-- sign extension of a byte from 128 on, so `j` is the byte itself.
use amigao.Base.{
  ℕ, ◌+◌, ◌-◌, ◌*◌, ◌/◌, ◌%◌, Bool, true, false, ◌&&◌, ◌||◌, [], ◌∷◌, ◌++◌, Option, none, some, leb,
  ◌==◌, if◌then◌else◌, Bytes,
}

-- `dec2hex_char(short n)`; `0 <= n` holds of every ℕ, and the code calls it on 0..15 only.
unfoldable pub dec2hex_char : ℕ → ℕ
dec2hex_char n =
    if leb 0 n && leb n 9 then b'0' + n else if leb 10 n && leb n 15 then b'A' + n - 10 else 0

-- `hex_char2dec(char c)`, a short: its -1 is the 16-bit pattern 65535.
unfoldable pub hex_char2dec : ℕ → ℕ
hex_char2dec c =
    if leb b'0' c && leb c b'9'
    then c - b'0'
    else if leb b'a' c && leb c b'f'
    then c - b'a' + 10
    else if leb b'A' c && leb c b'F'
    then c - b'A' + 10
    else 65535

-- The bytes that `crypt` keeps.
unfoldable pub is_alnum : ℕ → Bool
is_alnum c = leb b'0' c && leb c b'9' || leb b'a' c && leb c b'z' || leb b'A' c && leb c b'Z'

-- The bytes that `escape_url` keeps.
unfoldable pub is_plain : ℕ → Bool
unfolding is_alnum
is_plain c = is_alnum c || c == b'/' || c == b'.'

-- What the loop body appends to `result` for one byte.
unfoldable pub encode_byte : (ℕ → Bool) → ℕ → ℕ → Bytes
encode_byte keep mark c =
    let i1 = c / 16 in
    let i0 = c - i1 * 16 in if keep c then c ∷ [] else mark ∷ dec2hex_char i1 ∷ dec2hex_char i0 ∷ []

unfoldable pub encode_from : (ℕ → Bool) → ℕ → Bytes → Bytes → Bytes
encode_from keep mark result [] = result
encode_from keep mark result (c ∷ cs) = encode_from keep mark (result ++ encode_byte keep mark c) cs

-- `char(num)` for two digits: the low eight bits, on which the patterns of the shorts agree with
-- the sign-extended ints.
unfoldable pub decode_pair : ℕ → ℕ → ℕ
decode_pair c1 c0 = (hex_char2dec c1 * 16 + hex_char2dec c0) % 256

-- The decoding loop; the position `i` is the suffix of the text that starts there. `URL[size]` is
-- the byte 0, and a read behind it is undefined: the result is then `none`.
unfoldable pub decode_from : ℕ → Bytes → Bytes → Option Bytes
decode_from mark result [] = some result
decode_from mark result (c ∷ []) = if c == mark then none else some (result ++ c ∷ [])
decode_from mark result (c ∷ c1 ∷ []) = elim (c == mark) [
  | true ↦ some (result ++ decode_pair c1 0 ∷ [])
  | false ↦ decode_from mark (result ++ c ∷ []) (c1 ∷ [])
]
decode_from mark result (c ∷ c1 ∷ c0 ∷ cs) = elim (c == mark) [
  | true ↦ decode_from mark (result ++ decode_pair c1 c0 ∷ []) cs
  | false ↦ decode_from mark (result ++ c ∷ []) (c1 ∷ c0 ∷ cs)
]

-- crypt_string.cc
unfoldable pub crypt : Bytes → Bytes
unfolding encode_from encode_byte dec2hex_char is_alnum
crypt = encode_from is_alnum b'#' []

unfoldable pub decrypt : Bytes → Option Bytes
unfolding decode_from decode_pair hex_char2dec
decrypt = decode_from b'#' []

-- escape_url.cc
unfoldable pub escape_url : Bytes → Bytes
unfolding encode_from encode_byte dec2hex_char is_plain
escape_url = encode_from is_plain b'%' []

unfoldable pub deescape_url : Bytes → Option Bytes
unfolding decode_from decode_pair hex_char2dec
deescape_url = decode_from b'%' []
