-- ===== src/Codec/Escaped.antt =====
-- The encoders as a concatenation over the bytes, and what their output looks like.
use mathlib.Core.List.{append_assoc, append-nil}
use amigao.Base.{
  ℕ, ◌*◌, ◌/◌, ◌-◌, ◌≤◌, ◌<◌, Bool, true, ◌||◌, [], ◌∷◌, ◌++◌, ◌≡◌, refl, sym, ◌∙◌, inl, inr, arith,
  ◌==◌, Bool-cases, length, length-append, All, All-append, Bytes, IsBytes,
}
use amigao.Codec.Defs.{is_alnum, dec2hex_char, encode_byte, encode_from, crypt}

-- What the loop builds, with no accumulator.
abbrev pub encoded : (ℕ → Bool) → ℕ → Bytes → Bytes
encoded keep mark [] = []
encoded keep mark (c ∷ cs) = encode_byte keep mark c ++ encoded keep mark cs

pub encode_from-encoded :
    (keep : ℕ → Bool) (mark : ℕ) (result s : Bytes)
    → encode_from keep mark result s ≡ result ++ encoded keep mark s
unfolding encode_from
encode_from-encoded keep mark result [] = sym (append-nil result)
encode_from-encoded keep mark result (c ∷ cs) =
    encode_from-encoded keep mark (result ++ encode_byte keep mark c) cs
    ∙ append_assoc result (encode_byte keep mark c) (encoded keep mark cs)

-- Two codings of one text in a row are the coding of the joined text.
pub encoded-append :
    (keep : ℕ → Bool) (mark : ℕ) (s t : Bytes)
    → encoded keep mark (s ++ t) ≡ encoded keep mark s ++ encoded keep mark t
encoded-append keep mark [] t = refl
encoded-append keep mark (c ∷ cs) t = simp (encoded-append keep mark cs t, append_assoc)

-- Each byte becomes one byte or three.
length-encoded :
    (keep : ℕ → Bool) (mark : ℕ) (s : Bytes)
    → (length s ≤ length (encoded keep mark s)) × (length (encoded keep mark s) ≤ 3 * length s)
unfolding encode_byte
length-encoded keep mark [] = (omega arith, omega arith)
length-encoded keep mark (c ∷ cs) =
    ground (arith, length-encoded keep mark cs, length-append (encode_byte keep mark c))

-- A letter, a digit, or the mark.
abbrev pub IsSafe : ℕ → ℕ → Type 0
IsSafe mark c = (is_alnum c || c == mark) ≡ true

dec2hex_char-IsSafe : (mark n : ℕ) → n < 16 → IsSafe mark (dec2hex_char n)
unfolding dec2hex_char is_alnum
dec2hex_char-IsSafe mark n h = ground arith

encode_byte-IsSafe : (c : ℕ) → c < 256 → All (IsSafe b'#') (encode_byte is_alnum b'#' c)
unfolding encode_byte
encode_byte-IsSafe c h = elim (Bool-cases (is_alnum c)) [
  | inl kept ↦ rw kept (rw kept refl, tt)
  | inr escaped ↦ rw escaped (
    mark_safe,
    (
      dec2hex_char-IsSafe b'#' (c / 16) (omega arith),
      (dec2hex_char-IsSafe b'#' (c - c / 16 * 16) (omega arith), tt),
    ),
  )
]
  where
    mark_safe : IsSafe b'#' b'#'
    mark_safe = elim (Bool-cases (is_alnum b'#')) [ inl e ↦ rw e | inr e ↦ rw e ]

encoded-IsSafe : (s : Bytes) → IsBytes s → All (IsSafe b'#') (encoded is_alnum b'#' s)
encoded-IsSafe [] h = tt
encoded-IsSafe (c ∷ cs) h =
    All-append (IsSafe b'#') (encode_byte is_alnum b'#' c) (encoded is_alnum b'#' cs)
      (encode_byte-IsSafe c h.0) (encoded-IsSafe cs h.1)

-- The database text of a string of bytes holds letters, digits and `#` only: no quote, backslash,
-- blank or separator of a statement.
pub crypt-IsSafe : (s : Bytes) → IsBytes s → All (IsSafe b'#') (crypt s)
unfolding crypt
crypt-IsSafe s h = rw encode_from-encoded (encoded-IsSafe s h)

-- The database text is at least as long as the string and at most three times as long.
pub length-crypt : (s : Bytes) → (length s ≤ length (crypt s)) × (length (crypt s) ≤ 3 * length s)
unfolding crypt
length-crypt s = rw encode_from-encoded (length-encoded is_alnum b'#' s)

-- The database text of two strings joined is that of the first followed by that of the second.
pub crypt-append : (s t : Bytes) → crypt (s ++ t) ≡ crypt s ++ crypt t
unfolding crypt
crypt-append s t = simp (encode_from-encoded) (encoded-append is_alnum b'#' s t)
