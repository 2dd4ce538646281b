-- ===== src/Decimal.antt =====
-- Numbers as texts: what a `stringstream` makes of a number that is put into it, and the number that it
-- reads out of a text of digits. A text that is not one is `none`: the code reads none.
use amigao.Base.{
  sym, ap, ◌∙◌, ℕ, zero, suc, ◌+◌, ◌-◌, ◌*◌, ◌/◌, ◌%◌, ◌<◌, ◌≤◌, Bool, ◌&&◌, [], ◌∷◌, ◌++◌, Option,
  none, some, ◌≡◌, refl, arith, inl, inr, ltb, leb, if◌then◌else◌, Bytes, All, All-append,
  Bool-cases,
}

-- Every step is to a tenth, so `n` steps are enough.
abbrev print_from : ℕ → ℕ → Bytes
print_from zero n = (n % 10 + b'0') ∷ []
print_from (suc fuel) n =
    let front = print_from fuel (n / 10) in
    if ltb n 10 then (n + b'0') ∷ [] else front ++ (n % 10 + b'0') ∷ []

unfoldable pub print_number : ℕ → Bytes
print_number n = print_from n n

abbrev pub is_digit : ℕ → Bool
is_digit c = leb b'0' c && leb c b'9'

abbrev read_from : ℕ → Bytes → Option ℕ
read_from number [] = some number
read_from number (c ∷ cs) =
    let rest = read_from (number * 10 + (c - b'0')) cs in if is_digit c then rest else none

unfoldable pub read_number : Bytes → Option ℕ
read_number [] = none
read_number (c ∷ cs) = read_from 0 (c ∷ cs)

abbrev pub IsDigit : ℕ → Type 0
IsDigit c = (b'0' ≤ c) × (c ≤ b'9')

print_from-IsDigit : (fuel n : ℕ) → All IsDigit (print_from fuel n)
print_from-IsDigit zero n = ((omega arith, omega arith), tt)
print_from-IsDigit (suc fuel) n = elim (Bool-cases (ltb n 10)) [
  | inl small ↦ let small' : n < 10 = ground arith in rw small ((omega arith, omega arith), tt)
  | inr large ↦ rw large (
      All-append IsDigit (print_from fuel (n / 10)) ((n % 10 + b'0') ∷ [])
        (print_from-IsDigit fuel (n / 10)) ((omega arith, omega arith), tt))
]

pub print_number-IsDigit : (n : ℕ) → All IsDigit (print_number n)
unfolding print_number
print_number-IsDigit n = print_from-IsDigit n n

read_from-append :
    (number m c : ℕ) (cs : Bytes)
    → IsDigit c
    → read_from number cs ≡ some m
    → read_from number (cs ++ c ∷ []) ≡ some (m * 10 + (c - b'0'))
read_from-append number m c [] d h = ground arith
read_from-append number m c (e ∷ es) d h =
    let next : read_from (number * 10 + (e - b'0')) es ≡ some m
        → read_from (number * 10 + (e - b'0')) (es ++ c ∷ []) ≡ some (m * 10 + (c - b'0')) =
      read_from-append (number * 10 + (e - b'0')) m c es d in
    ground (arith, next)

read_from-print_from : (fuel n : ℕ) → n ≤ fuel → read_from 0 (print_from fuel n) ≡ some n
read_from-print_from zero n h = ground arith
read_from-print_from (suc fuel) n h = elim (Bool-cases (ltb n 10)) [
  | inl small ↦ rw small (ground arith)
  | inr large ↦ rw large (
      read_from-append 0 (n / 10) (n % 10 + b'0') (print_from fuel (n / 10))
        (omega arith, omega arith) (read_from-print_from fuel (n / 10) (ground arith))
      ∙ ap some (omega arith))
]

abbrev pub IsLed : ℕ → Bytes → Type 0
IsLed least [] = ⊥
IsLed least (c ∷ cs) = (least ≤ c) × (c ≤ b'9')

IsLed-append : (least : ℕ) (xs ys : Bytes) → IsLed least xs → IsLed least (xs ++ ys)
IsLed-append least [] ys h = absurd h
IsLed-append least (c ∷ cs) ys h = h

print_from-IsLed :
    (fuel n least : ℕ) → least ≤ 1 → least ≤ n → n ≤ fuel → IsLed (least + b'0') (print_from fuel n)
print_from-IsLed zero n least h l f = (omega arith, omega arith)
print_from-IsLed (suc fuel) n least h l f = elim (Bool-cases (ltb n 10)) [
  | inl small ↦ let small' : n < 10 = ground arith in rw small (omega arith, omega arith)
  | inr large ↦
      let large' : 10 ≤ n = ground arith in
      rw large (
        IsLed-append (least + b'0') (print_from fuel (n / 10)) ((n % 10 + b'0') ∷ [])
          (print_from-IsLed fuel (n / 10) least h (omega arith) (omega arith)))
]

-- The text of a number has digits, and the text of a positive one does not start with 0.
pub print_number-IsLed :
    (n least : ℕ) → least ≤ 1 → least ≤ n → IsLed (least + b'0') (print_number n)
unfolding print_number
print_number-IsLed n least h l = print_from-IsLed n n least h l (omega arith)

read_number-IsLed :
    (least : ℕ) (text : Bytes) → IsLed least text → read_number text ≡ read_from 0 text
unfolding read_number
read_number-IsLed least [] h = absurd h
read_number-IsLed least (c ∷ cs) h = refl

pub read_number-print_number : (n : ℕ) → read_number (print_number n) ≡ some n
unfolding print_number
read_number-print_number n =
    read_number-IsLed b'0' (print_number n) (print_number-IsLed n 0 (omega arith) (omega arith))
    ∙ read_from-print_from n n (omega arith)

some-injective : {m n : ℕ} → some m ≡ some n → m ≡ n
some-injective h = ground arith

pub print_number-injective : (m n : ℕ) → print_number m ≡ print_number n → m ≡ n
print_number-injective m n h =
    some-injective
      (sym (read_number-print_number m) ∙ ap read_number h ∙ read_number-print_number n)
