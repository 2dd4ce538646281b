-- ===== src/Url/Faults.antt =====
-- When the tail loop of `format_url` runs out of the string.
use mathlib.Core.List.{map, reverse, reverse-reverse}
use mathlib.Core.Option
use amigao.Base.{
  ℕ, ◌+◌, ◌≤◌, Bool, true, false, [], ◌∷◌, none, ◌≡◌, ◌↔◌, refl, sym, ap, ◌∙◌, inl, inr, arith, ltb,
  Bool-cases, length, All, All-reverse, Bytes,
}
use amigao.Url.Defs.{
  is_blank, is_tail, to_lower, skip_blanks, cut_tail, clean, effective, format_url,
}
use amigao.Values.{url_size}

-- A byte that the tail loop cuts: a blank, a newline or a slash.
abbrev pub IsTail : ℕ → Type 0
IsTail c = is_tail c ≡ true

-- A text within the limit, of blanks, newlines and slashes only, that starts with no blank.
abbrev pub IsFault : Bytes → Type 0
IsFault [] = ⊥
IsFault (c ∷ cs) = (length (c ∷ cs) ≤ url_size) × (is_blank c ≡ false) × All IsTail (c ∷ cs)

cut_tail-none :
    (at_start : Bool) (s : Bytes) → cut_tail at_start s ≡ none → (at_start ≡ true) × All IsTail s
unfolding cut_tail
cut_tail-none true [] e = (refl, tt)
cut_tail-none false [] e = cc
cut_tail-none at_start (c ∷ cs) e = elim (Bool-cases (is_tail c)) [
  | inl cut ↦ let (b, rest) = cut_tail-none at_start cs (rw cut at e) in (b, (cut, rest))
  | inr stop ↦ cc (rw stop at e)
]

cut_tail-All : (s : Bytes) → All IsTail s → cut_tail true s ≡ none
unfolding cut_tail
cut_tail-All [] h = refl
cut_tail-All (c ∷ cs) h = rw h.0 (cut_tail-All cs h.1)

skip_blanks-le : (i : ℕ) (s : Bytes) → i ≤ (skip_blanks i s).0
unfolding skip_blanks
skip_blanks-le i [] = omega arith
skip_blanks-le i (c ∷ cs) = elim (Bool-cases (is_blank c)) [
  | inl blank ↦ let more = skip_blanks-le (i + 1) cs in rw blank (omega arith)
  | inr other ↦ rw other (omega arith)
]

skip_blanks_none :
    (i c : ℕ) (cs : Bytes) → is_blank c ≡ false → skip_blanks i (c ∷ cs) ≡ (i, c ∷ cs)
unfolding skip_blanks
skip_blanks_none i c cs h = rw h

skip_blanks_some : (c : ℕ) (cs : Bytes) → is_blank c ≡ true → 1 ≤ (skip_blanks 0 (c ∷ cs)).0
unfolding skip_blanks
skip_blanks_some c cs h = rw h (skip_blanks-le 1 cs)

effective-none :
    (c : ℕ) (cs : Bytes) → effective (c ∷ cs) ≡ none → (is_blank c ≡ false) × All IsTail (c ∷ cs)
unfolding effective
effective-none c cs e = elim (Bool-cases (is_blank c)) [
  | inl blank ↦
      let (b, _) = cut_tail-none _ _ ((Option.map-eq-none_iff reverse _).0 e) in
      let more = skip_blanks_some c cs blank in ground arith
  | inr other ↦
      let cut = (Option.map-eq-none_iff reverse _).0 (rw (skip_blanks_none 0 c cs other) at e) in
      let (b, tails) = cut_tail-none true (reverse (c ∷ cs)) cut in
      (other, rw reverse-reverse at (All-reverse IsTail (reverse (c ∷ cs)) tails))
]

effective_fault :
    (c : ℕ) (cs : Bytes) → is_blank c ≡ false → All IsTail (c ∷ cs) → effective (c ∷ cs) ≡ none
unfolding effective
effective_fault c cs h tails =
    rw (skip_blanks_none 0 c cs h) (
      ap (Option.map reverse) (cut_tail-All (reverse (c ∷ cs)) (All-reverse IsTail (c ∷ cs) tails)))

to_lower_same : (c : ℕ) → (is_blank (to_lower c) ≡ is_blank c) × (is_tail (to_lower c) ≡ is_tail c)
unfolding to_lower
to_lower_same c = (ground arith, ground arith)

All-map-to_lower : (s : Bytes) → All IsTail (map to_lower s) ↔ All IsTail s
All-map-to_lower [] = (λ h. h, λ h. h)
All-map-to_lower (c ∷ cs) = (
  λ h. (sym (to_lower_same c).1 ∙ h.0, (All-map-to_lower cs).0 h.1),
  λ h. ((to_lower_same c).1 ∙ h.0, (All-map-to_lower cs).1 h.1),
)

-- `format_url` reads out of the string exactly on the texts within the limit that start with a
-- slash or a newline and hold slashes, newlines and blanks only, as the link `/` does.
pub format_url-none_iff : (s : Bytes) → (format_url s ≡ none) ↔ IsFault s
unfolding format_url
format_url-none_iff [] = (λ e. ground arith, λ h. absurd h)
format_url-none_iff (c ∷ cs) = (
  λ e. elim (Bool-cases (ltb url_size (length (c ∷ cs)))) [
    | inl long ↦ cc (rw long at e)
    | inr short ↦
        let fault = (Option.map-eq-none_iff clean _).0 (rw short at e) in
        let (b, tails) = effective-none (to_lower c) (map to_lower cs) fault in
        (ground arith, sym (to_lower_same c).0 ∙ b, (All-map-to_lower (c ∷ cs)).0 tails)
  ],
  λ h.
      let short : ltb url_size (length (c ∷ cs)) ≡ false = ground arith in
      let b = (to_lower_same c).0 ∙ h.1 in
      let tails = (All-map-to_lower (c ∷ cs)).1 h.2 in
      rw (short, effective_fault (to_lower c) (map to_lower cs) b tails),
)
