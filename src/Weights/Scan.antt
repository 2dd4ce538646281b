-- ===== src/Weights/Scan.antt =====
-- The scans of a text that the code writes as loops over an index.
use mathlib.Core.List.{append_assoc}
use amigao.Base.{
  ℕ, Bool, true, false, ◌&&◌, [], ◌∷◌, ◌++◌, Option, none, some, ◌≡◌, refl, arith, ◌==◌,
  if◌then◌else◌, Bytes, All, sym, ap,
}

infixl 5 ◌>>=◌
abbrev pub ◌>>=◌ {ℓ κ} : {A : Type ℓ} {B : Type κ} → Option A → (A → Option B) → Option B
none >>= f = none
some a >>= f = f a

abbrev pub prepend : Bytes → Option (Bytes × Bytes) → Option (Bytes × Bytes)
prepend text none = none
prepend text (some (before, from)) = some (text ++ before, from)

-- The text cut in two in front of the first `c`.
abbrev pub split_at : ℕ → Bytes → Option (Bytes × Bytes)
split_at c [] = none
split_at c (d ∷ ds) =
    let rest = split_at c ds in if d == c then some ([], d ∷ ds) else prepend (d ∷ []) rest

-- What stands in front of the last `c` and what behind it.
abbrev pub split_last : ℕ → Bytes → Option (Bytes × Bytes)
split_last c [] = none
split_last c (d ∷ ds) = elim (split_last c ds) [
  | none ↦ if d == c then some ([], ds) else none
  | some (before, after) ↦ some (d ∷ before, after)
]

abbrev pub starts_with : Bytes → Bytes → Bool
starts_with [] text = true
starts_with (p ∷ ps) [] = false
starts_with (p ∷ ps) (d ∷ ds) = d == p && starts_with ps ds

-- The text cut in two in front of the first place where `pattern` stands: `find`.
abbrev pub split_text : Bytes → Bytes → Option (Bytes × Bytes)
split_text pattern [] = if starts_with pattern [] then some ([], []) else none
split_text pattern (d ∷ ds) =
    let rest = split_text pattern ds in
    if starts_with pattern (d ∷ ds) then some ([], d ∷ ds) else prepend (d ∷ []) rest

-- Without the sign `c`.
abbrev pub Lacks : ℕ → Bytes → Type 0
Lacks c = All (λ d. (d == c) ≡ false)

pub prepend-prepend :
    (a b : Bytes) (r : Option (Bytes × Bytes)) → prepend a (prepend b r) ≡ prepend (a ++ b) r
prepend-prepend a b none = refl
prepend-prepend a b (some (before, from)) = ap (λ x. some (x, from)) (sym (append_assoc a b before))

pub split_at-Lacks :
    (c : ℕ) (text rest : Bytes)
    → Lacks c text
    → split_at c (text ++ c ∷ rest) ≡ some (text, c ∷ rest)
split_at-Lacks c [] rest h = let same : (c == c) ≡ true = ground arith in rw same
split_at-Lacks c (d ∷ ds) rest h = rw (h.0, split_at-Lacks c ds rest h.1)

pub split_at-none : (c : ℕ) (text : Bytes) → Lacks c text → split_at c text ≡ none
split_at-none c [] h = refl
split_at-none c (d ∷ ds) h = rw (h.0, split_at-none c ds h.1)

split_last-none : (c : ℕ) (text : Bytes) → Lacks c text → split_last c text ≡ none
split_last-none c [] h = refl
split_last-none c (d ∷ ds) h = rw (split_last-none c ds h.1, h.0)

pub split_last-Lacks :
    (c : ℕ) (text rest : Bytes) → Lacks c rest → split_last c (text ++ c ∷ rest) ≡ some (text, rest)
split_last-Lacks c [] rest h =
    let same : (c == c) ≡ true = ground arith in rw (split_last-none c rest h, same)
split_last-Lacks c (d ∷ ds) rest h = rw (split_last-Lacks c ds rest h)

prepend-nil : (r : Option (Bytes × Bytes)) → r ≡ prepend [] r
prepend-nil none = refl
prepend-nil (some (before, from)) = refl

-- A pattern is not found where its first sign does not stand.
pub split_text-Lacks :
    (c : ℕ) (ps text rest : Bytes)
    → Lacks c text
    → split_text (c ∷ ps) (text ++ rest) ≡ prepend text (split_text (c ∷ ps) rest)
split_text-Lacks c ps [] rest h = prepend-nil (split_text (c ∷ ps) rest)
split_text-Lacks c ps (d ∷ ds) rest h =
    rw (h.0, split_text-Lacks c ps ds rest h.1) (prepend-prepend (d ∷ []) ds _)
