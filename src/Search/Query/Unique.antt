-- ===== src/Search/Query/Unique.antt =====
-- The entries of the map of the weights of the urls, of which each stands for another url
-- (src/strategy/plain_search_strategy.hpp).
use mathlib.Core.Path.{subst}
use mathlib.Core.Option.{some-injective}
use amigao.Base.{
  ℕ, zero, suc, ◌<◌, false, List, [], ◌∷◌, Option, none, some, ◌≡◌, ◌≢◌, refl, sym, ap, inl, inr,
  arith, Bool-cases, All, Bytes, text_eq, length,
}
use amigao.Search.Query.{add_weight, add_all, sum_weights, entry}
use amigao.Search.Query.Summed.{weight_in}
use amigao.Weights.Nodes.{text_eq_iff, text_eq_refl}
use amigao.Weights.Parsed.{parse_weight}

-- No two entries stand for the same url.
abbrev pub IsUnique : List (Bytes × ℕ) → Type 0
IsUnique [] = Unit {0}
IsUnique (e ∷ entries) = All (λ other. e.0 ≢ other.0) entries × IsUnique entries

text_eq-other : (u v : Bytes) → u ≢ v → text_eq u v ≡ false
text_eq-other u v other = elim (Bool-cases (text_eq u v)) [
  | inl same ↦ absurd (other (text_eq_iff u v same))
  | inr differ ↦ differ
]

add_weight-other :
    (v u : Bytes) (w : ℕ) (entries : List (Bytes × ℕ))
    → v ≢ u
    → All (λ e. v ≢ e.0) entries
    → All (λ e. v ≢ e.0) (add_weight u w entries)
add_weight-other v u w [] other h = (other, tt)
add_weight-other v u w ((t, x) ∷ entries) other h = elim (Bool-cases (text_eq t u)) [
  | inl same ↦ rw same h
  | inr differ ↦ rw differ (h.0, add_weight-other v u w entries other h.1)
]

add_weight-IsUnique :
    (u : Bytes) (w : ℕ) (entries : List (Bytes × ℕ))
    → IsUnique entries
    → IsUnique (add_weight u w entries)
add_weight-IsUnique u w [] h = (tt, tt)
add_weight-IsUnique u w ((t, x) ∷ entries) h = elim (Bool-cases (text_eq t u)) [
  | inl same ↦ rw same h
  | inr differ ↦
      let other : t ≢ u =
        λ e. let hit = rw (← e, text_eq_refl t) at differ in absurd (ground arith) in
      rw differ (add_weight-other t u w entries other h.0, add_weight-IsUnique u w entries h.1)
]

add_all-IsUnique :
    (added entries : List (Bytes × ℕ)) → IsUnique entries → IsUnique (add_all added entries)
add_all-IsUnique [] entries h = h
add_all-IsUnique ((u, w) ∷ added) entries h =
    add_all-IsUnique added (add_weight u w entries) (add_weight-IsUnique u w entries h)

All-entry {ℓ} :
    (P : Bytes × ℕ → Type ℓ) (entries : List (Bytes × ℕ)) (k : ℕ)
    → All P entries
    → k < length entries
    → P (entry entries k)
All-entry P [] k h l = absurd (omega arith)
All-entry P (e ∷ entries) zero h l = h.0
All-entry P (e ∷ entries) (suc k) h l = All-entry P entries k h.1 (omega arith)

pub weight_in-entry :
    (entries : List (Bytes × ℕ)) (k : ℕ)
    → IsUnique entries
    → k < length entries
    → weight_in (entry entries k).0 entries ≡ (entry entries k).1
weight_in-entry [] k h l = absurd (omega arith)
weight_in-entry ((u, w) ∷ entries) zero h l = let same = text_eq_refl u in rw same refl
weight_in-entry ((u, w) ∷ entries) (suc k) h l =
    let other = All-entry (λ e. u ≢ e.0) entries k h.0 (omega arith) in
    let differ = text_eq-other u (entry entries k).0 other in
    rw differ (weight_in-entry entries k h.1 (omega arith))

pub entry-other :
    (entries : List (Bytes × ℕ)) (j k : ℕ)
    → IsUnique entries
    → j < length entries
    → k < length entries
    → j ≢ k
    → (entry entries j).0 ≢ (entry entries k).0
entry-other [] j k h l m other = absurd (omega arith)
entry-other (e ∷ entries) zero zero h l m other = absurd (other refl)
entry-other (e ∷ entries) zero (suc k) h l m other =
    All-entry (λ d. e.0 ≢ d.0) entries k h.0 (omega arith)
entry-other (e ∷ entries) (suc j) zero h l m other =
    λ same. All-entry (λ d. e.0 ≢ d.0) entries j h.0 (omega arith) (sym same)
entry-other (e ∷ entries) (suc j) (suc k) h l m other =
    entry-other entries j k h.1 (omega arith) (omega arith) (λ same. other (ap suc same))

-- A map that is made from the texts of the words, starting from one without such entries, has none.
pub sum_weights-IsUnique :
    (extract_unsigned : Bytes → Bytes × ℕ) (wordno_times : Bytes → ℕ) (texts : List (Bytes × Bytes))
    (entries : List (Bytes × ℕ)) {summed : List (Bytes × ℕ)}
    → IsUnique entries
    → sum_weights extract_unsigned wordno_times texts entries ≡ some summed
    → IsUnique summed
unfolding sum_weights
sum_weights-IsUnique extract_unsigned wordno_times [] entries h e =
    subst IsUnique (some-injective _ _ e) h
sum_weights-IsUnique extract_unsigned wordno_times ((number, text) ∷ more) entries {summed} h e =
    go (parse_weight extract_unsigned (wordno_times number) text) e (λ added.
      sum_weights-IsUnique extract_unsigned wordno_times more (add_all added entries)
        (add_all-IsUnique added entries h))
  where
    go :
        (parsed : Option (List (Bytes × ℕ)))
        → (elim parsed [
          | none ↦ none
          | some added ↦ sum_weights extract_unsigned wordno_times more (add_all added entries)
        ])
          ≡ some summed
        → ((added : List (Bytes × ℕ))
            → sum_weights extract_unsigned wordno_times more (add_all added entries) ≡ some summed
            → IsUnique summed)
        → IsUnique summed
    go none e later = cc e
    go (some added) e later = later added e
