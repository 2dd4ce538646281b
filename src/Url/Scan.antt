-- ===== src/Url/Scan.antt =====
-- What is left behind an optional prefix is a suffix of the text, and how a text ends.
use mathlib.Core.List.{append_assoc}
use amigao.Base.{
  ℕ, ◌≤◌, false, [], ◌∷◌, ◌++◌, ◌≡◌, refl, sym, ap, ◌∙◌, inl, inr, arith, ◌==◌, Bool-cases, length,
  length-append, All, All-append_right, Bytes, codes,
}
use amigao.Url.Defs.{is_nil, is_tail, scan, skip_s, skip_scheme, skip_www}

-- `v` is what is left of `u` from some position on.
abbrev pub IsSuffix : Bytes → Bytes → Type 0
IsSuffix v u = (w : Bytes) × (u ≡ w ++ v)

pub IsSuffix-refl : (u : Bytes) → IsSuffix u u
IsSuffix-refl u = ([], refl)

pub IsSuffix-trans : (t v u : Bytes) → IsSuffix t v → IsSuffix v u → IsSuffix t u
IsSuffix-trans t v u (w, e) (x, f) = (x ++ w, f ∙ ap (◌++◌ x) e ∙ sym (append_assoc x w t))

IsSuffix-cons : (c : ℕ) (v u : Bytes) → IsSuffix v u → IsSuffix v (c ∷ u)
IsSuffix-cons c v u (w, e) = (c ∷ w, ap (◌∷◌ c) e)

pub scan-IsSuffix : (p u : Bytes) → IsSuffix (scan p u).1 u
unfolding scan
scan-IsSuffix [] u = IsSuffix-refl u
scan-IsSuffix (p ∷ ps) [] = IsSuffix-refl []
scan-IsSuffix (p ∷ ps) (c ∷ cs) = elim (Bool-cases (c == p)) [
  | inl same ↦ rw same (IsSuffix-cons c (scan ps cs).1 cs (scan-IsSuffix ps cs))
  | inr other ↦ rw other (IsSuffix-refl (c ∷ cs))
]

skip_s-IsSuffix : (u : Bytes) → IsSuffix (skip_s u) u
skip_s-IsSuffix [] = IsSuffix-refl []
skip_s-IsSuffix (c ∷ cs) = elim (Bool-cases (c == b's')) [
  | inl same ↦ rw same (c ∷ [], refl)
  | inr other ↦ rw other (IsSuffix-refl (c ∷ cs))
]

pub skip_scheme-IsSuffix : (u : Bytes) → IsSuffix (skip_scheme u) u
unfolding skip_scheme
skip_scheme-IsSuffix u =
    let after = (scan (codes "http") u).1 in
    let sep = scan (codes "://") (skip_s after) in
    elim (Bool-cases (is_nil (scan (codes "http") u).0)) [
      | inr e ↦ rw e (IsSuffix-refl u)
      | inl e ↦ elim (Bool-cases (is_nil sep.0)) [
        | inr f ↦ rw (e, f) (IsSuffix-refl u)
        | inl f ↦
            rw (e, f)
              (IsSuffix-trans _ (skip_s after) u (scan-IsSuffix (codes "://") (skip_s after))
                (IsSuffix-trans _ after u (skip_s-IsSuffix after) (scan-IsSuffix (codes "http") u)))
      ]
    ]

pub skip_www-IsSuffix : (u : Bytes) → IsSuffix (skip_www u) u
unfolding skip_www
skip_www-IsSuffix u = elim (Bool-cases (is_nil (scan (codes "www.") u).0)) [
  | inr e ↦ rw e (IsSuffix-refl u)
  | inl e ↦ rw e (scan-IsSuffix (codes "www.") u)
]

pub length-IsSuffix : (v u : Bytes) → IsSuffix v u → length v ≤ length u
length-IsSuffix v u (w, e) = omega (arith, ap length e, length-append w v)

pub All-IsSuffix {κ} : (P : ℕ → Type κ) (v u : Bytes) → IsSuffix v u → All P u → All P v
All-IsSuffix P v u (w, e) h = All-append_right P w v (rw e at h)

-- The text is empty, or its last byte is none that the tail loop cuts.
abbrev pub EndsClean : Bytes → Type 0
EndsClean [] = Unit {0}
EndsClean (c ∷ []) = is_tail c ≡ false
EndsClean (c ∷ d ∷ r) = EndsClean (d ∷ r)

pub EndsClean-concat : (t : Bytes) (c : ℕ) → is_tail c ≡ false → EndsClean (t ++ c ∷ [])
EndsClean-concat [] c h = h
EndsClean-concat (x ∷ []) c h = h
EndsClean-concat (x ∷ y ∷ t) c h = EndsClean-concat (y ∷ t) c h

EndsClean-drop : (w v : Bytes) → EndsClean (w ++ v) → EndsClean v
EndsClean-drop [] v h = h
EndsClean-drop (x ∷ []) [] h = tt
EndsClean-drop (x ∷ []) (c ∷ v) h = h
EndsClean-drop (x ∷ y ∷ w) v h = EndsClean-drop (y ∷ w) v h

pub EndsClean-IsSuffix : (v u : Bytes) → IsSuffix v u → EndsClean u → EndsClean v
EndsClean-IsSuffix v u (w, e) h = EndsClean-drop w v (rw e at h)

pub EndsClean-prepend : (w : Bytes) (c : ℕ) (v : Bytes) → EndsClean (c ∷ v) → EndsClean (w ++ c ∷ v)
EndsClean-prepend [] c v h = h
EndsClean-prepend (x ∷ []) c v h = h
EndsClean-prepend (x ∷ y ∷ w) c v h = EndsClean-prepend (y ∷ w) c v h
