-- ===== src/Weights/Index.antt =====
-- The order and the bounds of the nodes of a word.
use mathlib.Core.Path.{subst}
use amigao.Base.{
  ℕ, suc, ◌<◌, ◌≤◌, List, [], ◌∷◌, ◌≡◌, ◌≢◌, refl, arith, inl, inr, ◌==◌, ltb, sym, ◌∙◌, ◌⊎◌,
  Bool-cases, length, All, All-map, some,
}
use amigao.Weights.{update_weight}
use amigao.Weights.Nodes.{Node, text_of}
use amigao.Weights.Places.{without}
use amigao.Weights.Inserted.{placed}
use amigao.Weights.Updated.{
  first_nodes, replaced, updated, length-placed, length-first_nodes, update_weight-updated,
}

-- The heaviest node is first.
abbrev pub IsRanked : List Node → Type 0
IsRanked [] = Unit {0}
IsRanked (n ∷ ns) = All (λ m. m.0 ≤ n.0) ns × IsRanked ns

-- No url has two nodes.
abbrev pub IsOnce : List Node → Type 0
IsOnce [] = Unit {0}
IsOnce (n ∷ ns) = All (λ m. m.1 ≢ n.1) ns × IsOnce ns

abbrev pub IsIndex : ℕ → List Node → Type 0
IsIndex max_urls ns = IsRanked ns × IsOnce ns × (length ns ≤ max_urls)

module _ (P : Node → Type 0) where
  All-without : (url_no : ℕ) (ns : List Node) → All P ns → All P (without url_no ns)
  All-without url_no [] h = tt
  All-without url_no ((w, v) ∷ ns) h = elim (Bool-cases (v == url_no)) [
    | inl here ↦ rw here h.1
    | inr other ↦ rw other (h.0, All-without url_no ns h.1)
  ]

  All-placed : (n : Node) (ns : List Node) → P n → All P ns → All P (placed n ns)
  All-placed (weight, url_no) [] p h = (p, tt)
  All-placed (weight, url_no) ((w, v) ∷ ns) p h = elim (Bool-cases (ltb weight w)) [
    | inl heavier ↦ rw heavier (h.0, All-placed (weight, url_no) ns p h.1)
    | inr lighter ↦ rw lighter (p, h)
  ]

  All-first_nodes : (ns : List Node) → All P ns → All P (first_nodes ns)
  All-first_nodes [] h = tt
  All-first_nodes (n ∷ []) h = tt
  All-first_nodes (n ∷ m ∷ ns) h = (h.0, All-first_nodes (m ∷ ns) h.1)

without-IsRanked : (url_no : ℕ) (ns : List Node) → IsRanked ns → IsRanked (without url_no ns)
without-IsRanked url_no [] h = tt
without-IsRanked url_no ((w, v) ∷ ns) h = elim (Bool-cases (v == url_no)) [
  | inl here ↦ rw here h.1
  | inr other ↦ rw other (All-without (λ m. m.0 ≤ w) url_no ns h.0, without-IsRanked url_no ns h.1)
]

without-IsOnce : (url_no : ℕ) (ns : List Node) → IsOnce ns → IsOnce (without url_no ns)
without-IsOnce url_no [] h = tt
without-IsOnce url_no ((w, v) ∷ ns) h = elim (Bool-cases (v == url_no)) [
  | inl here ↦ rw here h.1
  | inr other ↦ rw other (All-without (λ m. m.1 ≢ v) url_no ns h.0, without-IsOnce url_no ns h.1)
]

without-gone :
    (url_no : ℕ) (ns : List Node) → IsOnce ns → All (λ m. m.1 ≢ url_no) (without url_no ns)
without-gone url_no [] h = tt
without-gone url_no ((w, v) ∷ ns) h = elim (Bool-cases (v == url_no)) [
  | inl here ↦
      let same : v ≡ url_no = ground arith in
      rw here (All-map (λ m. m.1 ≢ v) (λ m. m.1 ≢ url_no) ns (λ m differs. ground arith) h.0)
  | inr other ↦ rw other (ground arith, without-gone url_no ns h.1)
]

length-without : (url_no : ℕ) (ns : List Node) → length (without url_no ns) ≤ length ns
length-without url_no [] = omega arith
length-without url_no ((w, v) ∷ ns) =
    let rest = length-without url_no ns in
    elim (Bool-cases (v == url_no)) [
      | inl here ↦ rw here (omega arith)
      | inr other ↦ rw other (omega arith)
    ]

placed-IsRanked : (n : Node) (ns : List Node) → IsRanked ns → IsRanked (placed n ns)
placed-IsRanked (weight, url_no) [] h = (tt, tt)
placed-IsRanked (weight, url_no) ((w, v) ∷ ns) h = elim (Bool-cases (ltb weight w)) [
  | inl heavier ↦ rw heavier (
    All-placed (λ m. m.0 ≤ w) (weight, url_no) ns (ground arith) h.0,
    placed-IsRanked (weight, url_no) ns h.1,
  )
  | inr lighter ↦
      let within : w ≤ weight = ground arith in
      rw lighter
        ((within, All-map (λ m. m.0 ≤ w) (λ m. m.0 ≤ weight) ns (λ m l. omega arith) h.0), h)
]

placed-IsOnce :
    (n : Node) (ns : List Node) → All (λ m. m.1 ≢ n.1) ns → IsOnce ns → IsOnce (placed n ns)
placed-IsOnce (weight, url_no) [] g h = (tt, tt)
placed-IsOnce (weight, url_no) ((w, v) ∷ ns) g h = elim (Bool-cases (ltb weight w)) [
  | inl heavier ↦ rw heavier (
    All-placed (λ m. m.1 ≢ v) (weight, url_no) ns (λ e. g.0 (sym e)) h.0,
    placed-IsOnce (weight, url_no) ns g.1 h.1,
  )
  | inr lighter ↦ rw lighter (g, h)
]

first_nodes-IsRanked : (ns : List Node) → IsRanked ns → IsRanked (first_nodes ns)
first_nodes-IsRanked [] h = tt
first_nodes-IsRanked (n ∷ []) h = tt
first_nodes-IsRanked (n ∷ m ∷ ns) h =
    (All-first_nodes (λ k. k.0 ≤ n.0) (m ∷ ns) h.0, first_nodes-IsRanked (m ∷ ns) h.1)

first_nodes-IsOnce : (ns : List Node) → IsOnce ns → IsOnce (first_nodes ns)
first_nodes-IsOnce [] h = tt
first_nodes-IsOnce (n ∷ []) h = tt
first_nodes-IsOnce (n ∷ m ∷ ns) h =
    (All-first_nodes (λ k. k.1 ≢ n.1) (m ∷ ns) h.0, first_nodes-IsOnce (m ∷ ns) h.1)

length-first : (ns : List Node) (k : ℕ) → length ns ≡ suc k → length (first_nodes ns) ≡ k
length-first [] k h = absurd (omega arith)
length-first (n ∷ ns) k h = length-first_nodes n ns ∙ omega arith

replaced-IsIndex :
    (max_urls : ℕ) (n : Node) (ns : List Node)
    → 0 < max_urls
    → All (λ m. m.1 ≢ n.1) ns
    → IsIndex max_urls ns
    → IsIndex max_urls (replaced max_urls n ns)
replaced-IsIndex max_urls n [] p g h = ((tt, tt), (tt, tt), omega arith)
replaced-IsIndex max_urls n (m ∷ ns) p g (ranked, once, few) =
    let r = placed-IsRanked n (m ∷ ns) ranked in
    let o = placed-IsOnce n (m ∷ ns) g once in
    let more = length-placed n (m ∷ ns) in
    elim (Bool-cases (length (m ∷ ns) == max_urls)) [
      | inl full ↦ rw full (
        first_nodes-IsRanked (placed n (m ∷ ns)) r,
        first_nodes-IsOnce (placed n (m ∷ ns)) o,
        (let cut = length-first (placed n (m ∷ ns)) (length (m ∷ ns)) more in
            subst (λ k. k ≤ max_urls) (sym cut) few),
      )
      | inr room ↦ rw room (r, o, subst (λ k. k ≤ max_urls) (sym more) (ground arith))
    ]

updated-IsIndex :
    (max_urls : ℕ) (n : Node) (ns : List Node)
    → 0 < max_urls
    → IsIndex max_urls ns
    → IsIndex max_urls (updated max_urls n ns)
updated-IsIndex max_urls n ns p (ranked, once, few) =
    let fewer = length-without n.1 ns in
    replaced-IsIndex max_urls n (without n.1 ns) p (without-gone n.1 ns once)
      (without-IsRanked n.1 ns ranked, without-IsOnce n.1 ns once, omega arith)

abbrev pub Has : Node → List Node → Type 0
Has n [] = ⊥
Has n (m ∷ ms) = (m ≡ n) ⊎ Has n ms

placed-Has : (n : Node) (ns : List Node) → Has n (placed n ns)
placed-Has (weight, url_no) [] = inl refl
placed-Has (weight, url_no) ((w, v) ∷ ns) = elim (Bool-cases (ltb weight w)) [
  | inl heavier ↦ rw heavier (inr (placed-Has (weight, url_no) ns))
  | inr lighter ↦ rw lighter (inl refl)
]

All-Has : (P : Node → Type 0) (n : Node) (ns : List Node) → All P ns → Has n ns → P n
All-Has P n [] h has = absurd has
All-Has P n (m ∷ ms) h (inl e) = subst P e h.0
All-Has P n (m ∷ ms) h (inr has) = All-Has P n ms h.1 has

-- The node is there, or all that are there are at least as heavy.
abbrev pub IsRated : Node → List Node → Type 0
IsRated n ns = Has n ns ⊎ All (λ m. n.0 ≤ m.0) ns

first_nodes-IsRated :
    (n : Node) (ns : List Node) → IsRanked ns → Has n ns → IsRated n (first_nodes ns)
first_nodes-IsRated n [] r has = inr tt
first_nodes-IsRated n (m ∷ []) r has = inr tt
first_nodes-IsRated n (m ∷ k ∷ ns) r (inl e) = inl (inl e)
first_nodes-IsRated n (m ∷ k ∷ ns) r (inr has) = elim (first_nodes-IsRated n (k ∷ ns) r.1 has) [
  | inl there ↦ inl (inr there)
  | inr heavier ↦ inr (All-Has (λ j. j.0 ≤ m.0) n (k ∷ ns) r.0 has, heavier)
]

replaced-IsRated :
    (max_urls : ℕ) (n : Node) (ns : List Node) → IsRanked ns → IsRated n (replaced max_urls n ns)
replaced-IsRated max_urls n [] r = inl (inl refl)
replaced-IsRated max_urls n (m ∷ ns) r = elim (Bool-cases (length (m ∷ ns) == max_urls)) [
  | inl full ↦ rw full (
      first_nodes-IsRated n (placed n (m ∷ ns)) (placed-IsRanked n (m ∷ ns) r)
        (placed-Has n (m ∷ ns)))
  | inr room ↦ rw room (inl (placed-Has n (m ∷ ns)))
]

-- Where the nodes of a word are ranked by their weights, none of two nodes is of one url, and no more are
-- there than may be, `update_weight` gives a text of nodes of which all this holds again, and the url has
-- its new weight there, unless all nodes that are there are at least as heavy.
pub update_weight-IsIndex :
    (max_urls cur_weight cur_url_no : ℕ) (n : Node) (ns : List Node)
    → 0 < max_urls
    → 0 < cur_weight
    → IsIndex max_urls (n ∷ ns)
    → (ms : List Node) × (update_weight max_urls cur_weight cur_url_no (text_of (n ∷ ns))
        ≡ some (text_of ms))
      × IsIndex max_urls ms
      × IsRated (cur_weight, cur_url_no) ms
update_weight-IsIndex max_urls cur_weight cur_url_no n ns p h i = (
  updated max_urls (cur_weight, cur_url_no) (n ∷ ns),
  update_weight-updated max_urls cur_weight cur_url_no n ns h,
  updated-IsIndex max_urls (cur_weight, cur_url_no) (n ∷ ns) p i,
  replaced-IsRated max_urls (cur_weight, cur_url_no) (without cur_url_no (n ∷ ns))
      (without-IsRanked cur_url_no (n ∷ ns) i.0),
)
