-- ===== src/Weights/Places.antt =====
-- Where the node of a url stands among the nodes of a word.
use mathlib.Core.List.{append_assoc}
use amigao.Base.{
  ℕ, false, List, [], ◌∷◌, ◌++◌, none, some, ◌⊎◌, ◌≡◌, refl, arith, inl, inr, ◌==◌, if◌then◌else◌,
  sym, ap, Bool-cases,
}
use amigao.Decimal.{print_number}
use amigao.Weights.Nodes.{Node, node_text, nodes_text}
use amigao.Weights.Found.{found}

-- The nodes without the first one of the url.
abbrev pub without : ℕ → List Node → List Node
without url_no [] = []
without url_no ((weight, v) ∷ ns) = if v == url_no then ns else (weight, v) ∷ without url_no ns

-- The node of the url is not the last one.
abbrev pub IsInner : ℕ → List Node → Type 0
IsInner url_no ns =
    (front : List Node) × (weight : ℕ) × (next : Node) × (rest : List Node) × (ns
      ≡ front ++ (weight, url_no) ∷ next ∷ rest)
    × (found url_no ns
        ≡ some (
          nodes_text front ++ b'|' ∷ print_number weight,
          b'_' ∷ print_number url_no ++ nodes_text (next ∷ rest),
        ))
    × (without url_no ns ≡ front ++ next ∷ rest)

-- It is the last one, or there is none.
abbrev pub IsOuter : ℕ → List Node → Type 0
IsOuter url_no ns =
    (front : List Node) × (weight : ℕ) × (v : ℕ) × (ns ≡ front ++ (weight, v) ∷ [])
    × (found url_no ns ≡ none)
    × (without url_no ns ≡ (if v == url_no then front else ns))

extend-IsInner :
    (url_no weight v : ℕ) (ns : List Node)
    → (v == url_no) ≡ false
    → IsInner url_no ns
    → IsInner url_no ((weight, v) ∷ ns)
extend-IsInner url_no weight v ns other (front, w, next, rest, e, f, d) = (
  (weight, v) ∷ front,
  w,
  next,
  rest,
  rw e,
  rw (other, f)
      (ap (λ a. some (a, b'_' ∷ print_number url_no ++ nodes_text (next ∷ rest)))
        (sym (append_assoc (node_text (weight, v)) (nodes_text front) (b'|' ∷ print_number w)))),
  rw (other, d),
)

extend-IsOuter :
    (url_no weight v : ℕ) (ns : List Node)
    → (v == url_no) ≡ false
    → IsOuter url_no ns
    → IsOuter url_no ((weight, v) ∷ ns)
extend-IsOuter url_no weight v ns other (front, w, u, e, f, d) = (
  (weight, v) ∷ front,
  w,
  u,
  rw e,
  rw (other, f),
  elim (Bool-cases (u == url_no)) [ inl s ↦ rw (other, d, s) | inr s ↦ rw (other, d, s) ],
)

pub where_is :
    (url_no : ℕ) (n : Node) (ns : List Node) → IsInner url_no (n ∷ ns) ⊎ IsOuter url_no (n ∷ ns)
where_is url_no (weight, v) [] =
    inr ([], weight, v, refl, elim (Bool-cases (v == url_no)) [ inl s ↦ rw s | inr s ↦ rw s ], refl)
where_is url_no (weight, v) (m ∷ ns) = elim (Bool-cases (v == url_no)) [
  | inl here ↦
      let equal : v ≡ url_no = ground arith in
      inl ([], weight, m, ns, rw equal, rw (here, equal), rw here)
  | inr other ↦ elim (where_is url_no m ns) [
    | inl inner ↦ inl (extend-IsInner url_no weight v (m ∷ ns) other inner)
    | inr outer ↦ inr (extend-IsOuter url_no weight v (m ∷ ns) other outer)
  ]
]
