-- ===== src/Clients/Counts.antt =====
-- How often a connection stands in the chain of a pool's list, and how often threads hold it.
use amigao.Base.{
  ℕ, ◌+◌, ◌≤◌, ◌<◌, List, [], ◌∷◌, ◌++◌, Bool, false, some, ◌≡◌, refl, inl, inr, arith, ◌==◌,
  if◌then◌else◌, Bool-cases, length,
}
use amigao.Clients.{Client}
use amigao.Pool.Nodes.{DbPoolNode, find_node, unlink}
use amigao.Pool.Nodes.Distinct.{IsFresh, IsDistinct}

abbrev pub one_if : Bool → ℕ
one_if b = if b then 1 else 0

abbrev pub count : ℕ → List ℕ → ℕ
count c [] = 0
count c (x ∷ xs) = one_if (x == c) + count c xs

abbrev pub in_chain : ℕ → List DbPoolNode → ℕ
in_chain c [] = 0
in_chain c (n ∷ ns) = one_if (n.connection == c) + in_chain c ns

module _ {A : Type 0} where
  -- By all threads together.
  abbrev pub times_held : ℕ → List (Client A) → ℕ
  times_held c [] = 0
  times_held c (t ∷ ts) = count c t.held + times_held c ts

  abbrev pub all_held : List (Client A) → ℕ
  all_held [] = 0
  all_held (t ∷ ts) = length t.held + all_held ts

pub in_chain-unlink :
    (c d : ℕ) (ns : List DbPoolNode) {n : DbPoolNode}
    → find_node d ns ≡ some n
    → in_chain c ns ≡ one_if (d == c) + in_chain c (unlink d ns)
unfolding find_node unlink
in_chain-unlink c d [] e = cc
in_chain-unlink c d (p ∷ ps) e = elim (Bool-cases (p.connection == d)) [
  | inl hit ↦ let same : p.connection ≡ d = ground arith in rw (hit, unlink) (rw same)
  | inr miss ↦
      let rest = in_chain-unlink c d ps (rw (miss, find_node) at e) in
      rw (miss, unlink) (omega (arith, rest))
]

pub in_chain-find_node :
    (c : ℕ) (ns : List DbPoolNode)
    → 0 < in_chain c ns
    → (n : DbPoolNode) × (find_node c ns ≡ some n)
unfolding find_node
in_chain-find_node c [] h = absurd (omega arith)
in_chain-find_node c (p ∷ ps) h = elim (Bool-cases (p.connection == c)) [
  | inl hit ↦ (p, rw (hit, find_node))
  | inr miss ↦
      let later : 0 < in_chain c ps = omega (arith, rw miss at h) in
      rw (miss, find_node) (in_chain-find_node c ps later)
]

in_chain-IsFresh :
    (n : DbPoolNode) (ns : List DbPoolNode) → IsFresh n ns → in_chain n.connection ns ≡ 0
in_chain-IsFresh n [] h = refl
in_chain-IsFresh n (p ∷ ps) h =
    let other : (p.connection == n.connection) ≡ false = ground arith in
    rw other (omega (arith, in_chain-IsFresh n ps h.1))

-- In a well-formed chain no connection stands twice.
pub in_chain-IsDistinct : (c : ℕ) (ns : List DbPoolNode) → IsDistinct ns → in_chain c ns ≤ 1
in_chain-IsDistinct c [] h = omega arith
in_chain-IsDistinct c (p ∷ ps) h = elim (Bool-cases (p.connection == c)) [
  | inl hit ↦
      let same : p.connection ≡ c = ground arith in
      let none_left = rw same at (in_chain-IsFresh p ps h.0) in rw hit (omega (arith, none_left))
  | inr miss ↦ rw miss (omega (arith, in_chain-IsDistinct c ps h.1))
]

pub count-append : (c : ℕ) (xs ys : List ℕ) → count c (xs ++ ys) ≡ count c xs + count c ys
count-append c [] ys = omega arith
count-append c (x ∷ xs) ys = omega (arith, count-append c xs ys)

pub in_chain_nil : (c : ℕ) (ns : List DbPoolNode) → length ns ≡ 0 → in_chain c ns ≡ 0
in_chain_nil c [] h = refl
in_chain_nil c (n ∷ ns) h = absurd (omega arith)
