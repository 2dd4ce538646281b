-- ===== src/Pool/Nodes/Distinct.antt =====
-- Well-formed lists of nodes: counted, with no null connection, and with every node apart from the
-- others in its address and in its connection.
use mathlib.Core.Option.{some-injective}
use amigao.Base.{
  ℕ, suc, false, List, [], ◌∷◌, none, some, ◌≡◌, ◌≢◌, refl, sym, ap, inl, inr, arith, ◌==◌,
  Bool-cases, length, All,
}
use amigao.Pool.Nodes.{DbPoolNode, DbPoolList, empty, find_node, has_address, unlink}

abbrev pub Apart : DbPoolNode → DbPoolNode → Type 0
Apart m n = (m.address ≢ n.address) × (m.connection ≢ n.connection)

-- The node is apart from every node of the chain.
abbrev pub IsFresh : DbPoolNode → List DbPoolNode → Type 0
IsFresh n = All (Apart n)

abbrev pub IsDistinct : List DbPoolNode → Type 0
IsDistinct [] = Unit {0}
IsDistinct (n ∷ ns) = IsFresh n ns × IsDistinct ns

abbrev pub IsNonNull : DbPoolNode → Type 0
IsNonNull n = n.connection ≢ 0

pub record IsList (l : DbPoolList) : Type 0 where
  pub counted : l.node_numbers ≡ length l.next
  pub non_null : All IsNonNull l.next
  pub distinct : IsDistinct l.next

pub empty-IsList : IsList empty
unfolding empty
empty-IsList = record { counted = refl; non_null = tt; distinct = tt }

pub Apart-symm : (m n : DbPoolNode) → Apart m n → Apart n m
Apart-symm m n h = (λ e. h.0 (sym e), λ e. h.1 (sym e))

pub IsFresh-find_node :
    (n : DbPoolNode) (ns : List DbPoolNode) → IsFresh n ns → find_node n.connection ns ≡ none
unfolding find_node
IsFresh-find_node n [] h = refl
IsFresh-find_node n (p ∷ ps) h =
    let other : (p.connection == n.connection) ≡ false = ground arith in
    rw other (IsFresh-find_node n ps h.1)

pub IsFresh-has_address :
    (n : DbPoolNode) (ns : List DbPoolNode) → IsFresh n ns → has_address n.address ns ≡ false
unfolding has_address
IsFresh-has_address n [] h = refl
IsFresh-has_address n (p ∷ ps) h =
    let other : (p.address == n.address) ≡ false = ground arith in
    rw other (IsFresh-has_address n ps h.1)

-- What a search that finds a node says of the node, and of the chain without it.
module _ (c : ℕ) where
  pub find_node-connection :
      (ns : List DbPoolNode) {n : DbPoolNode} → find_node c ns ≡ some n → n.connection ≡ c
  unfolding find_node
  find_node-connection [] e = cc
  find_node-connection (p ∷ ps) {n} e = elim (Bool-cases (p.connection == c)) [
    | inl hit ↦ let same : p ≡ n = some-injective _ _ (rw hit at e) in ground arith
    | inr miss ↦ find_node-connection ps (rw miss at e)
  ]

  pub find_node-All {κ} :
      (P : DbPoolNode → Type κ) (ns : List DbPoolNode) {n : DbPoolNode}
      → find_node c ns ≡ some n
      → All P ns
      → P n
  unfolding find_node
  find_node-All P [] e h = cc
  find_node-All P (p ∷ ps) {n} e h = elim (Bool-cases (p.connection == c)) [
    | inl hit ↦ let same : p ≡ n = some-injective _ _ (rw hit at e) in rw same at h.0
    | inr miss ↦ find_node-All P ps (rw miss at e) h.1
  ]

  pub unlink-All {κ} :
      (P : DbPoolNode → Type κ) (ns : List DbPoolNode) → All P ns → All P (unlink c ns)
  unfolding unlink
  unlink-All P [] h = tt
  unlink-All P (p ∷ ps) h = elim (Bool-cases (p.connection == c)) [
    | inl hit ↦ rw hit h.1
    | inr miss ↦ rw miss (h.0, unlink-All P ps h.1)
  ]

  pub unlink-IsDistinct : (ns : List DbPoolNode) → IsDistinct ns → IsDistinct (unlink c ns)
  unfolding unlink
  unlink-IsDistinct [] h = tt
  unlink-IsDistinct (p ∷ ps) h = elim (Bool-cases (p.connection == c)) [
    | inl hit ↦ rw hit h.1
    | inr miss ↦ rw miss (unlink-All (Apart p) ps h.0, unlink-IsDistinct ps h.1)
  ]

  pub find_node-IsFresh :
      (ns : List DbPoolNode) {n : DbPoolNode}
      → find_node c ns ≡ some n
      → IsDistinct ns
      → IsFresh n (unlink c ns)
  unfolding find_node unlink
  find_node-IsFresh [] e h = cc
  find_node-IsFresh (p ∷ ps) {n} e h = elim (Bool-cases (p.connection == c)) [
    | inl hit ↦ let same : p ≡ n = some-injective _ _ (rw hit at e) in rw hit (rw (← same) h.0)
    | inr miss ↦
        let found = rw miss at e in
        rw miss
          (Apart-symm p n (find_node-All (Apart p) ps found h.0), find_node-IsFresh ps found h.1)
  ]

  pub length-unlink :
      (ns : List DbPoolNode) {n : DbPoolNode}
      → find_node c ns ≡ some n
      → suc (length (unlink c ns)) ≡ length ns
  unfolding find_node unlink
  length-unlink [] e = cc
  length-unlink (p ∷ ps) e = elim (Bool-cases (p.connection == c)) [
    | inl hit ↦ rw hit
    | inr miss ↦ rw miss (ap suc (length-unlink ps (rw miss at e)))
  ]
