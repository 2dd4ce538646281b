-- ===== src/Pool/Nodes/Freed.antt =====
-- The destructor of `DBPoolList`.
use amigao.Base.{
  ℕ, suc, true, false, List, [], ◌∷◌, some, ◌≡◌, ◌≢◌, refl, ap, arith, ◌==◌, length, All,
}
use amigao.Pool.Nodes.Distinct.{IsDistinct, IsFresh, IsList}
use amigao.Pool.Nodes.{DbPoolNode, DbPoolList, delete_from, delete_all}

abbrev addresses : List DbPoolNode → List ℕ
addresses [] = []
addresses (n ∷ ns) = n.address ∷ addresses ns

-- No two are the same.
abbrev AreApart : List ℕ → Type 0
AreApart [] = Unit {0}
AreApart (a ∷ more) = All (λ b. a ≢ b) more × AreApart more

delete_from-addresses :
    (p : DbPoolNode) (ps : List DbPoolNode) → delete_from p ps ≡ addresses (p ∷ ps)
unfolding delete_from
delete_from-addresses p [] = refl
delete_from-addresses p (q ∷ qs) = ap (◌∷◌ p.address) (delete_from-addresses q qs)

addresses-fresh :
    (n : DbPoolNode) (ns : List DbPoolNode) → IsFresh n ns → All (λ b. n.address ≢ b) (addresses ns)
addresses-fresh n [] h = tt
addresses-fresh n (m ∷ ns) h = (h.0.0, addresses-fresh n ns h.1)

addresses-AreApart : (ns : List DbPoolNode) → IsDistinct ns → AreApart (addresses ns)
addresses-AreApart [] h = tt
addresses-AreApart (n ∷ ns) h = (addresses-fresh n ns h.0, addresses-AreApart ns h.1)

-- The destructor of a well-formed list deletes every node of its chain, and none twice.
delete_all-addresses :
    (l : DbPoolList)
    → IsList l
    → (delete_all l ≡ some (addresses l.next)) × AreApart (addresses l.next)
unfolding delete_all
delete_all-addresses l v = (by_chain l.next refl, addresses-AreApart l.next v.distinct)
  where
    by_chain : (ns : List DbPoolNode) → l.next ≡ ns → delete_all l ≡ some (addresses ns)
    by_chain [] e =
        let short : length l.next ≡ 0 = rw e in
        let nothing : (l.node_numbers == 0) ≡ true = let c = v.counted in ground arith in
        rw (nothing, delete_all)
    by_chain (p ∷ ps) e =
        let long : length l.next ≡ suc (length ps) = rw e in
        let something : (l.node_numbers == 0) ≡ false = let c = v.counted in ground arith in
        rw (something, delete_all) (rw e (rw (delete_from-addresses p ps)))
