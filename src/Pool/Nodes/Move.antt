-- ===== src/Pool/Nodes/Move.antt =====
-- Two lists that share no node stay so when a node moves from one to the other.
use amigao.Base.{
  ℕ, true, false, ◌∙◌, ==_iff, List, [], ◌∷◌, some, ◌≡◌, ◌≢◌, All, All-map, All-zip, All-trivial,
}
use amigao.Pool.Nodes.{DbPoolNode, DbPoolList, if_exist, find_node, unlink, pop_connection2}
use amigao.Pool.Nodes.Distinct.{
  Apart, IsFresh, IsNonNull, IsList, Apart-symm, find_node-All, find_node-IsFresh, unlink-All,
  find_node-connection, IsFresh-find_node,
}
use amigao.Pool.Nodes.Laws.{
  pushed, without, pushed-IsList, without-IsList, move_node-found, if_exist-none, if_exist-some,
}

-- No node of one chain meets a node of the other.
abbrev pub IsDisjoint : List DbPoolNode → List DbPoolNode → Type 0
IsDisjoint xs ys = All (λ n. IsFresh n ys) xs

pub IsDisjoint-symm : (xs ys : List DbPoolNode) → IsDisjoint xs ys → IsDisjoint ys xs
IsDisjoint-symm [] ys h = All-trivial ys
IsDisjoint-symm (x ∷ xs) ys h =
    All-zip (λ m. Apart m x) (λ m. IsFresh m xs) ys
      (All-map (Apart x) (λ m. Apart m x) ys (Apart-symm x) h.0) (IsDisjoint-symm xs ys h.1)

module _ (l dest : DbPoolList) (c : ℕ) (n : DbPoolNode) (v : IsList l) (w : IsList dest)
    (disjoint : IsDisjoint l.next dest.next) (found : find_node c l.next ≡ some n) where
  moved-IsFresh : IsFresh n dest.next
  moved-IsFresh = find_node-All c (λ m. IsFresh m dest.next) l.next found disjoint

  moved-IsNonNull : IsNonNull n
  moved-IsNonNull = find_node-All c IsNonNull l.next found v.non_null

  named : n.connection ≡ c
  named = find_node-connection c l.next found

  pub moved_not_null : c ≢ 0
  moved_not_null e = moved-IsNonNull (named ∙ e)

  -- The node goes to the front of the other list, and both lists stay well-formed and disjoint.
  pub moved_lists :
      (pop_connection2 l dest c ≡ (without c l, pushed n dest))
      × IsList (without c l)
      × IsList (pushed n dest)
      × IsDisjoint (unlink c l.next) (n ∷ dest.next)
  unfolding pop_connection2
  moved_lists = (
    move_node-found l dest c n v w moved_not_null found moved-IsFresh,
    without-IsList c l v found,
    pushed-IsList n dest w moved-IsNonNull moved-IsFresh,
    All-zip (λ m. Apart m n) (λ m. IsFresh m dest.next) (unlink c l.next)
        (All-map (Apart n) (λ m. Apart m n) (unlink c l.next) (Apart-symm n)
          (find_node-IsFresh c l.next found v.distinct))
        (unlink-All c (λ m. IsFresh m dest.next) l.next disjoint),
  )

  -- The connection was in the first list alone, and is in the other alone.
  pub moved_if_exist :
      (if_exist dest c ≡ false)
      × (if_exist (pushed n dest) c ≡ true)
      × (if_exist (without c l) c ≡ false)
  moved_if_exist =
      let (_, v', w', _) = moved_lists in
      let gone =
        IsFresh-find_node n (unlink c l.next) (find_node-IsFresh c l.next found v.distinct) in
      (
        if_exist-none dest c w moved_not_null
            (rw named at (IsFresh-find_node n dest.next moved-IsFresh)),
        if_exist-some (pushed n dest) c {n = n} w' moved_not_null
            (unfold find_node in rw ((==_iff n.connection c).1 named)),
        if_exist-none (without c l) c v' moved_not_null (rw named at gone),
      )
