-- ===== src/Pool/Recycle.antt =====
-- What `recycle_connection` does to a valid pool.
use amigao.Base.{
  ℕ, zero, suc, true, false, ◌∷◌, some, ◌≡◌, ◌≢◌, refl, inl, inr, arith, ◌==◌, Bool-cases,
  Option-cases,
}
use amigao.Pool.Defs.{SqlDbPool, recycle_connection}
use amigao.Pool.Nodes
use amigao.Pool.Nodes.{DbPoolNode, DbPoolList, find_node, unlink}
use amigao.Pool.Nodes.Distinct.{IsFresh, find_node-All, unlink-All, IsList}
use amigao.Pool.Nodes.Laws.{without, if_exist-none, delete_node-found, without-IsList}
use amigao.Pool.Nodes.Move.{moved_lists, moved_if_exist, IsDisjoint-symm}
use amigao.Pool.Validity.{IsValid, IsBelow}

-- A leased connection has its node.
pub leased_node :
    (l : DbPoolList) (c : ℕ)
    → IsList l
    → c ≢ 0
    → Nodes.if_exist l c ≡ true
    → (n : DbPoolNode) × (find_node c l.next ≡ some n)
leased_node l c v h e = elim (Option-cases (find_node c l.next)) [
  | inl missing ↦ cc (if_exist-none l c v h missing)
  | inr here ↦ here
]

module _ (p : SqlDbPool) (c : ℕ) (v : IsValid p) (not_null : c ≢ 0)
    (leased : Nodes.if_exist p.used_pool c ≡ true) where
  -- While `unused_pool` has room, a leased connection that is recycled becomes idle and is leased no
  -- more; the pool stays valid, and no session is opened or closed.
  pub recycle_connection_idle :
      p.unused_pool.node_numbers ≢ p.max_idle
      → let q = recycle_connection c p in
        IsValid q
        × (Nodes.if_exist q.used_pool c ≡ false)
        × (Nodes.if_exist q.unused_pool c ≡ true)
        × (q.unused_pool.node_numbers ≡ suc p.unused_pool.node_numbers)
        × (q.live ≡ p.live)
  unfolding recycle_connection
  recycle_connection_idle room =
      let (n, here) = leased_node p.used_pool c v.used not_null leased in
      let apart = IsDisjoint-symm p.unused_pool.next p.used_pool.next v.apart in
      let (moved, used, unused, apart') =
        moved_lists p.used_pool p.unused_pool c n v.used v.unused apart here in
      let (_, now, gone) =
        moved_if_exist p.used_pool p.unused_pool c n v.used v.unused apart here in
      let not_full : (p.unused_pool.node_numbers == p.max_idle) ≡ false = ground arith in
      rw leased (
        rw not_full (
          rw moved (
            record {
              unused = unused;
              used = used;
              apart = IsDisjoint-symm (unlink c p.used_pool.next) (n ∷ p.unused_pool.next) apart';
              unused_below = (
                find_node-All c (IsBelow p.heap) p.used_pool.next here v.used_below,
                v.unused_below,
              );
              used_below = unlink-All c (IsBelow p.heap) p.used_pool.next v.used_below;
              heap_pos = v.heap_pos;
              unused_le = omega (arith, v.unused_le);
              used_le = omega (arith, v.used_le);
            },
            gone,
            now,
            omega arith,
            refl,
          )))

  -- When `unused_pool` is full, a leased connection that is recycled is dropped from the pool: it is
  -- neither leased nor idle, and yet no session is closed, so its session stays open and unknown.
  pub recycle_connection_drops :
      p.unused_pool.node_numbers ≡ p.max_idle
      → let q = recycle_connection c p in
        IsValid q
        × (Nodes.if_exist q.used_pool c ≡ false)
        × (Nodes.if_exist q.unused_pool c ≡ false)
        × (q.live ≡ p.live)
  unfolding recycle_connection
  recycle_connection_drops full =
      let (n, here) = leased_node p.used_pool c v.used not_null leased in
      let apart = IsDisjoint-symm p.unused_pool.next p.used_pool.next v.apart in
      let (before, _, gone) =
        moved_if_exist p.used_pool p.unused_pool c n v.used v.unused apart here in
      let is_full : (p.unused_pool.node_numbers == p.max_idle) ≡ true = ground arith in
      rw leased (
        rw is_full (
          rw (delete_node-found p.used_pool c v.used not_null here) (
            record {
              unused = v.unused;
              used = without-IsList c p.used_pool v.used here;
              apart =
                  IsDisjoint-symm (unlink c p.used_pool.next) p.unused_pool.next
                    (unlink-All c (λ m. IsFresh m p.unused_pool.next) p.used_pool.next apart);
              unused_below = v.unused_below;
              used_below = unlink-All c (IsBelow p.heap) p.used_pool.next v.used_below;
              heap_pos = v.heap_pos;
              unused_le = v.unused_le;
              used_le = omega (arith, v.used_le);
            },
            gone,
            before,
            refl,
          )))

  -- Either way, `used_pool` loses the node of the connection, and nothing else.
  pub recycle_connection-without :
      ((recycle_connection c p).used_pool ≡ without c p.used_pool)
      × ((recycle_connection c p).limits ≡ p.limits)
  unfolding recycle_connection
  recycle_connection-without =
      let (n, here) = leased_node p.used_pool c v.used not_null leased in
      elim (Bool-cases (p.unused_pool.node_numbers == p.max_idle)) [
        | inl full ↦
            rw leased (rw full (delete_node-found p.used_pool c v.used not_null here, refl))
        | inr room ↦
            let apart = IsDisjoint-symm p.unused_pool.next p.used_pool.next v.apart in
            let (moved, _, _, _) =
              moved_lists p.used_pool p.unused_pool c n v.used v.unused apart here in
            rw leased (rw room (rw moved (refl, refl)))
      ]

-- A connection that is not in use leaves the pool as it is.
pub recycle_connection_unknown :
    (p : SqlDbPool) (c : ℕ) → Nodes.if_exist p.used_pool c ≡ false → recycle_connection c p ≡ p
unfolding recycle_connection
recycle_connection_unknown p c e = rw e

recycle_connection-null : (p : SqlDbPool) → recycle_connection 0 p ≡ p
unfolding recycle_connection Nodes.delete_node Nodes.pop_connection2 Nodes.move_node
recycle_connection-null p = elim (Bool-cases (Nodes.if_exist p.used_pool 0)) [
  | inr missing ↦ rw missing
  | inl here ↦ rw here (elim (Bool-cases (p.unused_pool.node_numbers == p.max_idle)) [
    | inl full ↦ rw full
    | inr room ↦ rw room
  ])
]

-- `recycle_connection` keeps a valid pool valid, whatever pointer it is given.
pub recycle_connection-IsValid :
    (p : SqlDbPool) (c : ℕ) → IsValid p → IsValid (recycle_connection c p)
recycle_connection-IsValid p zero v = rw (recycle_connection-null p) v
recycle_connection-IsValid p (suc c) v = elim (Bool-cases (Nodes.if_exist p.used_pool (suc c))) [
  | inr missing ↦ rw (recycle_connection_unknown p (suc c) missing) v
  | inl here ↦ elim (Bool-cases (p.unused_pool.node_numbers == p.max_idle)) [
    | inl full ↦ (recycle_connection_drops p (suc c) v (omega arith) here (ground arith)).0
    | inr room ↦ (recycle_connection_idle p (suc c) v (omega arith) here (ground arith)).0
  ]
]
