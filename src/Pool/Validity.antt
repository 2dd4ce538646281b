-- ===== src/Pool/Validity.antt =====
-- What holds of a pool between two calls.
use amigao.Base.{ℕ, ◌+◌, ◌≤◌, ◌<◌, List, ◌∷◌, ◌≡◌, ap, arith, All, All-map}
use amigao.Pool.Defs.{Limits, SqlDbPool, initial, adopt}
use amigao.Pool.Nodes.{DbPoolNode, empty}
use amigao.Pool.Nodes.Distinct.{Apart, IsFresh, IsList, empty-IsList}
use amigao.Pool.Nodes.Laws.{pushed, add_node-pushed, pushed-IsList}

-- Both of the node's blocks of memory were allocated.
abbrev pub IsBelow : ℕ → DbPoolNode → Type 0
IsBelow heap n = (n.address < heap) × (n.connection < heap)

pub record IsValid (p : SqlDbPool) : Type 0 where
  pub unused : IsList p.unused_pool
  pub used : IsList p.used_pool
  pub apart : All (λ n. IsFresh n p.used_pool.next) p.unused_pool.next
  pub unused_below : All (IsBelow p.heap) p.unused_pool.next
  pub used_below : All (IsBelow p.heap) p.used_pool.next
  pub heap_pos : 0 < p.heap
  pub unused_le : p.unused_pool.node_numbers ≤ p.max_idle
  pub used_le : p.used_pool.node_numbers ≤ p.max_conn

pub initial-IsValid : (limits : Limits) → IsValid (initial limits)
unfolding initial empty
initial-IsValid limits = record {
  unused = empty-IsList;
  used = empty-IsList;
  apart = tt;
  unused_below = tt;
  used_below = tt;
  heap_pos = omega arith;
  unused_le = omega arith;
  used_le = omega arith;
}

-- The node that a round of `add_connection` makes.
abbrev pub new_node : ℕ → DbPoolNode
new_node heap = record { address = heap + 1; connection = heap }

new_node-IsFresh :
    (heap : ℕ) (ns : List DbPoolNode) → All (IsBelow heap) ns → IsFresh (new_node heap) ns
new_node-IsFresh heap ns =
    All-map (IsBelow heap) (Apart (new_node heap)) ns (λ n b. (omega arith, omega arith))

IsBelow-later :
    (heap : ℕ) (ns : List DbPoolNode) → All (IsBelow heap) ns → All (IsBelow (heap + 2)) ns
IsBelow-later heap ns =
    All-map (IsBelow heap) (IsBelow (heap + 2)) ns (λ n b. (omega arith, omega arith))

-- The pool after a round of `add_connection`.
abbrev pub adopted : SqlDbPool → SqlDbPool
adopted p = record p {
  unused_pool = pushed (new_node p.heap) p.unused_pool;
  live = p.heap ∷ p.live;
  heap = p.heap + 2;
}

pub adopt-adopted : (p : SqlDbPool) → IsValid p → adopt p ≡ adopted p
unfolding adopt
adopt-adopted p v =
    ap (λ l. record p { unused_pool = l; live = p.heap ∷ p.live; heap = p.heap + 2 })
      (add_node-pushed p.unused_pool (p.heap + 1) p.heap v.unused (omega arith)
        (new_node-IsFresh p.heap p.unused_pool.next v.unused_below))

-- A round keeps the pool valid while there is room for an idle connection.
pub adopted-IsValid :
    (p : SqlDbPool) → IsValid p → p.unused_pool.node_numbers < p.max_idle → IsValid (adopted p)
adopted-IsValid p v room = record {
  unused =
      pushed-IsList (new_node p.heap) p.unused_pool v.unused (omega arith)
        (new_node-IsFresh p.heap p.unused_pool.next v.unused_below);
  used = v.used;
  apart = (new_node-IsFresh p.heap p.used_pool.next v.used_below, v.apart);
  unused_below =
      ((omega arith, omega arith), IsBelow-later p.heap p.unused_pool.next v.unused_below);
  used_below = IsBelow-later p.heap p.used_pool.next v.used_below;
  heap_pos = omega arith;
  unused_le = omega arith;
  used_le = v.used_le;
}
