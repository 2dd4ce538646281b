-- ===== src/Pool/Defs.antt =====
-- `SqlDBPool`, run by one thread. The locks are in `Pool/Locks.antt`.
use amigao.Base.{
  ℕ, zero, suc, ◌+◌, ◌-◌, Bool, true, false, not, List, [], ◌∷◌, Option, none, some, ltb, leb, ◌==◌,
  if◌then◌else◌,
}
use amigao.Pool.Nodes.{DbPoolNode, DbPoolList}
use amigao.Pool.Nodes

-- The three limits of `DBInfo` that the pool obeys.
pub record Limits : Type 0 where
  pub max_conn : ℕ
  pub max_idle : ℕ
  pub min_idle : ℕ

-- `live` holds the MYSQL objects whose sessions are open: connected and not yet closed. `heap` is
-- the next address that `new` returns.
pub record SqlDbPool : Type 0 where
  pub limits : Limits
  pub open limits use *
  pub unused_pool : DbPoolList
  pub used_pool : DbPoolList
  pub live : List ℕ
  pub heap : ℕ

-- The pool before the first connection is made.
unfoldable pub initial : Limits → SqlDbPool
unfolding Nodes.empty
initial limits = record {
  limits = limits;
  unused_pool = Nodes.empty;
  used_pool = Nodes.empty;
  live = [];
  heap = 1;
}

-- One round of the loop of `add_connection`: `new MYSQL`, the connection, the new node.
unfoldable pub adopt : SqlDbPool → SqlDbPool
adopt p = record p {
  unused_pool = Nodes.add_node p.unused_pool (p.heap + 1) p.heap;
  live = p.heap ∷ p.live;
  heap = p.heap + 2;
}

-- `mysql_close(mysql)`: the session of that object ends.
unfoldable pub close : ℕ → List ℕ → List ℕ
close c [] = []
close c (x ∷ xs) = if x == c then xs else x ∷ close c xs

-- How a call of `get_connection` ends within the given number of rounds.
pub data Outcome : Type 0 where
  got : ℕ → SqlDbPool → Outcome
  exited : Outcome
  running : Outcome

-- Whether `maria_real_connect` succeeds on a MYSQL object is the server's: it is a parameter.
module _ (connects : ℕ → Bool) where
  -- `for (i = 0; i < add_numbers; ++i)`; `none` is `exit(1)`.
  unfoldable pub adopt_all : ℕ → SqlDbPool → Option SqlDbPool
  adopt_all zero p = some p
  adopt_all (suc n) p = elim (connects p.heap) [ true ↦ adopt_all n (adopt p) | false ↦ none ]

  -- `add_connection`; where the list is over `max_idle` the int is negative and the loop runs not
  -- once, as with the 0 of a subtraction on ℕ.
  unfoldable pub add_connection : ℕ → SqlDbPool → Option SqlDbPool
  add_connection n p =
      adopt_all
        (if ltb p.max_idle (p.unused_pool.node_numbers + n)
          then p.max_idle - p.unused_pool.node_numbers
          else n)
        p

  -- The constructor: two empty lists, `min_idle` connections.
  unfoldable pub constructed : Limits → Option SqlDbPool
  constructed limits = add_connection limits.min_idle (initial limits)

  -- One `goto again` takes one round; `sleep` changes nothing of the pool.
  unfoldable pub get_connection : ℕ → SqlDbPool → Outcome
  get_connection zero p = running
  get_connection (suc rounds) p =
      let again = get_connection rounds p in
      let c = Nodes.get_connection p.unused_pool in
      let popped = Nodes.pop_connection2 p.unused_pool p.used_pool c in
      let grow : Outcome = elim (add_connection (p.min_idle - p.unused_pool.node_numbers + 1) p) [
        | none ↦ exited
        | some q ↦ get_connection rounds q
      ] in
      if p.used_pool.node_numbers == p.max_conn
      then again
      else if leb p.unused_pool.node_numbers p.min_idle
      then grow
      else got c (record p { unused_pool = popped.0; used_pool = popped.1 })

unfoldable pub recycle_connection : ℕ → SqlDbPool → SqlDbPool
recycle_connection c p =
    let popped = Nodes.pop_connection2 p.used_pool p.unused_pool c in
    if not (Nodes.if_exist p.used_pool c)
    then p
    else if p.unused_pool.node_numbers == p.max_idle
    then record p { used_pool = Nodes.delete_node p.used_pool c }
    else record p { used_pool = popped.0; unused_pool = popped.1 }

unfoldable pub delete_heads : ℕ → DbPoolList → DbPoolList
delete_heads zero l = l
delete_heads (suc n) l = delete_heads n (Nodes.delete_head l)

unfoldable pub delete_connection : ℕ → SqlDbPool → SqlDbPool
delete_connection n p = record p {
  unused_pool =
      delete_heads
        (if ltb p.unused_pool.node_numbers (p.min_idle + n)
          then p.unused_pool.node_numbers - p.min_idle
          else n)
        p.unused_pool;
}

-- `while (pool->get_node_numbers() > 0)` of the destructor, on the rounds left: what is left of the
-- list, and the sessions still open.
unfoldable pub close_all : ℕ → DbPoolList → List ℕ → DbPoolList × List ℕ
close_all zero l live = (l, live)
close_all (suc n) l live =
    let rest = close_all n (Nodes.delete_head l) (close (Nodes.get_connection l) live) in
    if ltb 0 l.node_numbers then rest else (l, live)

unfoldable pub destroy : SqlDbPool → SqlDbPool
destroy p =
    let (used, live) = close_all p.used_pool.node_numbers p.used_pool p.live in
    let (unused, live') = close_all p.unused_pool.node_numbers p.unused_pool live in
    record p { unused_pool = unused; used_pool = used; live = live' }
