-- ===== src/Pool/Acquire.antt =====
-- What `get_connection` does to a valid pool.
use mathlib.Core.Option.{some-injective}
use amigao.Base.{
  ℕ, zero, suc, ◌+◌, ◌-◌, ◌≤◌, ◌<◌, Bool, true, false, List, [], ◌∷◌, some, ◌≡◌, ◌≢◌, refl, ap, ◌∙◌,
  inl, inr, arith, ltb, if◌then◌else◌, Bool-cases, ==_iff, length,
}
use amigao.Pool.Defs.{
  SqlDbPool, adopt_all, add_connection, Outcome, got, exited, running, get_connection,
}
use amigao.Pool.Nodes
use amigao.Pool.Nodes.{DbPoolNode, DbPoolList, find_node, unlink}
use amigao.Pool.Nodes.Distinct.{find_node-All, unlink-All}
use amigao.Pool.Nodes.Move.{moved_lists, moved_if_exist, moved_not_null}
use amigao.Pool.Rounds.{popped, wanted, Round, Round-cases}
use amigao.Pool.Validity.{IsValid, IsBelow, adopt-adopted, adopted, adopted-IsValid}

-- `q` is `p` with `n` more idle connections.
pub record IsGrown (p q : SqlDbPool) (n : ℕ) : Type 0 where
  pub valid : IsValid q
  pub more : q.unused_pool.node_numbers ≡ p.unused_pool.node_numbers + n
  pub same_used : q.used_pool ≡ p.used_pool
  pub same_limits : q.limits ≡ p.limits

module _ (connects : ℕ → Bool) where
  pub adopt_all-IsGrown :
      (n : ℕ) (p : SqlDbPool) {q : SqlDbPool}
      → IsValid p
      → p.unused_pool.node_numbers + n ≤ p.max_idle
      → adopt_all connects n p ≡ some q
      → IsGrown p q n
  unfolding adopt_all
  adopt_all-IsGrown zero p {q} v room e =
      let same : p ≡ q = some-injective _ _ e in
      rw (← same) (record { valid = v; more = omega arith; same_used = refl; same_limits = refl })
  adopt_all-IsGrown (suc n) p {q} v room e = elim (Bool-cases (connects p.heap)) [
    | inr refused ↦ cc (rw (refused, adopt_all) at e)
    | inl connected ↦
        let step = rw (connected, adopt_all) at e in
        let rest =
          adopt_all-IsGrown n (adopted p) (adopted-IsValid p v (omega arith)) (omega arith)
            (rw (adopt-adopted p v) at step) in
        record {
          valid = rest.valid;
          more = omega (arith, rest.more);
          same_used = rest.same_used;
          same_limits = rest.same_limits;
        }
  ]

  -- How many connections `add_connection` makes.
  abbrev pub clamped : ℕ → SqlDbPool → ℕ
  clamped n p =
      if ltb p.max_idle (p.unused_pool.node_numbers + n)
      then p.max_idle - p.unused_pool.node_numbers
      else n

  -- When `add_connection` returns, the pool is valid and has as many more idle connections as asked
  -- for, or as fit under `max_idle`.
  pub add_connection-IsGrown :
      (n : ℕ) (p : SqlDbPool) {q : SqlDbPool}
      → IsValid p
      → add_connection connects n p ≡ some q
      → IsGrown p q (clamped n p)
  unfolding add_connection
  add_connection-IsGrown n p v e = adopt_all-IsGrown (clamped n p) p v (ground arith) e

-- `c` was leased to nobody in `p`, and is leased in `q`.
pub record IsLeased (p : SqlDbPool) (c : ℕ) (q : SqlDbPool) : Type 0 where
  pub valid : IsValid q
  pub not_null : c ≢ 0
  pub not_before : Nodes.if_exist p.used_pool c ≡ false
  pub now : Nodes.if_exist q.used_pool c ≡ true
  pub not_idle : Nodes.if_exist q.unused_pool c ≡ false
  pub one_more : q.used_pool.node_numbers ≡ suc p.used_pool.node_numbers

pub find_node-get_connection :
    (l : DbPoolList)
    → 0 < length l.next
    → (n : DbPoolNode) × (find_node (Nodes.get_connection l) l.next ≡ some n)
unfolding find_node Nodes.get_connection
find_node-get_connection l h = by_chain l.next refl h
  where
    by_chain :
        (ns : List DbPoolNode)
        → l.next ≡ ns
        → 0 < length ns
        → (n : DbPoolNode) × (find_node (Nodes.get_connection l) l.next ≡ some n)
    by_chain [] e h = elim h [ ]
    by_chain (n ∷ ns) e h = (n, rw e (rw ((==_iff n.connection n.connection).1 refl)))

pub popped-IsLeased :
    (p : SqlDbPool) (c : ℕ) (n : DbPoolNode)
    → IsValid p
    → find_node c p.unused_pool.next ≡ some n
    → p.used_pool.node_numbers < p.max_conn
    → IsLeased p c (popped c p)
popped-IsLeased p c n v found room =
    let (moved, unused, used, apart) =
      moved_lists p.unused_pool p.used_pool c n v.unused v.used v.apart found in
    let (before, now, idle) =
      moved_if_exist p.unused_pool p.used_pool c n v.unused v.used v.apart found in
    rw moved (record {
      valid = record {
        unused = unused;
        used = used;
        apart = apart;
        unused_below = unlink-All c (IsBelow p.heap) p.unused_pool.next v.unused_below;
        used_below = (
          find_node-All c (IsBelow p.heap) p.unused_pool.next found v.unused_below,
          v.used_below,
        );
        heap_pos = v.heap_pos;
        unused_le = omega (arith, v.unused_le);
        used_le = omega arith;
      };
      not_null = moved_not_null p.unused_pool p.used_pool c n v.unused v.used v.apart found;
      not_before = before;
      now = now;
      not_idle = idle;
      one_more = omega arith;
    })

IsLeased-grown :
    (p q : SqlDbPool) (c : ℕ) {r : SqlDbPool} {n : ℕ}
    → IsGrown p q n
    → IsLeased q c r
    → IsLeased p c r
IsLeased-grown p q c g h = record {
  valid = h.valid;
  not_null = h.not_null;
  not_before = rw (← g.same_used) h.not_before;
  now = h.now;
  not_idle = h.not_idle;
  one_more = h.one_more ∙ ap (λ l. suc l.node_numbers) g.same_used;
}

-- What a call ensures where it hands out a connection.
abbrev Leases : SqlDbPool → Outcome → Type 0
Leases p (got c q) = IsLeased p c q
Leases p exited = Unit
Leases p running = Unit

Leases-grown : (p q : SqlDbPool) {n : ℕ} → IsGrown p q n → (o : Outcome) → Leases q o → Leases p o
Leases-grown p q g (got c r) h = IsLeased-grown p q c g h
Leases-grown p q g exited h = tt
Leases-grown p q g running h = tt

module _ (connects : ℕ → Bool) where
  get_connection-Leases :
      (rounds : ℕ) (p : SqlDbPool) → IsValid p → Leases p (get_connection connects rounds p)
  unfolding get_connection
  get_connection-Leases zero p v = tt
  get_connection-Leases (suc rounds) p v = elim (Round-cases connects rounds p) [
    | Round.full _ e ↦ rw e (get_connection-Leases rounds p v)
    | Round.failed _ e ↦ rw e tt
    | Round.grew few q added e ↦
        let g = add_connection-IsGrown connects (wanted p) p v added in
        rw e (
          Leases-grown p q g (get_connection connects rounds q)
            (get_connection-Leases rounds q g.valid))
    | Round.pops room enough e ↦
        let (n, found) = find_node-get_connection p.unused_pool (omega (arith, v.unused.counted)) in
        rw e (
          popped-IsLeased p (Nodes.get_connection p.unused_pool) n v found
            (omega (arith, v.used_le)))
  ]

  -- Whenever `get_connection` hands out a connection, within any number of rounds, the pool is valid
  -- again and has exactly this connection more in use: it is no null pointer, was not in use before,
  -- is in use now, and is idle no more.
  pub get_connection-IsLeased :
      (rounds : ℕ) (p : SqlDbPool) {c : ℕ} {q : SqlDbPool}
      → IsValid p
      → get_connection connects rounds p ≡ got c q
      → IsLeased p c q
  get_connection-IsLeased rounds p v e = rw e at (get_connection-Leases rounds p v)
