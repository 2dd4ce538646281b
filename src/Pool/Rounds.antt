-- ===== src/Pool/Rounds.antt =====
-- One round of `get_connection`, case by case.
use amigao.Base.{
  ℕ, suc, ◌+◌, ◌-◌, ◌≤◌, ◌<◌, Bool, none, some, ◌≡◌, ◌≢◌, inl, inr, arith, leb, ◌==◌, Bool-cases,
  Option-cases,
}
use amigao.Pool.Defs.{SqlDbPool, add_connection, got, exited, get_connection}
use amigao.Pool.Nodes

-- The pool after the pop of the idle connection `c`.
abbrev pub popped : ℕ → SqlDbPool → SqlDbPool
popped c p =
    let lists = Nodes.pop_connection2 p.unused_pool p.used_pool c in
    record p { unused_pool = lists.0; used_pool = lists.1 }

-- How many connections a round asks for.
abbrev pub wanted : SqlDbPool → ℕ
wanted p = p.min_idle - p.unused_pool.node_numbers + 1

pub data Round (connects : ℕ → Bool) (rounds : ℕ) (p : SqlDbPool) : Type 0 where
  full :
      p.used_pool.node_numbers ≡ p.max_conn
      → get_connection connects (suc rounds) p ≡ get_connection connects rounds p
      → Round connects rounds p
  failed :
      add_connection connects (wanted p) p ≡ none
      → get_connection connects (suc rounds) p ≡ exited
      → Round connects rounds p
  grew :
      p.unused_pool.node_numbers ≤ p.min_idle
      → (q : SqlDbPool) → add_connection connects (wanted p) p ≡ some q
      → get_connection connects (suc rounds) p ≡ get_connection connects rounds q
      → Round connects rounds p
  pops :
      p.used_pool.node_numbers ≢ p.max_conn
      → p.min_idle < p.unused_pool.node_numbers
      → get_connection connects (suc rounds) p
        ≡ got (Nodes.get_connection p.unused_pool) (popped (Nodes.get_connection p.unused_pool) p)
      → Round connects rounds p

pub Round-cases : (connects : ℕ → Bool) (rounds : ℕ) (p : SqlDbPool) → Round connects rounds p
unfolding get_connection
Round-cases connects rounds p = elim (Bool-cases (p.used_pool.node_numbers == p.max_conn)) [
  | inl busy ↦ Round.full (ground arith) (rw (busy, get_connection))
  | inr room ↦ elim (Bool-cases (leb p.unused_pool.node_numbers p.min_idle)) [
    | inr enough ↦ Round.pops (ground arith) (ground arith) (rw (room, get_connection) (rw enough))
    | inl few ↦ elim (Option-cases (add_connection connects (wanted p) p)) [
      | inl refused ↦ Round.failed refused (rw (room, get_connection) (rw few (rw refused)))
      | inr (q, added) ↦
          Round.grew (ground arith) q added (rw (room, get_connection) (rw few (rw added)))
    ]
  ]
]
