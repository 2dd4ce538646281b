-- ===== src/Clients.antt =====
-- Code over the database (`Sql/Program.antt`) run by several threads of one process, which share the pool of
-- the process (src/db/sql_db_pool.hpp). The locked sections follow one another, in any order; within
-- `get_connection` others may run between the section that finds too few idle connections, the one that
-- adds some, and the one that takes one. The locks themselves are no part of the state, so what is proved here
-- is of the states that runs reach; how threads lock each other out is in `Pool/Locks.antt`.
pub mod Counts
pub mod Moves
pub mod Shared
pub mod Room
pub mod Ends
use amigao.Base.{ℕ, ◌+◌, ◌<◌, Bool, List, [], ◌∷◌, some, ◌≡◌, ◌≢◌, map}
use amigao.Pool.Nodes
use amigao.Pool.Rounds.{popped}
use amigao.Pool.{SqlDbPool, add_connection, recycle_connection}
use amigao.Sql.Program.{Answer, Program, done, stop, lease, recycle, query}

-- A thread: what it has leased, the latest first, and what it still has to do.
pub record Client (A : Type 0) : Type 0 where
  pub held : List ℕ
  pub program : Program A

module _ {A : Type 0} where
  abbrev pub client : List ℕ → Program A → Client A
  client held program = record { held = held; program = program }

  abbrev pub starting : List (Program A) → List (Client A)
  starting programs = map (client []) programs

module _ {A : Type 0} (connects : ℕ → Bool) where
  -- A turn of one thread. A thread whose round finds the pool full, or that is ended, has none; how many
  -- connections it adds was counted when it ran before, so it may be any number. The latest lease is the
  -- one that is given back.
  pub data Turn : Client A → SqlDbPool → Client A → SqlDbPool → Type 0 where
    adds :
        {held : List ℕ} {k : Program A} {p q : SqlDbPool} (n : ℕ)
        → add_connection connects n p ≡ some q
        → Turn (client held (lease k)) p (client held (lease k)) q
    leases :
        {held : List ℕ} {k : Program A} {p : SqlDbPool}
        → p.used_pool.node_numbers ≢ p.max_conn
        → p.min_idle < p.unused_pool.node_numbers
        → Turn
            (client held (lease k))
            p
            (client (Nodes.get_connection p.unused_pool ∷ held) k)
            (popped (Nodes.get_connection p.unused_pool) p)
    recycles :
        {c : ℕ} {held : List ℕ} {k : Program A} {p : SqlDbPool}
        → Turn (client (c ∷ held) (recycle k)) p (client held k) (recycle_connection c p)
    asks :
        {c : ℕ} {held : List ℕ} {s : List ℕ} {k : Answer → Program A} {p : SqlDbPool} (a : Answer)
        → Turn (client (c ∷ held) (query s k)) p (client (c ∷ held) (k a)) p
