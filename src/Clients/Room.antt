-- ===== src/Clients/Room.antt =====
-- Whether a thread finds all connections of the pool in use (src/db/sql_db_pool.hpp).
use amigao.Base.{
  ℕ, suc, ◌*◌, ◌≤◌, ◌<◌, Bool, List, [], ◌∷◌, ◌++◌, some, ◌≡◌, refl, ap, ◌∙◌, arith, length, All,
}
use amigao.Clients.Counts.{all_held}
use amigao.Clients.Shared.{Keeps, started-IsShared}
use amigao.Clients.{Client, client, starting, Turn}
use amigao.Interleaving.{Steps, Steps-length}
use amigao.Pool.{Limits, SqlDbPool, constructed}
use amigao.Sql.Leases.{Holds}
use amigao.Sql.Program.{Program, lease}

module _ {A : Type 0} (limit : ℕ) where
  all_held_bound : (ts : List (Client A)) → All (Keeps limit) ts → all_held ts ≤ limit * length ts
  all_held_bound [] h = omega arith
  all_held_bound (t ∷ ts) h = let rest = all_held_bound ts h.1 in let mine = h.0.0 in grind arith

  -- One of the threads is to lease, and so holds less than it may.
  wants_below :
      (before after : List (Client A)) (held : List ℕ) (k : Program A)
      → All (Keeps limit) (before ++ client held (lease k) ∷ after)
      → all_held (before ++ client held (lease k) ∷ after)
        < limit * length (before ++ client held (lease k) ∷ after)
  wants_below [] after held k h =
      let rest = all_held_bound after h.1 in let mine = h.0.1.0 in grind arith
  wants_below (t ∷ before) after held k h =
      let rest = wants_below before after held k h.1 in let mine = h.0.0 in grind arith

module _ {A : Type 0} (limit : ℕ) (limits : Limits) where
  starting-length : (programs : List (Program A)) → length (starting programs) ≡ length programs
  starting-length [] = refl
  starting-length (k ∷ ks) = ap suc (starting-length ks)

  -- Where the pool has a place for `limit` connections of every thread: in whatever order the locked sections
  -- of the threads have followed one another, a thread that is to get a connection does not find all in
  -- use, so the first test of `get_connection` never makes it wait. Nothing is said of the locks
  -- themselves.
  pub started_has_room :
      (connects : ℕ → Bool) (programs : List (Program A)) {p : SqlDbPool}
      (before after : List (Client A)) (held : List ℕ) (k : Program A) (q : SqlDbPool)
      → limit * length programs ≤ limits.max_conn
      → constructed connects limits ≡ some p
      → All (Holds limit 0 0) programs
      → Steps (Turn connects) (starting programs) p (before ++ client held (lease k) ∷ after) q
      → q.used_pool.node_numbers < q.max_conn
  started_has_room connects programs {p} before after held k q room e h steps =
      let ts : List (Client A) = before ++ client held (lease k) ∷ after in
      let s = (started-IsShared limit limits connects programs ts q e h steps).0 in
      let same : length ts ≡ length programs =
        Steps-length (Turn connects) (starting programs) p ts q steps ∙ starting-length programs in
      let room' : limit * length ts ≤ limits.max_conn = rw same room in
      let below = wants_below limit before after held k s.keeps in
      let cap : q.max_conn ≡ limits.max_conn = ap (λ l. l.max_conn) s.same_limits in
      omega (arith, s.numbers)
