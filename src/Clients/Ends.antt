-- ===== src/Clients/Ends.antt =====
-- Threads that share a pool and keep each other waiting.
use amigao.Base.{ℕ, Bool, List, ◌∷◌, ◌≡◌, refl, sym, ap, ◌∙◌, All}
use amigao.Clients.{Client, Turn, adds, leases, recycles, asks}
use amigao.Interleaving.{Step, here, there, Steps, none_left, then_step}
use amigao.Pool.Acquire.{add_connection-IsGrown}
use amigao.Pool.Validity.{IsValid}
use amigao.Pool.{SqlDbPool}
use amigao.Sql.Program.{Program, recycle, query}

-- All connections that there may be are in use.
record IsFull (p : SqlDbPool) : Type 0 where
  pub valid : IsValid p
  pub full : p.used_pool.node_numbers ≡ p.max_conn

-- The thread wants a connection next, or is at its end.
abbrev pub IsWaiting : {A : Type 0} → Program A → Type 0
IsWaiting (recycle k) = ⊥
IsWaiting (query s k) = ⊥
IsWaiting _ = Unit {0}

module _ {A : Type 0} (connects : ℕ → Bool) where
  Turn-IsFull :
      (t : Client A) (p : SqlDbPool) (t' : Client A) (q : SqlDbPool)
      → Turn connects t p t' q
      → IsWaiting t.program
      → IsFull p
      → (t' ≡ t) × IsFull q
  Turn-IsFull t p t' q (adds n e) w h =
      let g = add_connection-IsGrown connects n p h.valid e in
      (
        refl,
        record {
          valid = g.valid;
          full =
              ap (λ l. l.node_numbers) g.same_used
              ∙ h.full
              ∙ ap (λ l. l.max_conn) (sym g.same_limits);
        },
      )
  Turn-IsFull t p t' q (leases room enough) w h = absurd (room h.full)
  Turn-IsFull t p t' q recycles w h = elim w [ ]
  Turn-IsFull t p t' q (asks a) w h = elim w [ ]

  Step-IsFull :
      (ts : List (Client A)) (p : SqlDbPool) (us : List (Client A)) (q : SqlDbPool)
      → Step (Turn connects) ts p us q
      → All (λ t. IsWaiting t.program) ts
      → IsFull p
      → (us ≡ ts) × IsFull q
  Step-IsFull ts p us q (here {t = t} {t' = t'} {ts = rest} turn) w h =
      let (same, h') = Turn-IsFull t p t' q turn w.0 h in (ap (λ u. u ∷ rest) same, h')
  Step-IsFull ts p us q (there {t = t} {ts = rest} {ts' = rest'} step) w h =
      let (same, h') = Step-IsFull rest p rest' q step w.1 h in (ap (λ us. t ∷ us) same, h')

  -- When all connections that there may be are in use and every thread is at its end or wants one more, no
  -- thread ever gets on, whatever the server does: each waits for the others.
  pub starved :
      (ts : List (Client A)) (p : SqlDbPool) (us : List (Client A)) (q : SqlDbPool)
      → IsValid p
      → p.used_pool.node_numbers ≡ p.max_conn
      → All (λ t. IsWaiting t.program) ts
      → Steps (Turn connects) ts p us q
      → us ≡ ts
  starved ts p us q v full w steps = stay ts p us q steps w (record { valid = v; full = full })
    where
      stay :
          (ts : List (Client A)) (p : SqlDbPool) (us : List (Client A)) (q : SqlDbPool)
          → Steps (Turn connects) ts p us q
          → All (λ t. IsWaiting t.program) ts
          → IsFull p
          → us ≡ ts
      stay ts p us q none_left w h = refl
      stay ts p us q (then_step {us = vs} {q = r} step more) w h =
          let (same, h') = Step-IsFull ts p vs r step w h in
          stay vs r us q more (rw same w) h' ∙ same
