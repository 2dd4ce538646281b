-- ===== src/Pool/Starve.antt =====
-- When `get_connection` comes to an end.
use mathlib.Core.Option.{some-injective}
use Prim.Native.Nat.{min}
use amigao.Base.{
  ℕ, zero, suc, ◌+◌, ◌-◌, ◌≤◌, ◌<◌, Bool, true, none, some, ◌≡◌, ◌≢◌, refl, sym, ap, ◌∙◌, arith,
  ltb,
}
use amigao.Pool.Defs.{
  Limits, SqlDbPool, initial, constructed, adopt, adopt_all, add_connection, got, running,
  get_connection,
}
use amigao.Pool.Acquire.{add_connection-IsGrown, IsLeased, get_connection-IsLeased}
use amigao.Pool.Rounds.{wanted, Round, Round-cases}
use amigao.Pool.Validity.{IsValid, initial-IsValid}

-- Every connection to the server succeeds.
abbrev pub Connects : (ℕ → Bool) → Type 0
Connects connects = (c : ℕ) → connects c ≡ true

module _ (connects : ℕ → Bool) where
  add_connection_full :
      (n : ℕ) (p : SqlDbPool)
      → 0 < n
      → p.max_idle ≤ p.unused_pool.node_numbers
      → add_connection connects n p ≡ some p
  unfolding add_connection adopt_all
  add_connection_full n p pos no_room =
      let over : ltb p.max_idle (p.unused_pool.node_numbers + n) ≡ true = ground arith in
      let nothing : p.max_idle - p.unused_pool.node_numbers ≡ 0 = omega arith in
      rw over (rw nothing)

  -- A pool with at most `min_idle` idle connections and no room for more makes a thread that asks
  -- for a connection try again without end, whatever the server does. So it goes with `max_idle`
  -- equal to `min_idle`, once the pool is constructed.
  pub get_connection_starves :
      (rounds : ℕ) (p : SqlDbPool)
      → p.unused_pool.node_numbers ≤ p.min_idle
      → p.max_idle ≤ p.unused_pool.node_numbers
      → get_connection connects rounds p ≡ running
  get_connection_starves zero p few no_room = unfold get_connection in refl
  get_connection_starves (suc rounds) p few no_room =
      let idle = add_connection_full (wanted p) p (omega arith) no_room in
      elim (Round-cases connects rounds p) [
        | Round.full _ e ↦ e ∙ get_connection_starves rounds p few no_room
        | Round.failed refused e ↦ cc
        | Round.grew _ q added e ↦
            let same : p ≡ q = some-injective _ _ (sym idle ∙ added) in
            e ∙ rw (← same) (get_connection_starves rounds p few no_room)
        | Round.pops _ enough e ↦ absurd (omega arith)
      ]

  -- When the constructor returns, the pool is valid, nothing is in use, and the idle connections are
  -- `min_idle` many, or `max_idle` many where that is less.
  pub constructed-IsValid :
      (limits : Limits) {p : SqlDbPool}
      → constructed connects limits ≡ some p
      → IsValid p
        × (p.unused_pool.node_numbers ≡ min limits.min_idle limits.max_idle)
        × (p.used_pool.node_numbers ≡ 0)
        × (p.limits ≡ limits)
  unfolding constructed initial
  constructed-IsValid limits {p} e =
      let g =
        add_connection-IsGrown connects limits.min_idle (initial limits) (initial-IsValid limits)
          e in
      (g.valid, g.more ∙ ground arith, ap (λ l. l.node_numbers) g.same_used, g.same_limits)

  -- A pool constructed with `max_idle` no greater than `min_idle` never hands out a connection: every
  -- call tries again without end.
  pub constructed_starves :
      (limits : Limits) (rounds : ℕ) {p : SqlDbPool}
      → limits.max_idle ≤ limits.min_idle
      → constructed connects limits ≡ some p
      → get_connection connects rounds p ≡ running
  constructed_starves limits rounds {p} h e =
      let (v, idle, used, same) = constructed-IsValid limits e in
      get_connection_starves rounds p (rw same (omega (arith, idle)))
        (rw same (omega (arith, idle)))

module _ (connects : ℕ → Bool) (up : Connects connects) where
  adopt_all-ne-none : (n : ℕ) (p : SqlDbPool) → adopt_all connects n p ≢ none
  unfolding adopt_all
  adopt_all-ne-none zero p e = cc
  adopt_all-ne-none (suc n) p e = adopt_all-ne-none n (adopt p) (rw (up p.heap, adopt_all) at e)

  pub add_connection-ne-none : (n : ℕ) (p : SqlDbPool) → add_connection connects n p ≢ none
  unfolding add_connection
  add_connection-ne-none n p = adopt_all-ne-none _ p

  pops_now :
      (rounds : ℕ) (p : SqlDbPool)
      → p.used_pool.node_numbers < p.max_conn
      → p.min_idle < p.unused_pool.node_numbers
      → (c : ℕ) × (q : SqlDbPool) × (get_connection connects (suc rounds) p ≡ got c q)
  pops_now rounds p room enough = elim (Round-cases connects rounds p) [
    | Round.full busy e ↦ absurd (omega arith)
    | Round.failed refused e ↦ absurd (add_connection-ne-none (wanted p) p refused)
    | Round.grew few q added e ↦ absurd (omega arith)
    | Round.pops _ _ e ↦ (_, _, e)
  ]

  -- With the server up, a free place among the leases and `min_idle` below `max_idle`, a call on a
  -- valid pool hands out a connection within two rounds, and leases it.
  pub get_connection_serves :
      (rounds : ℕ) (p : SqlDbPool)
      → IsValid p
      → p.used_pool.node_numbers < p.max_conn
      → p.min_idle < p.max_idle
      → (c : ℕ) × (q : SqlDbPool) × (get_connection connects (suc (suc rounds)) p ≡ got c q)
        × IsLeased p c q
  get_connection_serves rounds p v room slack = with_lease served
    where
      served : (c : ℕ) × (q : SqlDbPool) × (get_connection connects (suc (suc rounds)) p ≡ got c q)
      served = elim (Round-cases connects (suc rounds) p) [
        | Round.full busy e ↦ absurd (omega arith)
        | Round.failed refused e ↦ absurd (add_connection-ne-none (wanted p) p refused)
        | Round.grew few q added e ↦
            let g = add_connection-IsGrown connects (wanted p) p v added in
            let (c, r, f) =
              pops_now rounds q (rw g.same_used (rw g.same_limits room))
                (rw g.same_limits (let m = g.more in ground arith)) in
            (c, r, e ∙ f)
        | Round.pops _ _ e ↦ (_, _, e)
      ]

      with_lease :
          (c : ℕ) × (q : SqlDbPool) × (get_connection connects (suc (suc rounds)) p ≡ got c q)
          → (c : ℕ) × (q : SqlDbPool) × (get_connection connects (suc (suc rounds)) p ≡ got c q)
            × IsLeased p c q
      with_lease (c, q, e) = (c, q, e, get_connection-IsLeased connects (suc (suc rounds)) p v e)
