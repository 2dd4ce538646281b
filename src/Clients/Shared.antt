-- ===== src/Clients/Shared.antt =====
-- What holds of a pool that threads share, between any two turns.
use amigao.Base.{
  ℕ, suc, ◌+◌, ◌-◌, ◌≤◌, Bool, List, [], ◌∷◌, ◌++◌, some, ◌≡◌, refl, sym, ap, ◌∙◌, arith, ◌==◌,
  length, length-append, All,
}
use amigao.Clients.Counts.{
  one_if, count, in_chain, times_held, all_held, count-append, in_chain_nil, in_chain-IsDistinct,
}
use amigao.Clients.Moves.{in_use, popped-IsMore, recycled-IsLess}
use amigao.Clients.{Client, starting, Turn, adds, leases, recycles, asks}
use amigao.Interleaving.{Step, here, there, Steps, none_left, then_step}
use amigao.Pool.Acquire.{add_connection-IsGrown}
use amigao.Pool.Recycle.{recycle_connection-IsValid}
use amigao.Pool.Starve.{constructed-IsValid}
use amigao.Pool.Validity.{IsValid}
use amigao.Pool.{Limits, SqlDbPool, constructed}
use amigao.Sql.Leases.{Holds}
use amigao.Sql.Program.{Program}

-- The thread holds at most `limit` connections, and goes on as such a program does.
abbrev pub Keeps : {A : Type 0} → ℕ → Client A → Type 0
Keeps limit t = (length t.held ≤ limit) × Holds limit 0 (length t.held) t.program

-- What is in use is what the threads hold, and `others` besides.
pub record IsShared {A : Type 0} (limit : ℕ) (limits : Limits) (others : List ℕ)
    (ts : List (Client A)) (p : SqlDbPool) : Type 0 where
  pub valid : IsValid p
  pub same_limits : p.limits ≡ limits
  pub owned : (c : ℕ) → in_use c p ≡ count c others + times_held c ts
  pub numbers : p.used_pool.node_numbers ≡ length others + all_held ts
  pub keeps : All (Keeps limit) ts

module _ {A : Type 0} (limit : ℕ) (limits : Limits) where
  -- The connections of the first thread may count as the others'.
  aside :
      (others : List ℕ) (t : Client A) (ts : List (Client A)) (p : SqlDbPool)
      → IsShared limit limits others (t ∷ ts) p
      → IsShared limit limits (t.held ++ others) ts p
  aside others t ts p s = record {
    valid = s.valid;
    same_limits = s.same_limits;
    owned = λ c. omega (arith, s.owned c, count-append c t.held others);
    numbers = omega (arith, s.numbers, length-append t.held others);
    keeps = s.keeps.1;
  }

  beside :
      (others : List ℕ) (t : Client A) (ts : List (Client A)) (p : SqlDbPool)
      → Keeps limit t
      → IsShared limit limits (t.held ++ others) ts p
      → IsShared limit limits others (t ∷ ts) p
  beside others t ts p k s = record {
    valid = s.valid;
    same_limits = s.same_limits;
    owned = λ c. omega (arith, s.owned c, count-append c t.held others);
    numbers = omega (arith, s.numbers, length-append t.held others);
    keeps = (k, s.keeps);
  }

  module _ (connects : ℕ → Bool) where
    pub Turn-IsShared :
        (others : List ℕ) (t : Client A) (p : SqlDbPool) (t' : Client A) (q : SqlDbPool)
        (ts : List (Client A))
        → Turn connects t p t' q
        → IsShared limit limits others (t ∷ ts) p
        → IsShared limit limits others (t' ∷ ts) q
    Turn-IsShared others t p t' q ts (adds n e) s =
        let g = add_connection-IsGrown connects n p s.valid e in
        record {
          valid = g.valid;
          same_limits = g.same_limits ∙ s.same_limits;
          owned = λ c. ap (λ l. in_chain c l.next) g.same_used ∙ s.owned c;
          numbers = ap (λ l. l.node_numbers) g.same_used ∙ s.numbers;
          keeps = s.keeps;
        }
    Turn-IsShared others t p t' q ts (leases room enough) s =
        let m = popped-IsMore p s.valid room enough in
        let (within, (below, more)) = s.keeps.0 in
        record {
          valid = m.valid;
          same_limits = m.same_limits ∙ s.same_limits;
          owned = λ c. omega (arith, m.more c, s.owned c);
          numbers = omega (arith, m.numbers, s.numbers);
          keeps = ((omega arith, more), s.keeps.1);
        }
    Turn-IsShared others t p t' q ts (recycles {c = c} {held = held}) s =
        let back : suc (length held) - 1 ≡ length held = omega arith in
        let mine : one_if (c == c) ≡ 1 = ground arith in
        let m = recycled-IsLess c p s.valid (omega (arith, s.owned c)) in
        let (within, (below, more)) = s.keeps.0 in
        record {
          valid = recycle_connection-IsValid p c s.valid;
          same_limits = sym m.same_limits ∙ s.same_limits;
          owned = λ d. omega (arith, m.more d, s.owned d);
          numbers = omega (arith, m.numbers, s.numbers);
          keeps = ((omega arith, rw back at more), s.keeps.1);
        }
    Turn-IsShared others t p t' q ts (asks a) s = record {
      valid = s.valid;
      same_limits = s.same_limits;
      owned = s.owned;
      numbers = s.numbers;
      keeps = ((s.keeps.0.0, s.keeps.0.1.1 a), s.keeps.1);
    }

    Step-IsShared :
        (others : List ℕ) (ts : List (Client A)) (p : SqlDbPool) (us : List (Client A))
        (q : SqlDbPool)
        → Step (Turn connects) ts p us q
        → IsShared limit limits others ts p
        → IsShared limit limits others us q
    Step-IsShared others ts p us q (here {t = t} {t' = t'} {ts = rest} turn) s =
        Turn-IsShared others t p t' q rest turn s
    Step-IsShared others ts p us q (there {t = t} {ts = rest} {ts' = rest'} step) s =
        beside others t rest' q s.keeps.0
          (Step-IsShared (t.held ++ others) rest p rest' q step (aside others t rest p s))

    pub Steps-IsShared :
        (others : List ℕ) (ts : List (Client A)) (p : SqlDbPool) (us : List (Client A))
        (q : SqlDbPool)
        → Steps (Turn connects) ts p us q
        → IsShared limit limits others ts p
        → IsShared limit limits others us q
    Steps-IsShared others ts p us q none_left s = s
    Steps-IsShared others ts p us q (then_step {us = vs} {q = r} step more) s =
        Steps-IsShared others vs r us q more (Step-IsShared others ts p vs r step s)

    starting-times_held :
        (c : ℕ) (programs : List (Program A)) → times_held c (starting programs) ≡ 0
    starting-times_held c [] = refl
    starting-times_held c (k ∷ ks) = omega (arith, starting-times_held c ks)

    starting-all_held : (programs : List (Program A)) → all_held (starting programs) ≡ 0
    starting-all_held [] = refl
    starting-all_held (k ∷ ks) = omega (arith, starting-all_held ks)

    starting-Keeps :
        (programs : List (Program A))
        → All (Holds limit 0 0) programs
        → All (Keeps limit) (starting programs)
    starting-Keeps [] h = tt
    starting-Keeps (k ∷ ks) h = ((omega arith, h.0), starting-Keeps ks h.1)

    starting-IsShared :
        (programs : List (Program A)) {p : SqlDbPool}
        → constructed connects limits ≡ some p
        → All (Holds limit 0 0) programs
        → IsShared limit limits [] (starting programs) p
    starting-IsShared programs {p} e h =
        let (v, idle, used, same) = constructed-IsValid connects limits e in
        record {
          valid = v;
          same_limits = same;
          owned = λ c.
              let nobody = in_chain_nil c p.used_pool.next (omega (arith, v.used.counted, used)) in
              omega (arith, nobody, starting-times_held c programs);
          numbers = omega (arith, used, starting-all_held programs);
          keeps = starting-Keeps programs h;
        }

    -- However many threads of one process share a pool, and in whatever order their turns come: from the pool
    -- as the constructor leaves it on, at every moment the pool is valid, the connections in use are those that
    -- the threads hold, and no connection is held by two threads, or twice by one.
    pub started-IsShared :
        (programs : List (Program A)) {p : SqlDbPool} (ts : List (Client A)) (q : SqlDbPool)
        → constructed connects limits ≡ some p
        → All (Holds limit 0 0) programs
        → Steps (Turn connects) (starting programs) p ts q
        → IsShared limit limits [] ts q × ((c : ℕ) → times_held c ts ≤ 1)
    started-IsShared programs {p} ts q e h steps =
        let s : IsShared limit limits [] ts q =
          Steps-IsShared [] (starting programs) p ts q steps (starting-IsShared programs e h) in
        (
          s,
          λ c.
              omega
                (arith, s.owned c, in_chain-IsDistinct c q.used_pool.next s.valid.used.distinct),
        )
