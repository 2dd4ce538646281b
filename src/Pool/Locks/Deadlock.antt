-- ===== src/Pool/Locks/Deadlock.antt =====
-- The two calls take the two locks in opposite orders.
use mathlib.Core.Option.{some-injective}
use mathlib.Core.Path.{subst}
use amigao.Base.{
  ℕ, false, List, [], ◌∷◌, some, ◌≡◌, ◌≢◌, refl, sym, ◌∙◌, inl, inr, arith, ◌==◌, Bool-cases,
  ==_iff,
}
use amigao.Pool.Locks.Exclusion.{
  IsOwned, run-IsOwned, turn-IsOwned, at_rest-IsOwned, Keeps, code-Keeps, act-taken_unused,
  act-taken_used,
}
use amigao.Pool.Locks.{
  Place, get_used, recycle_unused, Choice, gets, recycles, present, Action, lock_unused, lock_used,
  unlock_unused, unlock_used, go, code, Threads, act, turn, run, at_rest,
}

-- Thread `i` holds `unused_lock` and waits for `used_lock`, which thread `j` holds while it waits for
-- `unused_lock`.
pub record IsDeadlocked (i j : ℕ) (s : Threads) : Type 0 where
  pub getting : s.place i ≡ get_used
  pub recycling : s.place j ≡ recycle_unused
  pub unused : s.unused_owner ≡ some i
  pub used : s.used_owner ≡ some j

module _ (i j : ℕ) where
  act-IsDeadlocked :
      (k : ℕ) (s : Threads) (a : Action × Place)
      → k ≢ i
      → k ≢ j
      → Keeps (s.place k) a
      → IsOwned s
      → IsDeadlocked i j s
      → IsDeadlocked i j (act k a s)
  unfolding act
  act-IsDeadlocked k s (lock_unused, c) ne_i ne_j h v d =
      subst (IsDeadlocked i j) (sym (act-taken_unused k i c s d.unused)) d
  act-IsDeadlocked k s (lock_used, c) ne_i ne_j h v d =
      subst (IsDeadlocked i j) (sym (act-taken_used k j c s d.used)) d
  act-IsDeadlocked k s (unlock_unused, c) ne_i ne_j h v d =
      absurd (ne_i (some-injective _ _ (sym (v.unused k h.0) ∙ d.unused)))
  act-IsDeadlocked k s (unlock_used, c) ne_i ne_j h v d =
      absurd (ne_j (some-injective _ _ (sym (v.used k h.0) ∙ d.used)))
  act-IsDeadlocked k s (go, c) ne_i ne_j h v d =
      let other_i : (i == k) ≡ false = ground arith in
      let other_j : (j == k) ≡ false = ground arith in
      record {
        getting = rw other_i (d.getting);
        recycling = rw other_j (d.recycling);
        unused = d.unused;
        used = d.used;
      }

  turn-IsDeadlocked :
      (s : Threads) (t : ℕ × Choice) → IsOwned s → IsDeadlocked i j s → IsDeadlocked i j (turn s t)
  unfolding turn act code
  turn-IsDeadlocked s (k, choice) v d = elim (Bool-cases (k == i)) [
    | inl is_i ↦ let it : k ≡ i = (==_iff k i).0 is_i in rw it (simp (d.getting, d.used) d)
    | inr not_i ↦ elim (Bool-cases (k == j)) [
      | inl is_j ↦ let it : k ≡ j = (==_iff k j).0 is_j in rw it (simp (d.recycling, d.unused) d)
      | inr not_j ↦
          act-IsDeadlocked k s (code choice (s.place k)) (ground arith) (ground arith)
            (code-Keeps choice (s.place k)) v d
    ]
  ]

  run-IsDeadlocked :
      (s : Threads) (ts : List (ℕ × Choice))
      → IsOwned s
      → IsDeadlocked i j s
      → IsDeadlocked i j (run s ts)
  unfolding run
  run-IsDeadlocked s [] v d = d
  run-IsDeadlocked s (t ∷ ts) v d =
      run-IsDeadlocked (turn s t) ts (turn-IsOwned s t v) (turn-IsDeadlocked s t v d)

-- The schedule of the deadlock.
abbrev pub clash : ℕ → ℕ → List (ℕ × Choice)
clash i j = (i, gets) ∷ (i, gets) ∷ (j, recycles) ∷ (j, recycles) ∷ (j, present) ∷ []

run-clash : (i j : ℕ) → i ≢ j → IsDeadlocked i j (run at_rest (clash i j))
unfolding run turn code act at_rest
run-clash i j ne =
    let same_i = (==_iff i i).1 refl in
    let same_j = (==_iff j j).1 refl in
    let other : (i == j) ≡ false = ground arith in
    let other' : (j == i) ≡ false = ground arith in ground arith

-- When one thread that calls `get_connection` has taken `unused_lock`, and another that calls
-- `recycle_connection` on a leased connection has taken `used_lock`, both wait for ever: whatever
-- runs afterwards, and in whatever order, each still waits for the lock that the other holds.
pub run_deadlocks :
    (i j : ℕ) (ts : List (ℕ × Choice)) → i ≢ j → IsDeadlocked i j (run (run at_rest (clash i j)) ts)
run_deadlocks i j ts ne =
    run-IsDeadlocked i j (run at_rest (clash i j)) ts
      (run-IsOwned at_rest (clash i j) at_rest-IsOwned) (run-clash i j ne)
