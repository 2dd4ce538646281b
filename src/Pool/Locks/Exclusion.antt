-- ===== src/Pool/Locks/Exclusion.antt =====
-- Each lock has one holder at a time.
use mathlib.Core.Option.{some-injective}
use mathlib.Core.Path.{subst}
use amigao.Base.{
  ℕ, Bool, true, false, List, [], ◌∷◌, Option, none, some, ◌≡◌, refl, sym, ◌∙◌, ◌⊎◌, inl, inr,
  arith, ◌==◌, Bool-cases, Option-cases, ==_iff,
}
use amigao.Pool.Locks.{
  Place, outside, get_used, get_both, full_out, popped_out, few_out, add_held, recycle_held,
  recycle_unused, recycle_both, recycle_out, Choice, Action, lock_unused, lock_used, unlock_unused,
  unlock_used, go, code, Threads, act, moved, turn, run, at_rest,
}

-- The places in the code between the lock and the unlock of `unused_lock`.
abbrev pub holds_unused : Place → Bool
holds_unused get_used = true
holds_unused get_both = true
holds_unused full_out = true
holds_unused popped_out = true
holds_unused add_held = true
holds_unused recycle_both = true
holds_unused recycle_out = true
holds_unused _ = false

abbrev pub holds_used : Place → Bool
holds_used get_both = true
holds_used few_out = true
holds_used recycle_held = true
holds_used recycle_unused = true
holds_used recycle_both = true
holds_used _ = false

-- A thread inside a lock owns it.
abbrev Owns : (Place → Bool) → Option ℕ → (ℕ → Place) → Type 0
Owns holds owner place = (k : ℕ) → holds (place k) ≡ true → owner ≡ some k

pub record IsOwned (s : Threads) : Type 0 where
  pub unused : Owns holds_unused s.unused_owner s.place
  pub used : Owns holds_used s.used_owner s.place

pub at_rest-IsOwned : IsOwned at_rest
unfolding at_rest
at_rest-IsOwned = record { unused = λ k h. cc; used = λ k h. cc }

module _ (holds : Place → Bool) (k : ℕ) (d : Place) (place : ℕ → Place) where
  Owns-same :
      (owner : Option ℕ)
      → holds d ≡ holds (place k)
      → Owns holds owner place
      → Owns holds owner (moved k d place)
  Owns-same owner same h m e = elim (Bool-cases (m == k)) [
    | inl hit ↦ let it : m ≡ k = (==_iff m k).0 hit in rw it (h k (sym same ∙ rw hit at e))
    | inr miss ↦ h m (rw miss at e)
  ]

  Owns-take : Owns holds none place → Owns holds (some k) (moved k d place)
  Owns-take h m e = elim (Bool-cases (m == k)) [
    | inl hit ↦ let it : m ≡ k = (==_iff m k).0 hit in rw it
    | inr miss ↦ cc (h m (rw miss at e))
  ]

  Owns-release :
      (owner : Option ℕ)
      → holds (place k) ≡ true
      → holds d ≡ false
      → Owns holds owner place
      → Owns holds none (moved k d place)
  Owns-release owner inside left h m e = elim (Bool-cases (m == k)) [
    | inl hit ↦ cc (left, rw hit at e)
    | inr miss ↦
        let it : m ≡ k = some-injective _ _ (sym (h m (rw miss at e)) ∙ h k inside) in
        cc (miss, (==_iff m k).1 it)
  ]

-- What an action does to the locks that the place behind it holds.
abbrev pub Keeps : Place → Action × Place → Type 0
Keeps c (lock_unused, d) = holds_used d ≡ holds_used c
Keeps c (lock_used, d) = holds_unused d ≡ holds_unused c
Keeps c (unlock_unused, d) =
    (holds_unused c ≡ true) × (holds_unused d ≡ false) × (holds_used d ≡ holds_used c)
Keeps c (unlock_used, d) =
    (holds_used c ≡ true) × (holds_used d ≡ false) × (holds_unused d ≡ holds_unused c)
Keeps c (go, d) = (holds_unused d ≡ holds_unused c) × (holds_used d ≡ holds_used c)

pub code-Keeps : (choice : Choice) (c : Place) → Keeps c (code choice c)
unfolding code
code-Keeps Choice.gets outside = (refl, refl)
code-Keeps _ _ = ground arith

-- A thread that finds the lock taken leaves all as it is.
pub act-taken_unused :
    (k m : ℕ) (c : Place) (s : Threads) → s.unused_owner ≡ some m → act k (lock_unused, c) s ≡ s
unfolding act
act-taken_unused k m c s h = ground arith

pub act-taken_used :
    (k m : ℕ) (c : Place) (s : Threads) → s.used_owner ≡ some m → act k (lock_used, c) s ≡ s
unfolding act
act-taken_used k m c s h = ground arith

act-IsOwned :
    (k : ℕ) (s : Threads) (a : Action × Place)
    → Keeps (s.place k) a
    → IsOwned s
    → IsOwned (act k a s)
unfolding act
act-IsOwned k s (lock_unused, d) h v = elim (Option-cases s.unused_owner) [
  | inr (m, taken) ↦ subst IsOwned (sym (act-taken_unused k m d s taken)) v
  | inl free ↦ rw free (record {
    unused = Owns-take holds_unused k d s.place (rw free at v.unused);
    used = Owns-same holds_used k d s.place s.used_owner h v.used;
  })
]
act-IsOwned k s (lock_used, d) h v = elim (Option-cases s.used_owner) [
  | inr (m, taken) ↦ subst IsOwned (sym (act-taken_used k m d s taken)) v
  | inl free ↦ rw free (record {
    unused = Owns-same holds_unused k d s.place s.unused_owner h v.unused;
    used = Owns-take holds_used k d s.place (rw free at v.used);
  })
]
act-IsOwned k s (unlock_unused, d) h v = record {
  unused = Owns-release holds_unused k d s.place s.unused_owner h.0 h.1 v.unused;
  used = Owns-same holds_used k d s.place s.used_owner h.2 v.used;
}
act-IsOwned k s (unlock_used, d) h v = record {
  unused = Owns-same holds_unused k d s.place s.unused_owner h.2 v.unused;
  used = Owns-release holds_used k d s.place s.used_owner h.0 h.1 v.used;
}
act-IsOwned k s (go, d) h v = record {
  unused = Owns-same holds_unused k d s.place s.unused_owner h.0 v.unused;
  used = Owns-same holds_used k d s.place s.used_owner h.1 v.used;
}

pub turn-IsOwned : (s : Threads) (t : ℕ × Choice) → IsOwned s → IsOwned (turn s t)
unfolding turn
turn-IsOwned s (k, choice) v =
    act-IsOwned k s (code choice (s.place k)) (code-Keeps choice (s.place k)) v

pub run-IsOwned : (s : Threads) (ts : List (ℕ × Choice)) → IsOwned s → IsOwned (run s ts)
unfolding run
run-IsOwned s [] v = v
run-IsOwned s (t ∷ ts) v = run-IsOwned (turn s t) ts (turn-IsOwned s t v)

-- Both places are inside the region of `unused_lock`, or both inside that of `used_lock`.
abbrev pub IsClash : Place → Place → Type 0
IsClash c d =
    ((holds_unused c ≡ true) × (holds_unused d ≡ true))
    ⊎ ((holds_used c ≡ true) × (holds_used d ≡ true))

-- In every interleaving of any number of threads that starts outside the pool, two threads between
-- the lock and the unlock of `unused_lock` are one thread, and so are two of `used_lock`.
pub run_exclusive :
    (ts : List (ℕ × Choice)) (k m : ℕ)
    → IsClash ((run at_rest ts).place k) ((run at_rest ts).place m)
    → k ≡ m
run_exclusive ts k m (inl (a, b)) =
    let v = run-IsOwned at_rest ts at_rest-IsOwned in
    some-injective _ _ (sym (v.unused k a) ∙ v.unused m b)
run_exclusive ts k m (inr (a, b)) =
    let v = run-IsOwned at_rest ts at_rest-IsOwned in
    some-injective _ _ (sym (v.used k a) ∙ v.used m b)
