-- ===== src/Pool/Locks.antt =====
-- The two locks of `SqlDBPool` under any number of threads, each of which calls `get_connection` or
-- `recycle_connection` over and over. A thread is known by its place in the code; a schedule says
-- which thread runs next and which way its branch goes, so every interleaving is a schedule. What the
-- lists hold is left open: any branch may be taken.
pub mod Exclusion
pub mod Deadlock
use amigao.Base.{ℕ, Bool, true, false, List, [], ◌∷◌, Option, none, some, ◌==◌, if◌then◌else◌}

pub data Place : Type 0 where
  -- outside the pool
  outside : Place
  -- get_connection: before its first lock, between the two, behind both
  get_unused get_used get_both : Place
  -- used_lock is free again: the pool was full, or a connection was popped
  full_out popped_out : Place
  -- unused_lock is free again, for add_connection
  few_out : Place
  -- add_connection: before and behind its lock
  add_unused add_held : Place
  -- recycle_connection: before its first lock, behind it, before the second, behind both, and
  -- with used_lock free again
  recycle_used recycle_held recycle_unused recycle_both recycle_out : Place

pub data Choice : Type 0 where
  -- which call a thread outside makes
  gets recycles : Choice
  -- how many connections get_connection finds
  full few enough : Choice
  -- whether recycle_connection finds its connection
  missing present : Choice

pub data Action : Type 0 where
  lock_unused lock_used unlock_unused unlock_used go : Action

-- The next action at a place, and the place behind it.
unfoldable pub code : Choice → Place → Action × Place
code recycles outside = (go, recycle_used)
code _ outside = (go, get_unused)
code _ get_unused = (lock_unused, get_used)
code _ get_used = (lock_used, get_both)
code full get_both = (unlock_used, full_out)
code few get_both = (unlock_unused, few_out)
code _ get_both = (unlock_used, popped_out)
code _ full_out = (unlock_unused, get_unused)
code _ popped_out = (unlock_unused, outside)
code _ few_out = (unlock_used, add_unused)
code _ add_unused = (lock_unused, add_held)
code _ add_held = (unlock_unused, get_unused)
code _ recycle_used = (lock_used, recycle_held)
code missing recycle_held = (unlock_used, outside)
code _ recycle_held = (go, recycle_unused)
code _ recycle_unused = (lock_unused, recycle_both)
code _ recycle_both = (unlock_used, recycle_out)
code _ recycle_out = (unlock_unused, outside)

-- Who holds each lock, and where each thread is.
pub record Threads : Type 0 where
  pub unused_owner : Option ℕ
  pub used_owner : Option ℕ
  pub place : ℕ → Place

abbrev pub moved : ℕ → Place → (ℕ → Place) → ℕ → Place
moved k c place m = if m == k then c else place m

-- A thread that finds a lock taken waits: the state stays.
unfoldable pub act : ℕ → Action × Place → Threads → Threads
act k (lock_unused, c) s = elim s.unused_owner [
  | none ↦ record s { unused_owner = some k; place = moved k c s.place }
  | some _ ↦ s
]
act k (lock_used, c) s = elim s.used_owner [
  | none ↦ record s { used_owner = some k; place = moved k c s.place }
  | some _ ↦ s
]
act k (unlock_unused, c) s = record s { unused_owner = none; place = moved k c s.place }
act k (unlock_used, c) s = record s { used_owner = none; place = moved k c s.place }
act k (go, c) s = record s { place = moved k c s.place }

unfoldable pub turn : Threads → ℕ × Choice → Threads
unfolding code act
turn s (k, choice) = act k (code choice (s.place k)) s

unfoldable pub run : Threads → List (ℕ × Choice) → Threads
run s [] = s
run s (t ∷ ts) = run (turn s t) ts

unfoldable pub at_rest : Threads
at_rest = record { unused_owner = none; used_owner = none; place = λ _. outside }
