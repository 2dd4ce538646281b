-- ===== src/Tests/Pool.antt =====
-- The connection pool at concrete states: limits of three leases and two idle connections, with one
-- idle connection kept back.
use amigao.Base.{ℕ, ◌+◌, Bool, true, List, [], ◌∷◌, some, ◌≡◌, inl, inr, refl, arith}
use amigao.Pool.{
  Limits, SqlDbPool, initial, adopt, adopt_all, add_connection, constructed, get_connection, got,
  recycle_connection, destroy,
}
use amigao.Pool.Acquire.{IsLeased, get_connection-IsLeased}
use amigao.Pool.Destroy.{IsOpen, recycle_connection_leaks}
use amigao.Pool.Locks.Deadlock.{clash, IsDeadlocked, run_deadlocks}
use amigao.Pool.Locks.Exclusion.{holds_unused, run_exclusive}
use amigao.Pool.Locks.{Choice, gets, enough, turn, act, code, run, at_rest}
use amigao.Pool.Nodes.{DbPoolNode, DbPoolList, if_exist, find_node, has_address, delete_node_ptr}
use amigao.Pool.Nodes
use amigao.Pool.Starve.{get_connection_serves}
use amigao.Pool.Validity.{IsValid}

abbrev up : ℕ → Bool
up c = true

abbrev small : Limits
small = record { max_conn = 3; max_idle = 2; min_idle = 1 }

abbrev tight : Limits
tight = record { max_conn = 3; max_idle = 1; min_idle = 1 }

abbrev node : ℕ → DbPoolNode
node c = record { address = c + 1; connection = c }

abbrev list : List DbPoolNode → ℕ → DbPoolList
list ns n = record { node_numbers = n; next = ns }

-- One connection idle, one leased.
abbrev one_each : SqlDbPool
one_each = record {
  limits = small;
  unused_pool = list (node 3 ∷ []) 1;
  used_pool = list (node 1 ∷ []) 1;
  live = 1 ∷ 3 ∷ [];
  heap = 5;
}

-- Two connections idle, one leased.
abbrev two_idle : SqlDbPool
two_idle = record {
  limits = small;
  unused_pool = list (node 5 ∷ node 3 ∷ []) 2;
  used_pool = list (node 1 ∷ []) 1;
  live = 5 ∷ 1 ∷ 3 ∷ [];
  heap = 7;
}

-- One of the idle connections of `two_idle` leased.
abbrev two_leased : SqlDbPool
two_leased = record two_idle {
  unused_pool = list (node 3 ∷ []) 1;
  used_pool = list (node 5 ∷ node 1 ∷ []) 2;
}

one_each-IsValid : IsValid one_each
one_each-IsValid = record {
  unused = record { counted = refl; non_null = ground arith; distinct = ground arith };
  used = record { counted = refl; non_null = ground arith; distinct = ground arith };
  apart = ground arith;
  unused_below = ground arith;
  used_below = ground arith;
  heap_pos = omega arith;
  unused_le = omega arith;
  used_le = omega arith;
}

two_idle-IsValid : IsValid two_idle
two_idle-IsValid = record {
  unused = record { counted = refl; non_null = ground arith; distinct = ground arith };
  used = record { counted = refl; non_null = ground arith; distinct = ground arith };
  apart = ground arith;
  unused_below = ground arith;
  used_below = ground arith;
  heap_pos = omega arith;
  unused_le = omega arith;
  used_le = omega arith;
}

-- A lease that first has to connect, and a give-back.
runs :
    (get_connection up 2 two_idle ≡ got 5 two_leased)
    × (constructed up tight ≡ some (adopt (initial tight)))
    × (recycle_connection 5 two_leased
        ≡ record two_idle { unused_pool = list (node 5 ∷ node 3 ∷ []) 2 })
    × (if_exist one_each.used_pool 1 ≡ true)
    × (if_exist two_idle.used_pool 1 ≡ true)
    × (has_address 2 (node 5 ∷ node 1 ∷ []) ≡ true)
unfolding get_connection constructed add_connection adopt_all adopt initial Nodes.add_node
    Nodes.if_exist_node Nodes.add_node_ptr Nodes.empty recycle_connection Nodes.pop_connection2
    Nodes.move_node Nodes.if_exist Nodes.find_node Nodes.unlink Nodes.get_connection
    Nodes.has_address
runs = (refl, refl, refl, refl, refl, refl)

get_connection-IsLeased_example : IsLeased two_idle 5 two_leased
get_connection-IsLeased_example = get_connection-IsLeased up 2 two_idle two_idle-IsValid runs.0

get_connection_serves_example :
    (c : ℕ) × (q : SqlDbPool) × (get_connection up 2 one_each ≡ got c q) × IsLeased one_each c q
get_connection_serves_example =
    get_connection_serves up (λ c. refl) 0 one_each one_each-IsValid (omega arith) (omega arith)

recycle_connection_leaks_example : IsOpen 1 (destroy (recycle_connection 1 two_idle)).live
recycle_connection_leaks_example =
    recycle_connection_leaks two_idle 1 two_idle-IsValid (omega arith) runs.4 refl (inr (inl refl))

abbrev thread : ℕ
thread = 7

-- Thread 7 takes `unused_lock`.
abbrev one_inside : List (ℕ × Choice)
one_inside = (thread, gets) ∷ (thread, enough) ∷ []

one_inside_holds : holds_unused ((run at_rest one_inside).place thread) ≡ true
unfolding run turn act code at_rest
one_inside_holds = refl

run_exclusive_example : thread ≡ thread
run_exclusive_example =
    run_exclusive one_inside thread thread (inl (one_inside_holds, one_inside_holds))

run_deadlocks_example : IsDeadlocked 0 1 (run (run at_rest (clash 0 1)) one_inside)
run_deadlocks_example = run_deadlocks 0 1 one_inside (omega arith)
