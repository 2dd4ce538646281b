-- ===== src/Tests/Clients.antt =====
-- Two threads that note the nice value of a website, over a pool of the server.
use amigao.Base.{ℕ, ◌+◌, ◌≤◌, ◌<◌, Bool, true, List, [], ◌∷◌, some, ◌≡◌, refl, arith, All, codes}
use amigao.Clients.Counts.{times_held}
use amigao.Clients.Ends.{IsWaiting, starved}
use amigao.Clients.Room.{started_has_room}
use amigao.Clients.Shared.{IsShared, started-IsShared}
use amigao.Clients.{Client, client, starting, adds, leases, Turn}
use amigao.Interleaving.{here, there, Steps, none_left, then_step}
use amigao.Pool.Nodes
use amigao.Pool.Nodes.{DbPoolNode}
use amigao.Pool.Validity.{IsValid}
use amigao.Pool.{Limits, SqlDbPool, initial, adopt, adopt_all, add_connection, constructed}
use amigao.Sql.Leases.{Holds, op_website_nice-Holds}
use amigao.Sql.Program.{Program, lease}
use amigao.Sql.Urls.{op_website_nice, is_refused}

abbrev up : ℕ → Bool
up c = true

-- A place for three connections of either thread.
abbrev roomy : Limits
roomy = record { max_conn = 6; max_idle = 2; min_idle = 1 }

abbrev notes : Program (Unit {0})
notes = op_website_nice (codes "a.org/") (codes "3")

-- What is left behind a lease.
abbrev after_lease : Program (Unit {0}) → Program (Unit {0})
after_lease (lease k) = k
after_lease p = p

abbrev node : ℕ → DbPoolNode
node c = record { address = c + 1; connection = c }

abbrev built : SqlDbPool
built = record {
  limits = roomy;
  unused_pool = record { node_numbers = 1; next = node 1 ∷ [] };
  used_pool = record { node_numbers = 0; next = [] };
  live = 1 ∷ [];
  heap = 3;
}

abbrev grown : SqlDbPool
grown = record built {
  unused_pool = record { node_numbers = 2; next = node 3 ∷ node 1 ∷ [] };
  live = 3 ∷ 1 ∷ [];
  heap = 5;
}

abbrev leased : SqlDbPool
leased = record grown {
  unused_pool = record { node_numbers = 1; next = node 1 ∷ [] };
  used_pool = record { node_numbers = 1; next = node 3 ∷ [] };
}

builds : (constructed up roomy ≡ some built) × (add_connection up 1 built ≡ some grown)
unfolding constructed add_connection adopt_all adopt initial Nodes.add_node Nodes.if_exist_node
    Nodes.add_node_ptr Nodes.empty Nodes.if_exist Nodes.find_node Nodes.has_address
builds = (refl, refl)

abbrev one_at_work : List (Client (Unit {0}))
one_at_work = client [] notes ∷ client (3 ∷ []) (after_lease notes) ∷ []

-- The second thread adds a connection and takes it.
second_runs : Steps (Turn up) (starting (notes ∷ notes ∷ [])) built one_at_work leased
unfolding op_website_nice is_refused Nodes.get_connection Nodes.pop_connection2 Nodes.move_node
    Nodes.if_exist Nodes.if_exist_node Nodes.add_node_ptr Nodes.find_node Nodes.unlink
    Nodes.has_address
second_runs =
    then_step (there (here (adds 1 builds.1)))
      (then_step (there (here (leases (omega arith) (omega arith)))) none_left)

both_hold : All (Holds 3 0 0) (notes ∷ notes ∷ [])
both_hold = (
  op_website_nice-Holds (codes "a.org/") (codes "3"),
  (op_website_nice-Holds (codes "a.org/") (codes "3"), tt),
)

started-IsShared_example :
    IsShared 3 roomy [] one_at_work leased × ((c : ℕ) → times_held c one_at_work ≤ 1)
started-IsShared_example =
    started-IsShared 3 roomy up (notes ∷ notes ∷ []) one_at_work leased builds.0 both_hold
      second_runs

started_has_room_example : leased.used_pool.node_numbers < leased.max_conn
unfolding op_website_nice is_refused
started_has_room_example =
    started_has_room 3 roomy up (notes ∷ notes ∷ []) [] (client (3 ∷ []) (after_lease notes) ∷ [])
      [] (after_lease notes) leased (omega arith) builds.0 both_hold second_runs

-- Two connections at most, and either thread has one of them and wants its second.
abbrev full : SqlDbPool
full = record {
  limits = record { max_conn = 2; max_idle = 2; min_idle = 1 };
  unused_pool = record { node_numbers = 1; next = node 5 ∷ [] };
  used_pool = record { node_numbers = 2; next = node 3 ∷ node 1 ∷ [] };
  live = 5 ∷ 3 ∷ 1 ∷ [];
  heap = 7;
}

full-IsValid : IsValid full
full-IsValid = record {
  unused = record { counted = refl; non_null = ground arith; distinct = ground arith };
  used = record { counted = refl; non_null = ground arith; distinct = ground arith };
  apart = ground arith;
  unused_below = ground arith;
  used_below = ground arith;
  heap_pos = omega arith;
  unused_le = omega arith;
  used_le = omega arith;
}

abbrev both_nested : List (Client (Unit {0}))
both_nested = client (3 ∷ []) (after_lease notes) ∷ client (1 ∷ []) (after_lease notes) ∷ []

both_wait : All (λ t. IsWaiting t.program) both_nested
unfolding op_website_nice is_refused
both_wait = (tt, (tt, tt))

-- The first thread adds a connection, which helps nobody.
abbrev fuller : SqlDbPool
fuller = record full {
  unused_pool = record { node_numbers = 2; next = node 7 ∷ node 5 ∷ [] };
  live = 7 ∷ 5 ∷ 3 ∷ 1 ∷ [];
  heap = 9;
}

adds_in_vain : add_connection up 1 full ≡ some fuller
unfolding add_connection adopt_all adopt Nodes.add_node Nodes.if_exist_node Nodes.add_node_ptr
    Nodes.if_exist Nodes.find_node Nodes.has_address
adds_in_vain = refl

first_runs : Steps (Turn up) both_nested full both_nested fuller
unfolding op_website_nice is_refused
first_runs = then_step (here (adds 1 adds_in_vain)) none_left

starved_example : both_nested ≡ both_nested
starved_example =
    starved up both_nested full both_nested fuller full-IsValid refl both_wait first_runs
