-- ===== src/Pool/Nodes.antt =====
-- `DBPoolList`: a chain of nodes with a counter. The chain that starts at `next` is the list of its
-- nodes; a node is known by its address, and a null pointer is 0. Every operation takes the list as
-- it is and returns it as it becomes. Allocation is the caller's: `new` hands its address over.
pub mod Distinct
pub mod Freed
pub mod Laws
pub mod Move
use mathlib.Core.List.{head?}
use amigao.Base.{
  ℕ, suc, ◌+◌, ◌-◌, Bool, true, false, not, ◌&&◌, ◌||◌, List, [], ◌∷◌, Option, none, some, ltb,
  ◌==◌, if◌then◌else◌,
}

pub record DbPoolNode : Type 0 where
  pub address : ℕ
  pub connection : ℕ

pub record DbPoolList : Type 0 where
  pub node_numbers : ℕ
  pub next : List DbPoolNode

unfoldable pub empty : DbPoolList
empty = record { node_numbers = 0; next = [] }

-- `for (; p && p->connection != connection; p = p->next)`: where the loop stops.
unfoldable pub find_node : ℕ → List DbPoolNode → Option DbPoolNode
find_node c [] = none
find_node c (p ∷ ps) = if p.connection == c then some p else find_node c ps

abbrev is_found : Option DbPoolNode → Bool
is_found none = false
is_found (some p) = true

-- `if_exist(void *)`
unfoldable pub if_exist : DbPoolList → ℕ → Bool
if_exist l c =
    if l.node_numbers == 0 then false else if c == 0 then true else is_found (find_node c l.next)

-- `for (; p && p != db_pool_node; p = p->next)`
unfoldable pub has_address : ℕ → List DbPoolNode → Bool
has_address a [] = false
has_address a (p ∷ ps) = p.address == a || has_address a ps

-- `if_exist(DBPoolNode *)`, a null pointer being `none`
unfoldable pub if_exist_node : DbPoolList → Option DbPoolNode → Bool
if_exist_node l none = not (l.node_numbers == 0)
if_exist_node l (some n) =
    if l.node_numbers == 0
    then false
    else if if_exist l n.connection
    then true
    else has_address n.address l.next

-- `add_node(DBPoolNode *)`
unfoldable pub add_node_ptr : DbPoolList → DbPoolNode → DbPoolList
add_node_ptr l n =
    if if_exist_node l (some n) && ltb 0 l.node_numbers
    then l
    else record { node_numbers = l.node_numbers + 1; next = n ∷ l.next }

-- `add_node(void *)`; `address` is what `new DBPoolNode` returns.
unfoldable pub add_node : DbPoolList → ℕ → ℕ → DbPoolList
add_node l address c =
    if if_exist l c then l else add_node_ptr l (record { address = address; connection = c })

-- The chain without its first node that holds the connection: the head is cut off, or the node
-- before it is linked to the one behind it.
unfoldable pub unlink : ℕ → List DbPoolNode → List DbPoolNode
unlink c [] = []
unlink c (p ∷ ps) = if p.connection == c then ps else p ∷ unlink c ps

-- `delete_node(void *)`
unfoldable pub delete_node : DbPoolList → ℕ → DbPoolList
delete_node l c =
    if not (if_exist l c) || c == 0 || not (is_found (find_node c l.next))
    then l
    else record { node_numbers = l.node_numbers - 1; next = unlink c l.next }

abbrev rest_of : List DbPoolNode → List DbPoolNode
rest_of [] = []
rest_of (p ∷ ps) = ps

-- `delete_node(DBPoolNode *)`. Its loop steps by `q = 0, p = p->next`: `q` is null wherever it
-- stops, so the head is deleted, whichever node was found.
unfoldable pub delete_node_ptr : DbPoolList → Option DbPoolNode → DbPoolList
delete_node_ptr l none = l
delete_node_ptr l (some n) =
    if not (if_exist_node l (some n)) || not (has_address n.address l.next)
    then l
    else record { node_numbers = l.node_numbers - 1; next = rest_of l.next }

-- `delete_node()`
unfoldable pub delete_head : DbPoolList → DbPoolList
delete_head l = delete_node_ptr l (head? l.next)

abbrev connection_or_null : Option DbPoolNode → ℕ
connection_or_null none = 0
connection_or_null (some n) = n.connection

unfoldable pub get_connection : DbPoolList → ℕ
get_connection l = connection_or_null (head? l.next)

-- `move_node`, on two different lists: this list and `dest`.
unfoldable pub move_node : DbPoolList → DbPoolList → ℕ → DbPoolList × DbPoolList
move_node l dest c =
    if c == 0 || if_exist dest c || not (if_exist l c)
    then (l, dest)
    else elim (find_node c l.next) [
      | none ↦ (l, dest)
      | some p ↦ (
        record { node_numbers = l.node_numbers - 1; next = unlink c l.next },
        add_node_ptr dest p,
      )
    ]

-- `pop_connection2(dest, connection)`, whose `dest` is another list; it returns the connection.
unfoldable pub pop_connection2 : DbPoolList → DbPoolList → ℕ → DbPoolList × DbPoolList
pop_connection2 l dest c = move_node l dest c

-- `while (q) { delete p; p = q; q = q->next; } delete p;`: the addresses that are deleted.
unfoldable pub delete_from : DbPoolNode → List DbPoolNode → List ℕ
delete_from p [] = p.address ∷ []
delete_from p (q ∷ qs) = p.address ∷ delete_from q qs

-- The destructor; `none` is the read of a null pointer where the counter says that there are nodes.
unfoldable pub delete_all : DbPoolList → Option (List ℕ)
unfolding delete_from
delete_all l =
    if l.node_numbers == 0
    then some []
    else elim l.next [ [] ↦ none | p ∷ ps ↦ some (delete_from p ps) ]
