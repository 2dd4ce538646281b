-- ===== src/Pool/Nodes/Laws.antt =====
-- The operations of `DBPoolList` on well-formed lists.
use amigao.Base.{
  ℕ, ◌<◌, ◌+◌, ◌-◌, Bool, true, false, List, [], ◌∷◌, Option, none, some, ◌≡◌, ◌≢◌, refl, ap, ◌∙◌,
  inl, inr, arith, ◌==◌, Bool-cases, length,
}
use amigao.Pool.Nodes.Distinct.{
  IsFresh, IsNonNull, IsList, IsFresh-find_node, IsFresh-has_address, find_node-connection,
  unlink-All, unlink-IsDistinct, length-unlink,
}
use amigao.Pool.Nodes.{
  DbPoolNode, DbPoolList, find_node, has_address, if_exist, if_exist_node, add_node_ptr, add_node,
  unlink, delete_node, delete_node_ptr, delete_head, move_node,
}

-- The list with a node in front, and the list without the node of a connection.
abbrev pub pushed : DbPoolNode → DbPoolList → DbPoolList
pushed n l = record { node_numbers = l.node_numbers + 1; next = n ∷ l.next }

abbrev pub without : ℕ → DbPoolList → DbPoolList
without c l = record { node_numbers = l.node_numbers - 1; next = unlink c l.next }

abbrev found : Option DbPoolNode → Bool
found none = false
found (some n) = true

find_node_nil : (c : ℕ) (ns : List DbPoolNode) → length ns ≡ 0 → find_node c ns ≡ none
unfolding find_node
find_node_nil c [] h = refl
find_node_nil c (n ∷ ns) h = absurd (omega arith)

-- On a well-formed list `if_exist` is the search of the chain, for every connection.
pub if_exist_lem :
    (l : DbPoolList) (c : ℕ) → IsList l → c ≢ 0 → if_exist l c ≡ found (find_node c l.next)
unfolding if_exist
if_exist_lem l c v h =
    let not_null : (c == 0) ≡ false = ground arith in
    elim (Bool-cases (l.node_numbers == 0)) [
      | inl none_left ↦
          let short : length l.next ≡ 0 = ground arith in
          rw none_left (rw (find_node_nil c l.next short))
      | inr some_left ↦ rw some_left (rw not_null)
    ]

pub if_exist-none :
    (l : DbPoolList) (c : ℕ) → IsList l → c ≢ 0 → find_node c l.next ≡ none → if_exist l c ≡ false
if_exist-none l c v h e = if_exist_lem l c v h ∙ rw e

pub if_exist-some :
    (l : DbPoolList) (c : ℕ) {n : DbPoolNode}
    → IsList l
    → c ≢ 0
    → find_node c l.next ≡ some n
    → if_exist l c ≡ true
if_exist-some l c v h e = if_exist_lem l c v h ∙ rw e

pub add_node_ptr-pushed :
    (l : DbPoolList) (n : DbPoolNode)
    → IsList l
    → IsNonNull n
    → IsFresh n l.next
    → add_node_ptr l n ≡ pushed n l
unfolding add_node_ptr if_exist_node
add_node_ptr-pushed l n v h fresh =
    let missing = if_exist-none l n.connection v h (IsFresh-find_node n l.next fresh) in
    let elsewhere = IsFresh-has_address n l.next fresh in ground arith

-- A node that is apart from the others goes to the front.
pub add_node-pushed :
    (l : DbPoolList) (address c : ℕ)
    → IsList l
    → c ≢ 0
    → IsFresh (record { address = address; connection = c }) l.next
    → add_node l address c ≡ pushed (record { address = address; connection = c }) l
unfolding add_node
add_node-pushed l address c v h fresh =
    rw
      (if_exist-none l c v h
        (IsFresh-find_node (record { address = address; connection = c }) l.next fresh))
      (add_node_ptr-pushed l (record { address = address; connection = c }) v h fresh)

-- A connection of the list moves with its node to the front of the other list.
pub move_node-found :
    (l dest : DbPoolList) (c : ℕ) (n : DbPoolNode)
    → IsList l
    → IsList dest
    → c ≢ 0
    → find_node c l.next ≡ some n
    → IsFresh n dest.next
    → move_node l dest c ≡ (without c l, pushed n dest)
unfolding move_node
move_node-found l dest c n v w h e fresh =
    let named = find_node-connection c l.next e in
    let here = if_exist-some l c v h e in
    let away = if_exist-none dest c w h (rw named at (IsFresh-find_node n dest.next fresh)) in
    let not_null : (c == 0) ≡ false = ground arith in
    let node_not_null : IsNonNull n = ground arith in
    rw not_null (
      rw away (
        rw here
          (rw e (ap (λ d. (without c l, d)) (add_node_ptr-pushed dest n w node_not_null fresh)))))

pub pushed-IsList :
    (n : DbPoolNode) (l : DbPoolList)
    → IsList l
    → IsNonNull n
    → IsFresh n l.next
    → IsList (pushed n l)
pushed-IsList n l v h fresh = record {
  counted = omega (arith, v.counted);
  non_null = (h, v.non_null);
  distinct = (fresh, v.distinct);
}

pub without-IsList :
    (c : ℕ) (l : DbPoolList) {n : DbPoolNode}
    → IsList l
    → find_node c l.next ≡ some n
    → IsList (without c l)
without-IsList c l v e = record {
  counted = omega (arith, v.counted, length-unlink c l.next e);
  non_null = unlink-All c IsNonNull l.next v.non_null;
  distinct = unlink-IsDistinct c l.next v.distinct;
}

-- A connection of the list is deleted with its node.
pub delete_node-found :
    (l : DbPoolList) (c : ℕ) {n : DbPoolNode}
    → IsList l
    → c ≢ 0
    → find_node c l.next ≡ some n
    → delete_node l c ≡ without c l
unfolding delete_node
delete_node-found l c v h e =
    let here = if_exist-some l c v h e in
    let not_null : (c == 0) ≡ false = ground arith in rw here (rw not_null (rw e))

-- `delete_node(DBPoolNode *)` cuts the head off, whichever node of the list it is given.
pub delete_node_ptr-head :
    (k : ℕ) (n m : DbPoolNode) (ns : List DbPoolNode)
    → 0 < k
    → has_address m.address (n ∷ ns) ≡ true
    → delete_node_ptr (record { node_numbers = k; next = n ∷ ns }) (some m)
      ≡ record { node_numbers = k - 1; next = ns }
unfolding delete_node_ptr if_exist_node
delete_node_ptr-head k n m ns pos h =
    let some_left : (k == 0) ≡ false = ground arith in
    elim (Bool-cases (if_exist (record { node_numbers = k; next = n ∷ ns }) m.connection)) [
      | inl here ↦ rw some_left (rw here (rw h))
      | inr away ↦ rw some_left (rw away (rw h))
    ]

-- `delete_node()` cuts the head off.
pub delete_head-cons :
    (k : ℕ) (n : DbPoolNode) (ns : List DbPoolNode)
    → 0 < k
    → delete_head (record { node_numbers = k; next = n ∷ ns })
      ≡ record { node_numbers = k - 1; next = ns }
unfolding delete_head has_address
delete_head-cons k n ns pos = delete_node_ptr-head k n n ns pos (ground arith)
