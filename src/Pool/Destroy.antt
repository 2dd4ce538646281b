-- ===== src/Pool/Destroy.antt =====
-- Cutting heads off: `delete_connection` and the destructor.
use Prim.Native.Nat.{min}
use amigao.Base.{
  ℕ, zero, suc, ◌+◌, ◌-◌, ◌≤◌, true, false, List, [], ◌∷◌, none, ◌≡◌, ◌≢◌, refl, ap, ◌∙◌, ◌⊎◌, inl,
  inr, arith, ltb, Option-cases, ◌==◌, if◌then◌else◌, Bool-cases, length, All-drop, drop,
  length-drop,
}
use amigao.Pool.Defs.{
  SqlDbPool, close, close_all, delete_heads, delete_connection, destroy, recycle_connection,
}
use amigao.Pool.Nodes
use amigao.Pool.Nodes.{DbPoolNode, DbPoolList, find_node}
use amigao.Pool.Nodes.Distinct.{IsFresh, IsDistinct, IsNonNull, IsList}
use amigao.Pool.Nodes.Laws.{delete_head-cons, if_exist-some}
use amigao.Pool.Recycle.{recycle_connection_drops}
use amigao.Pool.Validity.{IsValid, IsBelow}

-- The list of the nodes `ns`, counted.
abbrev listed : List DbPoolNode → DbPoolList
listed ns = record { node_numbers = length ns; next = ns }

listed_lem : (l : DbPoolList) → IsList l → l ≡ listed l.next
listed_lem l v = ap (λ k. record l { node_numbers = k }) v.counted

delete_head-listed :
    (n : DbPoolNode) (ns : List DbPoolNode) → Nodes.delete_head (listed (n ∷ ns)) ≡ listed ns
delete_head-listed n ns =
    let less : suc (length ns) - 1 ≡ length ns = omega arith in
    delete_head-cons (suc (length ns)) n ns (omega arith)
    ∙ ap (λ k. record { node_numbers = k; next = ns }) less

delete_heads-drop :
    (n : ℕ) (ns : List DbPoolNode) → n ≤ length ns → delete_heads n (listed ns) ≡ listed (drop n ns)
unfolding delete_heads
delete_heads-drop zero ns h = refl
delete_heads-drop (suc n) [] h = absurd (omega arith)
delete_heads-drop (suc n) (p ∷ ps) h =
    rw (delete_head-listed p ps) (delete_heads-drop n ps (omega arith))

-- The sessions that are left when those of the nodes are closed, one by one.
abbrev pub closed : List DbPoolNode → List ℕ → List ℕ
closed [] live = live
closed (n ∷ ns) live = closed ns (close n.connection live)

close_all-closed :
    (ns : List DbPoolNode) (live : List ℕ)
    → close_all (length ns) (listed ns) live ≡ (listed [], closed ns live)
unfolding close_all Nodes.get_connection
close_all-closed [] live = refl
close_all-closed (n ∷ ns) live =
    let more : ltb 0 (suc (length ns)) ≡ true = ground arith in
    rw more (rw (delete_head-listed n ns) (close_all-closed ns (close n.connection live)))

close_all-IsList :
    (l : DbPoolList) (live : List ℕ)
    → IsList l
    → close_all l.node_numbers l live ≡ (listed [], closed l.next live)
close_all-IsList l live v =
    ap (λ m. close_all m.node_numbers m live) (listed_lem l v) ∙ close_all-closed l.next live

-- The destructor of a valid pool empties both lists, and closes the sessions of the connections in
-- use and then those of the idle ones, and no other session.
pub destroy-closed :
    (p : SqlDbPool)
    → IsValid p
    → let q = destroy p in
      (q.used_pool.next ≡ [])
      × (q.unused_pool.next ≡ [])
      × (q.live ≡ closed p.unused_pool.next (closed p.used_pool.next p.live))
unfolding destroy
destroy-closed p v = rw (close_all-IsList p.used_pool p.live v.used) (
    rw (close_all-IsList p.unused_pool (closed p.used_pool.next p.live) v.unused)
      (refl, refl, refl))

-- The session of the connection is open.
abbrev pub IsOpen : ℕ → List ℕ → Type 0
IsOpen c [] = ⊥
IsOpen c (x ∷ xs) = (x ≡ c) ⊎ IsOpen c xs

close-IsOpen : (c d : ℕ) (live : List ℕ) → d ≢ c → IsOpen c live → IsOpen c (close d live)
unfolding close
close-IsOpen c d [] ne h = h
close-IsOpen c d (x ∷ xs) ne (inl same) =
    let kept : (x == d) ≡ false = ground arith in rw kept (inl same)
close-IsOpen c d (x ∷ xs) ne (inr h) = elim (Bool-cases (x == d)) [
  | inl hit ↦ rw hit h
  | inr miss ↦ rw miss (inr (close-IsOpen c d xs ne h))
]

closed-IsOpen :
    (c : ℕ) (ns : List DbPoolNode) (live : List ℕ)
    → find_node c ns ≡ none
    → IsOpen c live
    → IsOpen c (closed ns live)
unfolding find_node
closed-IsOpen c [] live e h = h
closed-IsOpen c (n ∷ ns) live e h = elim (Bool-cases (n.connection == c)) [
  | inl hit ↦ cc (rw hit at e)
  | inr miss ↦
      closed-IsOpen c ns (close n.connection live) (rw miss at e)
        (close-IsOpen c n.connection live (ground arith) h)
]

find_node-if_exist :
    (l : DbPoolList) (c : ℕ)
    → IsList l
    → c ≢ 0
    → Nodes.if_exist l c ≡ false
    → find_node c l.next ≡ none
find_node-if_exist l c v h e = elim (Option-cases (find_node c l.next)) [
  | inl missing ↦ missing
  | inr (n, here) ↦ cc (if_exist-some l c v h here)
]

-- The session of a connection that is recycled while `unused_pool` is full is never closed: it is
-- still open when the pool has been destroyed.
pub recycle_connection_leaks :
    (p : SqlDbPool) (c : ℕ)
    → IsValid p
    → c ≢ 0
    → Nodes.if_exist p.used_pool c ≡ true
    → p.unused_pool.node_numbers ≡ p.max_idle
    → IsOpen c p.live
    → IsOpen c (destroy (recycle_connection c p)).live
recycle_connection_leaks p c v not_null leased full h =
    let q = recycle_connection c p in
    let (w, gone, idle, same) = recycle_connection_drops p c v not_null leased full in
    rw ((destroy-closed q w).2) (
      closed-IsOpen c q.unused_pool.next (closed q.used_pool.next q.live)
        (find_node-if_exist q.unused_pool c w.unused not_null idle)
        (closed-IsOpen c q.used_pool.next q.live
          (find_node-if_exist q.used_pool c w.used not_null gone) (rw same h)))

IsDistinct-drop : (n : ℕ) (ns : List DbPoolNode) → IsDistinct ns → IsDistinct (drop n ns)
IsDistinct-drop zero ns h = h
IsDistinct-drop (suc n) [] h = tt
IsDistinct-drop (suc n) (p ∷ ps) h = IsDistinct-drop n ps h.1

-- `delete_connection` keeps a valid pool valid. It takes idle connections from the front, as many as
-- asked for or as leave `min_idle`, and leaves the connections in use alone.
pub delete_connection-IsValid :
    (p : SqlDbPool) (n : ℕ)
    → IsValid p
    → let q = delete_connection n p in
      IsValid q
      × (q.unused_pool.next
          ≡ drop (min n (p.unused_pool.node_numbers - p.min_idle)) p.unused_pool.next)
      × (q.used_pool ≡ p.used_pool)
unfolding delete_connection
delete_connection-IsValid p n v =
    let k = min n (p.unused_pool.node_numbers - p.min_idle) in
    let clamped : (if ltb p.unused_pool.node_numbers (p.min_idle + n)
          then p.unused_pool.node_numbers - p.min_idle
          else n)
        ≡ k =
      ground arith in
    let ns = p.unused_pool.next in
    let cut =
      ap (delete_heads k) (listed_lem p.unused_pool v.unused)
      ∙ delete_heads-drop k ns (omega (arith, v.unused.counted)) in
    rw clamped (
      rw cut (
        record {
          unused = record {
            counted = refl;
            non_null = All-drop IsNonNull k ns v.unused.non_null;
            distinct = IsDistinct-drop k ns v.unused.distinct;
          };
          used = v.used;
          apart = All-drop (λ m. IsFresh m p.used_pool.next) k ns v.apart;
          unused_below = All-drop (IsBelow p.heap) k ns v.unused_below;
          used_below = v.used_below;
          heap_pos = v.heap_pos;
          unused_le = omega (arith, v.unused.counted, v.unused_le, length-drop k ns);
          used_le = v.used_le;
        },
        refl,
        refl,
      ))
