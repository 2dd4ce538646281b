-- ===== src/Weights/Updated.antt =====
-- What `update_weight` makes of the text of a word.
use mathlib.Core.Path.{subst}
use mathlib.Core.List.{append_assoc, append-nil}
use amigao.Base.{
  All-append, ℕ, suc, ◌<◌, ◌≤◌, true, false, ◌&&◌, List, [], ◌∷◌, ◌++◌, Option, some, ◌≡◌, refl,
  arith, inl, inr, ◌==◌, ltb, leb, if◌then◌else◌, Bytes, sym, ap, ◌∙◌, Bool-cases, length,
  length-append,
}
use amigao.Decimal.{print_number, read_number-print_number, IsLed, print_number-IsLed}
use amigao.Weights.{finished, left, limit_nodes, put_node, update_weight, insert_into}
use amigao.Weights.Scan.{◌>>=◌, split_at, split_last, Lacks, split_at-Lacks, split_last-Lacks}
use amigao.Weights.Nodes.{Node, node_text, nodes_text, nodes_text-append, text_of, number-Lacks_bar}
use amigao.Weights.Places.{without}
use amigao.Weights.Removed.{leave, remove_node-without}
use amigao.Weights.Inserted.{placed, insert_into-placed}

-- All nodes but the last.
abbrev pub first_nodes : List Node → List Node
first_nodes [] = []
first_nodes (n ∷ []) = []
first_nodes (n ∷ m ∷ ns) = n ∷ first_nodes (m ∷ ns)

abbrev pub limited : ℕ → Node → List Node → List Node
limited max_urls n ns = if length ns == max_urls then first_nodes (placed n ns) else placed n ns

-- The nodes once the url has this weight: the only node of a word is replaced.
abbrev pub replaced : ℕ → Node → List Node → List Node
replaced max_urls n [] = n ∷ []
replaced max_urls n (m ∷ ns) = limited max_urls n (m ∷ ns)

abbrev pub updated : ℕ → Node → List Node → List Node
updated max_urls n ns = replaced max_urls n (without n.1 ns)

pub length-placed : (n : Node) (ns : List Node) → length (placed n ns) ≡ suc (length ns)
length-placed (weight, url_no) [] = refl
length-placed (weight, url_no) ((w, v) ∷ ns) = elim (Bool-cases (ltb weight w)) [
  | inl h ↦ rw (h, length-placed (weight, url_no) ns)
  | inr h ↦ rw h
]

-- All nodes and the last one.
last_one : (n : Node) (ns : List Node) → (m : Node) × (n ∷ ns ≡ first_nodes (n ∷ ns) ++ m ∷ [])
last_one n [] = (n, refl)
last_one n (k ∷ ns) = let (m, e) = last_one k ns in (m, ap (λ l. n ∷ l) e)

node-Lacks_bar : (n : Node) → Lacks b'|' (print_number n.0 ++ b'_' ∷ print_number n.1)
node-Lacks_bar n =
    All-append (λ d. (d == b'|') ≡ false) (print_number n.0) (b'_' ∷ print_number n.1)
      (number-Lacks_bar n.0) (refl, number-Lacks_bar n.1)

split_last-first_nodes :
    (head : Bytes) (n : Node) (ns : List Node)
    → (behind : Bytes) × (split_last b'|' (head ++ nodes_text (n ∷ ns))
        ≡ some (head ++ nodes_text (first_nodes (n ∷ ns)), behind))
split_last-first_nodes head n ns =
    let (m, e) = last_one n ns in
    (
      print_number m.0 ++ b'_' ∷ print_number m.1,
      ap (λ l. split_last b'|' (head ++ nodes_text l)) e
          ∙ ap (λ t. split_last b'|' (head ++ t))
              (nodes_text-append (first_nodes (n ∷ ns)) (m ∷ [])
                ∙ ap (λ t. nodes_text (first_nodes (n ∷ ns)) ++ t) (append-nil (node_text m)))
          ∙ ap (split_last b'|')
              (sym (append_assoc head (nodes_text (first_nodes (n ∷ ns))) (node_text m)))
          ∙ split_last-Lacks b'|' (head ++ nodes_text (first_nodes (n ∷ ns)))
              (print_number m.0 ++ b'_' ∷ print_number m.1) (node-Lacks_bar m),
    )

pub length-first_nodes : (n : Node) (ns : List Node) → length (first_nodes (n ∷ ns)) ≡ length ns
length-first_nodes n [] = refl
length-first_nodes n (m ∷ ns) = ap suc (length-first_nodes m ns)

limit_nodes-nodes :
    (max_urls nums : ℕ) (n : Node) (ns : List Node)
    → length ns ≡ nums
    → limit_nodes max_urls nums (print_number nums ++ nodes_text (n ∷ ns))
      ≡ some (text_of (if nums == max_urls then first_nodes (n ∷ ns) else n ∷ ns))
unfolding limit_nodes
limit_nodes-nodes max_urls nums n ns e = elim (Bool-cases (nums == max_urls)) [
  | inl full ↦
      rw (limit_nodes, full, (split_last-first_nodes (print_number nums) n ns).1)
        (ap (λ l. some (print_number l ++ nodes_text (first_nodes (n ∷ ns))))
          (sym e ∙ sym (length-first_nodes n ns)))
  | inr room ↦
      let more : Bytes = (print_number n.0 ++ b'_' ∷ print_number n.1) ++ nodes_text ns in
      rw (limit_nodes, room, split_at-Lacks b'|' (print_number nums) more (number-Lacks_bar nums))
        (ap (λ l. some (print_number l ++ nodes_text (n ∷ ns))) (omega arith))
]

placed-more : (n : Node) (ns : List Node) → (m : Node) × (ms : List Node) × (placed n ns ≡ m ∷ ms)
placed-more (weight, url_no) [] = ((weight, url_no), [], refl)
placed-more (weight, url_no) ((w, v) ∷ ns) = elim (Bool-cases (ltb weight w)) [
  | inl h ↦ ((w, v), placed (weight, url_no) ns, rw h)
  | inr h ↦ ((weight, url_no), (w, v) ∷ ns, rw h)
]

limit_nodes-limited :
    (max_urls : ℕ) (n : Node) (ns : List Node)
    → limit_nodes max_urls (length ns) (print_number (length ns) ++ nodes_text (placed n ns))
      ≡ some (text_of (limited max_urls n ns))
limit_nodes-limited max_urls n ns =
    let (m, ms, e) = placed-more n ns in
    let more : suc (length ms) ≡ suc (length ns) = ap length (sym e) ∙ length-placed n ns in
    subst
      (λ l.
        limit_nodes max_urls (length ns) (print_number (length ns) ++ nodes_text l)
        ≡ some (text_of (if length ns == max_urls then first_nodes l else l)))
      (sym e) (limit_nodes-nodes max_urls (length ns) m ms (omega arith))

pub length-nodes_text : (ns : List Node) → length ns ≤ length (nodes_text ns)
length-nodes_text [] = omega arith
length-nodes_text (n ∷ ns) =
    let rest = length-nodes_text ns in omega (arith, length-append (node_text n) (nodes_text ns))

length-text : (n : Node) (ns : List Node) → length ns < length (text_of (n ∷ ns))
length-text n ns =
    let nodes = length-nodes_text (n ∷ ns) in
    omega (arith, length-append (print_number (length (n ∷ ns))) (nodes_text (n ∷ ns)))

print-one : print_number 1 ≡ b'1' ∷ []
unfolding print_number
print-one = refl

-- What the code does with the nodes that are left.
put_left :
    (max_urls : ℕ) (n : Node) (ns : List Node)
    → (elim (leave (node_text n) ns) [
      | finished text ↦ some text
      | left nums text ↦
          (split_at b'|' text >>= λ split.
          insert_into (length text) n.0 (node_text n) split.1 >>= λ inserted.
          limit_nodes max_urls nums (split.0 ++ inserted))
    ])
      ≡ some (text_of (replaced max_urls n ns))
put_left max_urls n [] = rw (print-one, append-nil (node_text n))
put_left max_urls (weight, url_no) (m ∷ ns) =
    let nums : Bytes = print_number (length (m ∷ ns)) in
    let more : Bytes = (print_number m.0 ++ b'_' ∷ print_number m.1) ++ nodes_text ns in
    rw
      (
        split_at-Lacks b'|' nums more (number-Lacks_bar (length (m ∷ ns))),
        insert_into-placed (length (text_of (m ∷ ns))) weight url_no m ns (length-text m ns),
      )
      (limit_nodes-limited max_urls (weight, url_no) (m ∷ ns))

put_node-updated :
    (max_urls : ℕ) (n m : Node) (ns : List Node)
    → put_node max_urls n.0 (print_number n.1) (node_text n) (text_of (m ∷ ns))
      ≡ some (text_of (updated max_urls n (m ∷ ns)))
unfolding put_node
put_node-updated max_urls n m ns =
    let nums = length (m ∷ ns) in
    let more : Bytes = (print_number m.0 ++ b'_' ∷ print_number m.1) ++ nodes_text ns in
    rw
      (
        put_node,
        split_at-Lacks b'|' (print_number nums) more (number-Lacks_bar nums),
        read_number-print_number nums,
        remove_node-without n.1 (node_text n) m ns,
      )
      (put_left max_urls n (without n.1 (m ∷ ns)))

led_branch :
    (digits text : Bytes) (changed : Option Bytes)
    → IsLed b'1' digits
    → (elim digits [
      | [] ↦ some text
      | c ∷ _ ↦ if ltb b'0' c && leb c b'9' then changed else some text
    ])
      ≡ changed
led_branch [] text changed h = absurd h
led_branch (c ∷ cs) text changed h =
    let digit : (ltb b'0' c && leb c b'9') ≡ true = ground arith in rw digit

-- On the text of a word with at least one node, `update_weight` always comes to an end within the bounds
-- of the text, and gives the text of the nodes without the url, with the url put in front of the first
-- node that is not heavier, and with the last node dropped where there were as many others as may be; the
-- only node of a word is replaced.
pub update_weight-updated :
    (max_urls cur_weight cur_url_no : ℕ) (n : Node) (ns : List Node)
    → 0 < cur_weight
    → update_weight max_urls cur_weight cur_url_no (text_of (n ∷ ns))
      ≡ some (text_of (updated max_urls (cur_weight, cur_url_no) (n ∷ ns)))
unfolding update_weight
update_weight-updated max_urls cur_weight cur_url_no n ns h =
    let positive : (cur_weight == 0) ≡ false = ground arith in
    let text : Bytes = text_of (n ∷ ns) in
    let node : Bytes = node_text (cur_weight, cur_url_no) in
    rw (update_weight, positive)
      (led_branch (print_number cur_weight) text
          (put_node max_urls cur_weight (print_number cur_url_no) node text)
          (print_number-IsLed cur_weight 1 (omega arith) h)
        ∙ put_node-updated max_urls (cur_weight, cur_url_no) n ns)
