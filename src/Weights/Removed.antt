-- ===== src/Weights/Removed.antt =====
-- Taking the node of a url out of a text of weights.
use mathlib.Core.Path.{subst}
use mathlib.Core.List.{append_assoc, append-nil}
use amigao.Base.{
  ℕ, suc, ◌+◌, ◌-◌, Bool, true, false, List, [], ◌∷◌, ◌++◌, none, some, ◌≡◌, refl, arith, inl, inr,
  ◌==◌, if◌then◌else◌, Bytes, sym, ap, ◌∙◌, text_eq, length, length-append, drop,
}
use amigao.Decimal.{print_number}
use amigao.Weights.{Removal, finished, left, remove_node}
use amigao.Weights.Scan.{
  ◌>>=◌, prepend, split_at, split_last, split_text, Lacks, split_text-Lacks, split_at-Lacks,
  split_last-Lacks,
}
use amigao.Weights.Nodes.{
  text_of, Node, node_text, nodes_text, nodes_text-append, number-Lacks_mark, number-Lacks_bar,
  text_eq-numbers,
}
use amigao.Weights.Found.{weight-Lacks_mark, node-split, found, pattern, split_text-found}
use amigao.Weights.Places.{without, where_is}

drop-append : (xs ys : Bytes) → drop (length xs) (xs ++ ys) ≡ ys
drop-append [] ys = refl
drop-append (x ∷ xs) ys = drop-append xs ys

module _ (cur_nums : ℕ) (url_no insert_node head text before : Bytes) where
  remove_node-none :
      (last front behind : Bytes)
      → split_text (b'_' ∷ url_no ++ b'|' ∷ []) text ≡ none
      → split_last b'_' text ≡ some (before, last)
      → split_last b'|' before ≡ some (front, behind)
      → remove_node cur_nums url_no insert_node head text ≡ (
          if text_eq last url_no
          then (if cur_nums == 1
              then some (finished (b'1' ∷ insert_node))
              else some
                  (left (cur_nums - 1) (print_number (cur_nums - 1) ++ drop (length head) front)))
          else some (left cur_nums text))
  unfolding remove_node
  remove_node-none last front behind s l b = rw (remove_node, s, l, b)

  remove_node-some :
      (from to_mark mark node rest : Bytes)
      → split_text (b'_' ∷ url_no ++ b'|' ∷ []) text ≡ some (before, from)
      → split_at b'_' (drop (length head) text) ≡ some (to_mark, mark)
      → split_at b'|' from ≡ some (node, rest)
      → remove_node cur_nums url_no insert_node head text ≡ (
          if length head + length to_mark == length before
          then some (left (cur_nums - 1) (print_number (cur_nums - 1) ++ rest))
          else (split_last b'|' before >>= λ split. some (
              left
                (cur_nums - 1)
                (print_number (cur_nums - 1) ++ (drop (length head) split.0 ++ rest)))))
  unfolding remove_node
  remove_node-some from to_mark mark node rest s m n = rw (remove_node, s, m, n)

last_node :
    (front : List Node) (weight v : ℕ)
    → nodes_text (front ++ (weight, v) ∷ [])
      ≡ (nodes_text front ++ b'|' ∷ print_number weight) ++ b'_' ∷ print_number v
last_node front weight v =
    nodes_text-append front ((weight, v) ∷ [])
    ∙ ap (λ t. nodes_text front ++ t) (append-nil (node_text (weight, v)))
    ∙ sym (append_assoc (nodes_text front) (b'|' ∷ print_number weight) (b'_' ∷ print_number v))

abbrev is_nil : List Node → Bool
is_nil [] = true
is_nil (n ∷ ns) = false

module _ (cur_nums url_no : ℕ) (insert_node head : Bytes) (h : Lacks b'_' head) where
  found_behind :
      (ns : List Node)
      → split_text (pattern url_no) (head ++ nodes_text ns) ≡ prepend head (found url_no ns)
  found_behind ns =
      split_text-Lacks b'_' (print_number url_no ++ b'|' ∷ []) head (nodes_text ns) h
      ∙ ap (prepend head) (split_text-found url_no ns)

  remove_node-outer :
      (front : List Node) (weight v : ℕ)
      → found url_no (front ++ (weight, v) ∷ []) ≡ none
      → remove_node cur_nums
          (print_number url_no)
          insert_node
          head
          (head ++ nodes_text (front ++ (weight, v) ∷ []))
        ≡ (if v == url_no
            then (if cur_nums == 1
                then some (finished (b'1' ∷ insert_node))
                else some (left (cur_nums - 1) (print_number (cur_nums - 1) ++ nodes_text front)))
            else some (left cur_nums (head ++ nodes_text (front ++ (weight, v) ∷ []))))
  remove_node-outer front weight v f =
      let before : Bytes = head ++ (nodes_text front ++ b'|' ∷ print_number weight) in
      let search = found_behind (front ++ (weight, v) ∷ []) ∙ ap (prepend head) f in
      let text =
        ap (λ t. head ++ t) (last_node front weight v)
        ∙ sym (
            append_assoc head (nodes_text front ++ b'|' ∷ print_number weight)
              (b'_' ∷ print_number v)) in
      let marked =
        ap (split_last b'_') text
        ∙ split_last-Lacks b'_' before (print_number v) (number-Lacks_mark v) in
      let barred =
        ap (split_last b'|')
          (sym (append_assoc head (nodes_text front) (b'|' ∷ print_number weight)))
        ∙ split_last-Lacks b'|' (head ++ nodes_text front) (print_number weight)
            (number-Lacks_bar weight) in
      remove_node-none cur_nums (print_number url_no) insert_node head
        (head ++ nodes_text (front ++ (weight, v) ∷ [])) before (print_number v)
        (head ++ nodes_text front) (print_number weight) search marked barred
      ∙ rw (text_eq-numbers v url_no, drop-append head (nodes_text front))

  mark_of :
      (w v : ℕ) (rest : Bytes)
      → split_at b'_' (drop (length head) (head ++ (node_text (w, v) ++ rest)))
        ≡ some (b'|' ∷ print_number w, b'_' ∷ print_number v ++ rest)
  mark_of w v rest =
      ap (split_at b'_') (drop-append head (node_text (w, v) ++ rest) ∙ node-split w v rest)
      ∙ split_at-Lacks b'_' (b'|' ∷ print_number w) (print_number v ++ rest) (weight-Lacks_mark w)

  -- Both branches leave the nodes in front of the one that is removed, and those behind it.
  both_branches :
      (front : List Node) (before behind count rest : Bytes)
      → split_last b'|' before ≡ some (head ++ nodes_text front, behind)
      → (if is_nil front
          then some (left (cur_nums - 1) (count ++ rest))
          else (split_last b'|' before >>= λ split.
              some (left (cur_nums - 1) (count ++ (drop (length head) split.0 ++ rest)))))
        ≡ some (left (cur_nums - 1) (count ++ (nodes_text front ++ rest)))
  both_branches [] before behind count rest e = refl
  both_branches (n ∷ front) before behind count rest e =
      rw (e, drop-append head (nodes_text (n ∷ front)))

  -- The first mark behind the count is in the first node.
  first_mark :
      (front rest : List Node) (weight : ℕ)
      → (mark : Bytes) × (w : ℕ) × (split_at b'_'
            (drop (length head) (head ++ nodes_text (front ++ (weight, url_no) ∷ rest)))
          ≡ some (b'|' ∷ print_number w, mark))
        × ((length head + length (b'|' ∷ print_number w)
              == length (head ++ (nodes_text front ++ b'|' ∷ print_number weight)))
            ≡ is_nil front)
  first_mark [] rest weight = (
    b'_' ∷ print_number url_no ++ nodes_text rest,
    weight,
    mark_of weight url_no (nodes_text rest),
    ground (arith, length-append head (b'|' ∷ print_number weight)),
  )
  first_mark ((w, v) ∷ front) rest weight = (
    b'_' ∷ print_number v ++ nodes_text (front ++ (weight, url_no) ∷ rest),
    w,
    mark_of w v (nodes_text (front ++ (weight, url_no) ∷ rest)),
    (let bar : Bytes = b'|' ∷ print_number weight in
        let whole = length-append head (nodes_text ((w, v) ∷ front) ++ bar) in
        let nodes = length-append (nodes_text ((w, v) ∷ front)) bar in
        let node = length-append (node_text (w, v)) (nodes_text front) in
        let first = length-append (b'|' ∷ print_number w) (b'_' ∷ print_number v) in ground arith),
  )

  remove_node-inner :
      (front rest : List Node) (weight : ℕ) (next : Node)
      → let ns = front ++ (weight, url_no) ∷ next ∷ rest in
        found url_no ns
          ≡ some (
            nodes_text front ++ b'|' ∷ print_number weight,
            b'_' ∷ print_number url_no ++ nodes_text (next ∷ rest),
          )
        → remove_node cur_nums (print_number url_no) insert_node head (head ++ nodes_text ns)
          ≡ some (
              left
                (cur_nums - 1)
                (print_number (cur_nums - 1) ++ nodes_text (front ++ next ∷ rest)))
  remove_node-inner front rest weight next f =
      let ns = front ++ (weight, url_no) ∷ next ∷ rest in
      let before : Bytes = head ++ (nodes_text front ++ b'|' ∷ print_number weight) in
      let search = found_behind ns ∙ ap (prepend head) f in
      let (mark, w, marked, place) = first_mark front (next ∷ rest) weight in
      let node =
        split_at-Lacks b'|' (b'_' ∷ print_number url_no)
          (print_number next.0 ++ b'_' ∷ print_number next.1 ++ nodes_text rest)
          (refl, number-Lacks_bar url_no) in
      let barred =
        ap (split_last b'|')
          (sym (append_assoc head (nodes_text front) (b'|' ∷ print_number weight)))
        ∙ split_last-Lacks b'|' (head ++ nodes_text front) (print_number weight)
            (number-Lacks_bar weight) in
      remove_node-some cur_nums (print_number url_no) insert_node head (head ++ nodes_text ns)
        before (b'_' ∷ print_number url_no ++ nodes_text (next ∷ rest)) (b'|' ∷ print_number w) mark
        (b'_' ∷ print_number url_no) (nodes_text (next ∷ rest)) search marked node
      ∙ rw place (
          both_branches front before (print_number weight) (print_number (cur_nums - 1))
            (nodes_text (next ∷ rest)) barred)
      ∙ ap (λ t. some (left (cur_nums - 1) (print_number (cur_nums - 1) ++ t)))
          (sym (nodes_text-append front (next ∷ rest)))

-- What `remove_node` leaves of these nodes.
abbrev pub leave : Bytes → List Node → Removal
leave insert_node [] = finished (b'1' ∷ insert_node)
leave insert_node (n ∷ ns) = left (length (n ∷ ns)) (text_of (n ∷ ns))

leave-more :
    (insert_node : Bytes) (front rest : List Node) (next : Node) (nums : ℕ)
    → nums ≡ length (front ++ next ∷ rest)
    → left nums (print_number nums ++ nodes_text (front ++ next ∷ rest))
      ≡ leave insert_node (front ++ next ∷ rest)
leave-more insert_node [] rest next nums e = rw e
leave-more insert_node (n ∷ front) rest next nums e = rw e

leave-last :
    (insert_node : Bytes) (here : Bool) (front : List Node) (n : Node)
    → let ns = front ++ n ∷ [] in
      (if here
        then (if length ns == 1
            then some (finished (b'1' ∷ insert_node))
            else some (left (length ns - 1) (print_number (length ns - 1) ++ nodes_text front)))
        else some (left (length ns) (text_of ns)))
      ≡ some (leave insert_node (if here then front else ns))
leave-last insert_node false front n =
    ap some (leave-more insert_node front [] n (length (front ++ n ∷ [])) refl)
leave-last insert_node true [] n = refl
leave-last insert_node true (m ∷ front) n =
    let fewer : length (front ++ n ∷ []) ≡ length (m ∷ front) =
      length-append front (n ∷ []) ∙ omega arith in
    let several : (suc (length (m ∷ front)) == 1) ≡ false = ground arith in
    let less : suc (length (m ∷ front)) - 1 ≡ length (m ∷ front) = omega arith in
    rw (fewer, several, less)

module _ (url_no : ℕ) (insert_node : Bytes) where
  abbrev IsLeft : List Node → List Node → Type 0
  IsLeft ns remaining =
      remove_node (length ns) (print_number url_no) insert_node (print_number (length ns))
        (text_of ns)
      ≡ some (leave insert_node remaining)

  inner-IsLeft :
      (front rest : List Node) (weight : ℕ) (next : Node)
      → let ns = front ++ (weight, url_no) ∷ next ∷ rest in
        found url_no ns
          ≡ some (
            nodes_text front ++ b'|' ∷ print_number weight,
            b'_' ∷ print_number url_no ++ nodes_text (next ∷ rest),
          )
        → IsLeft ns (front ++ next ∷ rest)
  inner-IsLeft front rest weight next f =
      let ns = front ++ (weight, url_no) ∷ next ∷ rest in
      let more = length-append front ((weight, url_no) ∷ next ∷ rest) in
      let fewer = length-append front (next ∷ rest) in
      remove_node-inner (length ns) url_no insert_node (print_number (length ns))
        (number-Lacks_mark (length ns)) front rest weight next f
      ∙ ap some (leave-more insert_node front rest next (length ns - 1) (omega arith))

  outer-IsLeft :
      (front : List Node) (weight v : ℕ)
      → found url_no (front ++ (weight, v) ∷ []) ≡ none
      → IsLeft
          (front ++ (weight, v) ∷ [])
          (if v == url_no then front else front ++ (weight, v) ∷ [])
  outer-IsLeft front weight v f =
      let ns = front ++ (weight, v) ∷ [] in
      remove_node-outer (length ns) url_no insert_node (print_number (length ns))
        (number-Lacks_mark (length ns)) front weight v f
      ∙ leave-last insert_node (v == url_no) front (weight, v)

  -- The code takes the node of the url out, wherever it stands.
  pub remove_node-without : (n : Node) (ns : List Node) → IsLeft (n ∷ ns) (without url_no (n ∷ ns))
  remove_node-without n ns = elim (where_is url_no n ns) [
    | inl (front, weight, next, rest, e, f, d) ↦ rw d (
        subst
          (λ l.
            found url_no l
              ≡ some (
                nodes_text front ++ b'|' ∷ print_number weight,
                b'_' ∷ print_number url_no ++ nodes_text (next ∷ rest),
              )
            → IsLeft l (front ++ next ∷ rest))
          (sym e) (inner-IsLeft front rest weight next) f)
    | inr (front, weight, v, e, f, d) ↦ rw d (
        subst (λ l. found url_no l ≡ none → IsLeft l (if v == url_no then front else l)) (sym e)
          (outer-IsLeft front weight v) f)
  ]
