-- ===== src/Weights/Found.antt =====
-- Where the search for the node of a url stops in a text of weights.
use mathlib.Core.List.{append_assoc, append-nil}
use amigao.Base.{
  ℕ, Bool, true, false, ◌&&◌, List, [], ◌∷◌, ◌++◌, Option, none, some, ◌≡◌, refl, arith, ◌==◌,
  if◌then◌else◌, Bytes, ap, ◌∙◌,
}
use amigao.Decimal.{print_number, print_number-IsDigit}
use amigao.Weights.Scan.{prepend, split_text, Lacks, split_text-Lacks, prepend-prepend}
use amigao.Weights.Nodes.{
  Node, node_text, nodes_text, nodes_text-IsEnd, number-Lacks_mark, begins_node, IsEnd,
  starts_with-number, text_eq-numbers,
}

-- `"_" + cur_str_url_no + "|"`
abbrev pub pattern : ℕ → Bytes
pattern url_no = b'_' ∷ print_number url_no ++ b'|' ∷ []

-- Where the node of the url stands, but for the last node.
abbrev pub found : ℕ → List Node → Option (Bytes × Bytes)
found url_no [] = none
found url_no ((weight, v) ∷ ns) =
    let rest = prepend (node_text (weight, v)) (found url_no ns) in
    if (v == url_no) && begins_node (nodes_text ns)
    then some (b'|' ∷ print_number weight, b'_' ∷ print_number v ++ nodes_text ns)
    else rest

pub weight-Lacks_mark : (weight : ℕ) → Lacks b'_' (b'|' ∷ print_number weight)
weight-Lacks_mark weight = (ground arith, number-Lacks_mark weight)

pub node-split :
    (weight v : ℕ) (rest : Bytes)
    → node_text (weight, v) ++ rest
      ≡ (b'|' ∷ print_number weight) ++ (b'_' ∷ print_number v ++ rest)
node-split weight v rest = append_assoc (b'|' ∷ print_number weight) (b'_' ∷ print_number v) rest

-- At the mark of a node, the search stops or goes on behind the node.
mark-found :
    (url_no v : ℕ) (rest : Bytes)
    → IsEnd rest
    → split_text (pattern url_no) (b'_' ∷ print_number v ++ rest) ≡ (
        if (v == url_no) && begins_node rest
        then some ([], b'_' ∷ print_number v ++ rest)
        else prepend (b'_' ∷ print_number v) (split_text (pattern url_no) rest))
mark-found url_no v rest e =
    let starts =
      starts_with-number (print_number url_no) (print_number v) rest (print_number-IsDigit url_no)
        (print_number-IsDigit v) e
      ∙ ap (λ b. b && begins_node rest) (text_eq-numbers v url_no) in
    let behind =
      ap (prepend (b'_' ∷ [])) (
        split_text-Lacks b'_' (print_number url_no ++ b'|' ∷ []) (print_number v) rest
          (number-Lacks_mark v))
      ∙ prepend-prepend (b'_' ∷ []) (print_number v) (split_text (pattern url_no) rest) in
    rw (starts, behind)

prepend-branch :
    (b : Bool) (head node from : Bytes) (rest : Option (Bytes × Bytes))
    → prepend head (if b then some ([], from) else prepend node rest)
      ≡ (if b then some (head, from) else prepend (head ++ node) rest)
prepend-branch true head node from rest = ap (λ h. some (h, from)) (append-nil head)
prepend-branch false head node from rest = prepend-prepend head node rest

pub split_text-found :
    (url_no : ℕ) (ns : List Node) → split_text (pattern url_no) (nodes_text ns) ≡ found url_no ns
split_text-found url_no [] = refl
split_text-found url_no ((weight, v) ∷ ns) =
    let bar : Bytes = b'|' ∷ print_number weight in
    let mark : Bytes = b'_' ∷ print_number v in
    let is_here : Bool = (v == url_no) && begins_node (nodes_text ns) in
    ap (split_text (pattern url_no)) (node-split weight v (nodes_text ns))
    ∙ split_text-Lacks b'_' (print_number url_no ++ b'|' ∷ []) bar (mark ++ nodes_text ns)
        (weight-Lacks_mark weight)
    ∙ ap (prepend bar) (mark-found url_no v (nodes_text ns) (nodes_text-IsEnd ns))
    ∙ prepend-branch is_here bar mark (mark ++ nodes_text ns)
        (split_text (pattern url_no) (nodes_text ns))
    ∙ ap (λ rest. if is_here then some (bar, mark ++ nodes_text ns) else prepend (bar ++ mark) rest)
        (split_text-found url_no ns)
