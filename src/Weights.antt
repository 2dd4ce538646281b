-- ===== src/Weights.antt =====
-- The weights of the reverse index: how `update_weight` of src/strategy/reverse_valuate_strategy.hpp puts
-- a url into the text of a word, and how `parse_weight` of src/strategy/plain_search_strategy.hpp reads it.
-- A text is the number of its nodes, and for each node a bar, its weight, a mark and the number of its url.
-- A read out of bounds is `none`, and so is a text between the signs that is no number.
pub mod Scan
pub mod Nodes
pub mod Found
pub mod Places
pub mod Removed
pub mod Inserted
pub mod Updated
pub mod Index
pub mod Parsed
use amigao.Base.{
  ℕ, zero, suc, ◌+◌, ◌-◌, ◌*◌, Bool, true, false, ◌&&◌, List, [], ◌∷◌, ◌++◌, Option, none, some,
  ltb, leb, ◌==◌, if◌then◌else◌, length, drop, Bytes, codes, text_eq,
}
use amigao.Decimal.{print_number, read_number}
use amigao.Weights.Scan.{◌>>=◌, split_at, split_last, split_text}

-- What is left once the node of the url is taken out: its number of nodes and its text, or, where the
-- text is finished, the text.
pub data Removal : Type 0 where
  finished : Bytes → Removal
  left : ℕ → Bytes → Removal

-- `head` is the text in front of the first bar, where `first_node_sub` stands.
unfoldable pub remove_node : ℕ → Bytes → Bytes → Bytes → Bytes → Option Removal
remove_node cur_nums url_no insert_node head weight =
    elim (split_text (b'_' ∷ url_no ++ b'|' ∷ []) weight) [
      | none ↦ (do
        (before, last) ← split_last b'_' weight
        let several = (do
          (front, behind) ← split_last b'|' before
          some (left (cur_nums - 1) (print_number (cur_nums - 1) ++ drop (length head) front)))
        if text_eq last url_no
            then if cur_nums == 1 then some (finished (b'1' ∷ insert_node)) else several
            else some (left cur_nums weight))
      | some (before, from) ↦ (do
        (to_mark, mark) ← split_at b'_' (drop (length head) weight)
        (node, rest) ← split_at b'|' from
        let middle = (do
          (front, behind) ← split_last b'|' before
          some (
              left (cur_nums - 1)
                (print_number (cur_nums - 1) ++ (drop (length head) front ++ rest))))
        if length head + length to_mark == length before
            then some (left (cur_nums - 1) (print_number (cur_nums - 1) ++ rest))
            else middle)
    ]

-- The loop over the nodes, on what follows from the bar of a node on; every round goes to the next bar.
unfoldable pub insert_into : ℕ → ℕ → Bytes → Bytes → Option Bytes
insert_into zero cur_weight insert_node nodes = none
insert_into (suc n) cur_weight insert_node [] = none
insert_into (suc n) cur_weight insert_node (bar ∷ []) = none
insert_into (suc n) cur_weight insert_node (bar ∷ digit ∷ digits) = do
  (more, mark) ← split_at b'_' digits
  node_weight ← read_number (digit ∷ more)
  let further : Option Bytes = elim (split_at b'|' mark) [
    | none ↦ some ((bar ∷ digit ∷ digits) ++ insert_node)
    | some (url_no, rest) ↦ (do
      inserted ← insert_into n cur_weight insert_node rest
      some ((bar ∷ digit ∷ more) ++ (url_no ++ inserted)))
  ]
  if ltb cur_weight node_weight then further else some (insert_node ++ (bar ∷ digit ∷ digits))

-- The last node goes where there are as many as may be, else the number at the front is raised.
unfoldable pub limit_nodes : ℕ → ℕ → Bytes → Option Bytes
limit_nodes max_urls cur_nums weight =
    let dropped = (do (front, last) ← split_last b'|' weight; some front) in
    let raised = (do
      (head, nodes) ← split_at b'|' weight
      some (print_number (cur_nums + 1) ++ nodes)) in
    if cur_nums == max_urls then dropped else raised

unfoldable pub put_node : ℕ → ℕ → Bytes → Bytes → Bytes → Option Bytes
unfolding remove_node insert_into limit_nodes
put_node max_urls cur_weight url_no insert_node weight = do
  (head, nodes) ← split_at b'|' weight
  cur_nums ← read_number head
  removal ← remove_node cur_nums url_no insert_node head weight
  elim removal [
    | finished text ↦ some text
    | left nums text ↦ (do
      (count, rest) ← split_at b'|' text
      inserted ← insert_into (length text) cur_weight insert_node rest
      limit_nodes max_urls nums (count ++ inserted))
  ]

-- `update_weight` for the weight that the word of the row has in the page of the url.
unfoldable pub update_weight : ℕ → ℕ → ℕ → Bytes → Option Bytes
unfolding put_node
update_weight max_urls cur_weight cur_url_no weight =
    let node = b'|' ∷ print_number cur_weight ++ b'_' ∷ print_number cur_url_no in
    let updated = put_node max_urls cur_weight (print_number cur_url_no) node weight in
    if cur_weight == 0 then some weight else elim (print_number cur_weight) [
      | [] ↦ some weight
      | c ∷ _ ↦ if ltb b'0' c && leb c b'9' then updated else some weight
    ]
