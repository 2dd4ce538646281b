-- ===== src/Tests/Weights.antt =====
-- The text of a word with two urls, a third one that comes in between, and a page that is valuated.
use amigao.Base.{ℕ, ◌≡◌, refl, List, [], ◌∷◌, none, some, Bytes, codes, arith}
use amigao.Decimal.{print_number, read_number, read_number-print_number}
use amigao.Info.{ℤ, pos}
use amigao.Sql.Leases.{Holds}
use amigao.Valuate.{handle, max_urls_text}
use amigao.Valuate.Handled.{handle-Holds}
use amigao.Sql.Program.{Answer, rows}
use amigao.Valuate.{word_numbers, Numbers}
use amigao.Sql.Answered.{Row, run}
use amigao.Valuate.Weighed.{AreOf, IsWeighed, page_weight, word_numbers-IsWeighed}
use amigao.Weights.{update_weight, remove_node, insert_into, limit_nodes, put_node}
use amigao.Weights.Index.{IsIndex, IsRated, update_weight-IsIndex}
use amigao.Weights.Nodes.{Node, text_of}
use amigao.Weights.Parsed.{
  parse_weight, parse_nodes, contributions, ReadsPrinted, parse_weight-text_of,
}
use amigao.Weights.Updated.{updated, update_weight-updated}

-- A stream that holds the digits of a number.
abbrev pub read_digits : Bytes → Bytes × ℕ
read_digits text = ([], elim (read_number text) [ none ↦ 0 | some n ↦ n ])

pub read_digits-ReadsPrinted : ReadsPrinted read_digits
read_digits-ReadsPrinted w h = let read = read_number-print_number w in rw read refl

texts :
    (text_of ((9, 3) ∷ (4, 8) ∷ []) ≡ codes "2|9_3|4_8")
    × (update_weight 2 5 17 (codes "2|9_3|4_8") ≡ some (codes "2|9_3|5_17"))
    × (update_weight 3 5 3 (codes "2|9_3|4_8") ≡ some (codes "2|5_3|4_8"))
    × (update_weight 3 1 3 (codes "1|9_3") ≡ some (codes "1|1_3"))
    × (update_weight 3 1 3 (codes "") ≡ none)
    × (parse_weight read_digits 2 (codes "2|9_3|4_0") ≡ some ((codes "3", 18) ∷ []))
unfolding update_weight remove_node insert_into limit_nodes put_node print_number read_number
    parse_weight parse_nodes
texts = (refl, refl, refl, refl, refl, refl)

statuses :
    (max_urls_text (codes "#default#max_url_per_word=20#") ≡ some (codes "20"))
    × (max_urls_text (codes "#max_url_per_word=") ≡ none)
unfolding max_urls_text
statuses = (refl, refl)

two_nodes-IsIndex : IsIndex 2 ((9, 3) ∷ (4, 8) ∷ [])
two_nodes-IsIndex = (((omega arith, tt), (tt, tt)), ((ground arith, tt), (tt, tt)), omega arith)

update_weight-updated_example :
    update_weight 2 5 17 (text_of ((9, 3) ∷ (4, 8) ∷ []))
    ≡ some (text_of (updated 2 (5, 17) ((9, 3) ∷ (4, 8) ∷ [])))
update_weight-updated_example = update_weight-updated 2 5 17 (9, 3) ((4, 8) ∷ []) (omega arith)

update_weight-IsIndex_example :
    (ms : List Node) × (update_weight 2 5 17 (text_of ((9, 3) ∷ (4, 8) ∷ [])) ≡ some (text_of ms))
    × IsIndex 2 ms
    × IsRated (5, 17) ms
update_weight-IsIndex_example =
    update_weight-IsIndex 2 5 17 (9, 3) ((4, 8) ∷ []) (omega arith) (omega arith) two_nodes-IsIndex

parse_weight-text_of_example :
    parse_weight read_digits 2 (text_of ((9, 3) ∷ (4, 8) ∷ []))
    ≡ some (contributions 2 ((9, 3) ∷ (4, 8) ∷ []))
parse_weight-text_of_example =
    parse_weight-text_of read_digits read_digits-ReadsPrinted 2 (9, 3) ((4, 8) ∷ []) (ground arith)

-- Every text is one word, and no number is read.
abbrev one_word : Bytes → List Bytes
one_word text = text ∷ []

abbrev read_none : Bytes → Bytes × ℕ
read_none text = ([], 1)

abbrev read_zero : Bytes → Bytes × ℤ
read_zero text = ([], pos 0)

handle-Holds_example : Holds 3 0 0 (
    handle one_word read_none read_zero 2 100 800
      (codes "http://a/")
      (codes "title")
      (codes "text")
      [])
handle-Holds_example =
    handle-Holds one_word read_none read_zero 2 100 800 (codes "http://a/") (codes "title")
      (codes "text") []

-- A dictionary of one word, with the number 7.
abbrev one_row : ℕ → Bytes → Answer
one_row i statement = rows ((codes "7" ∷ codes "title" ∷ []) ∷ [])

abbrev its_word : Bytes → Bytes
its_word number = codes "title"

one_row-AreOf : (i : ℕ) (s : Bytes) → AreOf its_word (one_row i s)
one_row-AreOf i s = (refl, tt)

word_numbers-IsWeighed_example :
    (sent : List Row) × (numbers : Numbers) × (run one_row 0 []
        (word_numbers one_word read_none read_zero 2 100 800 (codes "title") (codes "text"))
      ≡ some (sent, numbers))
    × IsWeighed
        (page_weight (one_word (codes "title")) (one_word (codes "text")))
        its_word
        sent
        numbers
word_numbers-IsWeighed_example =
    word_numbers-IsWeighed one_word read_none read_zero 2 100 800 its_word one_row (codes "title")
      (codes "text") one_row-AreOf
