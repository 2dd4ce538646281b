-- ===== src/Valuate.antt =====
-- `ReverseValuateStrategy` (src/strategy/reverse_valuate_strategy.hpp): how the words of a page get its url
-- into the reverse index.
pub mod Handled
pub mod Weighed
use amigao.Base.{
  ℕ, zero, suc, ◌+◌, ◌-◌, ◌*◌, Bool, true, false, not, ◌||◌, ◌&&◌, List, [], ◌∷◌, ◌++◌, Option,
  none, some, ltb, ◌==◌, if◌then◌else◌, length, take, drop, Bytes, codes, text_eq,
}
use amigao.Codec.{crypt}
use amigao.Decimal.{print_number}
use amigao.Info.{ℤ}
use amigao.Sql.Dicts.{strip, drop_last}
use amigao.Sql.Program.{
  Answer, failed, no_result, rows, Program, done, is_failed, stop, exited, fault, query, ◌>>=◌,
  ◌>>◌, get_db, recycle_db, maria_real_query, column,
}
use amigao.Sql.Urls.{op_visited_url, get_url_no}
use amigao.Url.{is_nil}
use amigao.Values.{url_size, db_dictionary_word_size}
use amigao.Weights.{update_weight}
use amigao.Weights.Scan.{split_at, split_text}

-- The number of urls for a word that the status of the strategy asks for, as a text; `none` leaves the
-- 800 of the code.
unfoldable pub max_urls_text : Bytes → Option Bytes
max_urls_text status = elim (split_text (codes "#max_url_per_word=") status) [
  | none ↦ none
  | some (before, from) ↦
      if ltb (length before + 18) (length status)
      then elim (split_at b'#' (drop 18 from)) [
        | none ↦ some (drop 18 from)
        | some (number, more) ↦ some number
      ]
      else none
]

-- The constructor; reading the number is the standard library's, from the text and the number at hand.
unfoldable pub init_max_urls : (Bytes → ℕ → ℕ) → Program ℕ
init_max_urls extract = do
  get_db
  answer ←
      maria_real_query
        (codes "select status from amigao.strategy_manager where strategy_name='reverse'")
  recycle_db
  done (elim answer [
    | rows (row ∷ _) ↦ elim (max_urls_text (column 0 row)) [
      | none ↦ 800
      | some text ↦ extract text 800
    ]
    | _ ↦ 800
  ])

-- The words of a text as the database has them.
unfoldable pub coded_words : List Bytes → List Bytes
coded_words [] = []
coded_words (e ∷ words) =
    let word = crypt (strip e) in
    let rest = coded_words words in
    if is_nil word || ltb db_dictionary_word_size (length word) then rest else word ∷ rest

-- `word_weight[tmp_str] += weight` for the words of a text.
abbrev pub add_weights : ℕ → List Bytes → (Bytes → ℕ) → Bytes → ℕ
add_weights weight [] word_weight = word_weight
add_weights weight (word ∷ words) word_weight =
    add_weights weight words (λ w. if text_eq w word then word_weight w + weight else word_weight w)

-- `tail += item`, and into the vector what would get too long with it. The conditions that are left over,
-- and the vector.
abbrev pub add_condition : ℕ → Bytes → Bytes → Bytes × List Bytes → Bytes × List Bytes
add_condition max_insert select item (tail, vec) =
    if ltb max_insert (length select + length tail + length item)
    then (item, vec ++ tail ∷ [])
    else (tail ++ item, vec)

abbrev pub flush : ℕ → Bytes × List Bytes → List Bytes
flush least (tail, vec) = if ltb least (length tail) then vec ++ tail ∷ [] else vec

abbrev pub word_condition : Bytes → Bytes
word_condition word = codes "or word='" ++ (word ++ codes "' ")

abbrev pub no_condition : Bytes → Bytes
no_condition number = codes "or no='" ++ (number ++ codes "' ")

abbrev pub word_conditions : ℕ → Bytes → List Bytes → Bytes × List Bytes → Bytes × List Bytes
word_conditions max_insert select [] conditions = conditions
word_conditions max_insert select (word ∷ words) conditions =
    word_conditions max_insert select words
      (add_condition max_insert select (word_condition word) conditions)

-- The statements that are gathered: the text of the case, the numbers of its rows, and the vector.
abbrev pub Updates : Type 0
Updates = Bytes × Bytes × List Bytes

abbrev pub update_of : Bytes → Bytes → Bytes
update_of when_then no_in =
    when_then ++ (codes " end where no in (" ++ (drop_last no_in ++ codes ")"))

abbrev pub add_update : ℕ → Bytes → Bytes → Updates → Updates
add_update max_insert number weight (when_then, no_in, vec) =
    let when = codes "when '" ++ (number ++ (codes "' then '" ++ (weight ++ codes "' "))) in
    let row = codes "'" ++ (number ++ codes "',") in
    if ltb 0 (length number)
      && ltb max_insert (length when_then + 37 + length no_in + 2 * length number + length weight)
    then (when, row, vec ++ update_of when_then no_in ∷ [])
    else (when_then ++ when, no_in ++ row, vec)

abbrev pub select_words : Bytes
select_words = codes "select no,word from dictionary.word where 0>1 "

abbrev pub select_weights : Bytes
select_weights = codes "select no,weight from amigao.reverse where 0>1 "

-- The rows of an answer; an error ends the process.
abbrev pub rows_of : Answer → Program (List (List Bytes))
rows_of (rows more) = done more
rows_of _ = stop exited

abbrev pub in_bounds : {S : Type 0} → Option S → Program S
in_bounds none = stop fault
in_bounds (some state) = done state

-- The queries of a vector, with a step on the rows of each.
unfoldable pub query_all :
    {S : Type 0} → Bytes → (List (List Bytes) → S → Option S) → List Bytes → S → Program S
query_all select step [] state = done state
query_all select step (e ∷ vec) state = do
  answer ← maria_real_query (select ++ e)
  more ← rows_of answer
  next ← in_bounds (step more state)
  query_all select step vec next

-- What the page weighs for the numbers of the words, and the conditions on these numbers.
abbrev pub Numbers : Type 0
Numbers = (Bytes → ℕ) × Bytes × List Bytes

abbrev pub word_rows : ℕ → (Bytes → ℕ) → List (List Bytes) → Numbers → Option Numbers
word_rows max_insert word_weight [] numbers = some numbers
word_rows max_insert word_weight (row ∷ more) (wordno_weight, tail, vec) =
    let number = column 0 row in
    let conditions = add_condition max_insert select_weights (no_condition number) (tail, vec) in
    word_rows max_insert word_weight more (
      (λ n. if text_eq n number then word_weight (column 1 row) else wordno_weight n),
      conditions.0,
      conditions.1,
    )

abbrev pub weight_rows : ℕ → ℕ → ℕ → (Bytes → ℕ) → List (List Bytes) → Updates → Option Updates
weight_rows max_insert max_urls cur_url_no wordno_weight [] updates = some updates
weight_rows max_insert max_urls cur_url_no wordno_weight (row ∷ more) updates =
    elim (update_weight max_urls (wordno_weight (column 0 row)) cur_url_no (column 1 row)) [
      | none ↦ none
      | some weight ↦
          weight_rows max_insert max_urls cur_url_no wordno_weight more
            (add_update max_insert (column 0 row) weight updates)
    ]

unfoldable pub send_updates : List Bytes → Program (Unit {0})
send_updates [] = done tt
send_updates (e ∷ vec) = do
  answer ← maria_real_query (codes "update reverse set weight= case no " ++ e)
  if is_failed answer then stop exited else send_updates vec

-- `handle`; cutting a text into words is the library's, and so is reading the number of a url.
module _ (cut : Bytes → List Bytes) (extract_unsigned : Bytes → Bytes × ℕ)
    (extract : Bytes → Bytes × ℤ) (rounds max_insert max_urls : ℕ) where
  -- The weights of the words of a page by their numbers: ten for each time in the title, and one for each
  -- time in the contents.
  unfoldable pub word_numbers : Bytes → Bytes → Program Numbers
  unfolding query_all coded_words
  word_numbers title contents =
      let title_words = coded_words (cut title) in
      let contents_words = coded_words (cut contents) in
      let word_weight = add_weights 1 contents_words (add_weights 10 title_words (λ w. 0)) in
      let of_title = flush 11 (word_conditions max_insert select_words title_words ([], [])) in
      let of_page =
        flush 11 (word_conditions max_insert select_words contents_words ([], of_title)) in
      query_all select_words (word_rows max_insert word_weight) of_page ((λ n. 0), [], [])

  unfoldable pub index_weights : ℕ → Numbers → Program Updates
  unfolding query_all
  index_weights cur_url_no (wordno_weight, tail, vec) =
      query_all select_weights (weight_rows max_insert max_urls cur_url_no wordno_weight)
        (flush 9 (tail, vec)) ([], [], [])

  unfoldable pub store_weights : Updates → Program (Unit {0})
  unfolding send_updates
  store_weights (when_then, no_in, vec) = do
    send_updates (if ltb 3 (length no_in) then vec ++ update_of when_then no_in ∷ [] else vec)
    recycle_db

  unfoldable pub valuate : ℕ → Bytes → Bytes → Program (Unit {0})
  unfolding word_numbers index_weights store_weights
  valuate cur_url_no title contents = do
    get_db
    numbers ← word_numbers title contents
    updates ← index_weights cur_url_no numbers
    store_weights updates

  -- `handle` behind its guard.
  unfoldable pub handle_accepted : Bytes → Bytes → Bytes → Bytes → Program (Unit {0})
  unfolding op_visited_url get_url_no valuate
  handle_accepted url title contents html = do
    op_visited_url max_insert url title contents html
    cur_url_no ← get_url_no extract_unsigned extract rounds url
    if cur_url_no == 0 then done tt else valuate cur_url_no title contents

  unfoldable pub handle : Bytes → Bytes → Bytes → Bytes → Program (Unit {0})
  unfolding handle_accepted
  handle url title contents html =
      if ltb url_size (length url) then done tt else handle_accepted url title contents html
