-- ===== src/Search/Query.antt =====
-- `PlainSearchStrategy::handle` (src/strategy/plain_search_strategy.hpp), from a sentence to the results of
-- a page.
pub mod Queried
pub mod Summed
pub mod Unique
pub mod Shown
use amigao.Base.{
  map, ℕ, zero, suc, ◌+◌, ◌-◌, ◌*◌, Bool, true, false, ◌||◌, List, [], ◌∷◌, ◌++◌, Option, none,
  some, ltb, ◌==◌, if◌then◌else◌, length, take, Bytes, codes, text_eq,
}
use amigao.Codec.{crypt, decrypt}
use amigao.Info.{ℤ, short}
use amigao.Search.{PlainSearchResult, add_node}
use amigao.Search.Ranking.{paging, rank, page_from}
use amigao.Sql.Program.{Program, done, ◌>>=◌, ◌>>◌, get_db, recycle_db, column}
use amigao.Url.{is_nil}
use amigao.Valuate.{
  add_weights, add_condition, flush, word_conditions, no_condition, select_weights, query_all,
  in_bounds, Numbers,
}
use amigao.Values.{word_size, max_search_sentence_size, max_contents_size}
use amigao.Weights.Parsed.{parse_weight}

abbrev pub find_word : Bytes
find_word = codes "select word,no from dictionary.word where 0>1 "

abbrev pub find_stop_word : Bytes
find_stop_word = codes "select word from dictionary.stop_word where 0>1 "

abbrev pub get_url : Bytes
get_url = codes "select url,title,contents,last_update_time from amigao.visited_url where 0>1 "

unfoldable pub searched_words : List Bytes → List Bytes
searched_words [] = []
searched_words (e ∷ words) =
    let rest = searched_words words in
    if is_nil e || ltb word_size (length e) then rest else crypt e ∷ rest

-- `tmp_times.erase(row[0])`; a word that is asked for afterwards has 0 times.
abbrev pub stop_rows : List (List Bytes) → (Bytes → ℕ) → Option (Bytes → ℕ)
stop_rows [] times = some times
stop_rows (row ∷ more) times = stop_rows more (λ w. if text_eq w (column 0 row) then 0 else times w)

abbrev pub times_rows : ℕ → (Bytes → ℕ) → List (List Bytes) → Numbers → Option Numbers
times_rows max_insert times [] numbers = some numbers
times_rows max_insert times (row ∷ more) (wordno_times, tail, vec) =
    let number = column 1 row in
    let conditions = add_condition max_insert select_weights (no_condition number) (tail, vec) in
    times_rows max_insert times more (
      (λ n. if text_eq n number then times (column 0 row) else wordno_times n),
      conditions.0,
      conditions.1,
    )

-- `wordno_weight[number] = weight`
abbrev pub assign : Bytes → Bytes → List (Bytes × Bytes) → List (Bytes × Bytes)
assign number weight [] = (number, weight) ∷ []
assign number weight ((n, w) ∷ entries) =
    if text_eq n number then (n, weight) ∷ entries else (n, w) ∷ assign number weight entries

abbrev pub text_rows : List (List Bytes) → List (Bytes × Bytes) → Option (List (Bytes × Bytes))
text_rows [] wordno_weight = some wordno_weight
text_rows (row ∷ more) wordno_weight =
    text_rows more (assign (column 0 row) (column 1 row) wordno_weight)

-- `urlno_weight[url_no] += weight`
abbrev pub add_weight : Bytes → ℕ → List (Bytes × ℕ) → List (Bytes × ℕ)
add_weight url_no weight [] = (url_no, weight) ∷ []
add_weight url_no weight ((u, w) ∷ entries) =
    if text_eq u url_no
    then (u, w + weight) ∷ entries
    else (u, w) ∷ add_weight url_no weight entries

abbrev pub add_all : List (Bytes × ℕ) → List (Bytes × ℕ) → List (Bytes × ℕ)
add_all [] urlno_weight = urlno_weight
add_all ((u, w) ∷ added) urlno_weight = add_all added (add_weight u w urlno_weight)

-- The weights of the urls, from the texts of all words.
unfoldable pub sum_weights :
    (Bytes → Bytes × ℕ)
    → (Bytes → ℕ)
    → List (Bytes × Bytes)
    → List (Bytes × ℕ)
    → Option (List (Bytes × ℕ))
sum_weights extract_unsigned wordno_times [] urlno_weight = some urlno_weight
sum_weights extract_unsigned wordno_times ((number, text) ∷ more) urlno_weight =
    elim (parse_weight extract_unsigned (wordno_times number) text) [
      | none ↦ none
      | some added ↦ sum_weights extract_unsigned wordno_times more (add_all added urlno_weight)
    ]

-- The entry of the map that an index stands for.
abbrev pub entry : List (Bytes × ℕ) → ℕ → Bytes × ℕ
entry [] k = ([], 0)
entry (e ∷ entries) zero = e
entry (e ∷ entries) (suc k) = entry entries k

-- The conditions on the urls of the page, their order, and the vector.
abbrev pub page_query : Bytes → Bytes → Bytes
page_query tail field_no = tail ++ (codes "order by field(no" ++ (field_no ++ codes ") "))

unfoldable pub page_queries : ℕ → List Bytes → Bytes → Bytes → List Bytes → List Bytes
page_queries max_insert [] tail field_no vec =
    if ltb 9 (length tail) then vec ++ page_query tail field_no ∷ [] else vec
page_queries max_insert (u ∷ urls) tail field_no vec =
    let field = codes ",'" ++ (u ++ codes "'") in
    if ltb max_insert (length tail + 2 * length u + 31)
    then page_queries max_insert urls (no_condition u) field (vec ++ page_query tail field_no ∷ [])
    else page_queries max_insert urls (tail ++ no_condition u) (field_no ++ field) vec

-- The rows of the page; a column that cannot be decoded is a read out of bounds.
unfoldable pub result_rows : List (List Bytes) → PlainSearchResult → Option PlainSearchResult
result_rows [] result = some result
result_rows (row ∷ more) result = elim (decrypt (column 0 row)) [
  | none ↦ none
  | some url ↦ elim (decrypt (column 1 row)) [
    | none ↦ none
    | some title ↦ elim (decrypt (column 2 row)) [
      | none ↦ none
      | some contents ↦ result_rows more (
          add_node url (take max_contents_size title) (take max_contents_size contents) []
            (column 3 row) result)
    ]
  ]
]

-- The numbers of the urls of a page, in their order.
unfoldable pub page_urls : List (Bytes × ℕ) → ℕ → ℕ → List Bytes
unfolding rank page_from
page_urls entries start_sub end_sub =
    let end = length entries - 1 in
    let ranked = rank (λ k. (entry entries k).1) end end_sub (λ k. k) in
    map (λ k. (entry entries k).0) (page_from (end_sub - start_sub + 1) (end - start_sub) ranked)

-- Reading a number and cutting the sentence are of libraries, and so is the order in which the maps are gone through.
module _ (extract_unsigned : Bytes → Bytes × ℕ) (cut : Bytes → List Bytes)
    (visit_words : List (Bytes × Bytes) → List (Bytes × Bytes))
    (visit_urls : List (Bytes × ℕ) → List (Bytes × ℕ)) (max_insert : ℕ) where
  unfoldable pub find_urls : Bool → Bytes → Program (List (Bytes × ℕ))
  unfolding query_all searched_words sum_weights
  find_urls use_stop_word sentence = do
    let words = searched_words (cut sentence)
    let find_vec = flush 11 (word_conditions max_insert find_stop_word words ([], []))
    let counted = add_weights 1 words (λ w. 0)
    times ←
        if use_stop_word then query_all find_stop_word stop_rows find_vec counted else done counted
    numbers ← query_all find_word (times_rows max_insert times) find_vec ((λ n. 0), [], [])
    wordno_weight ← query_all select_weights text_rows (flush 9 (numbers.1, numbers.2)) []
    urlno_weight ← in_bounds (sum_weights extract_unsigned numbers.0 (visit_words wordno_weight) [])
    done (visit_urls urlno_weight)

  -- The results of the page and the number of pages, as a `short`; `none` is a page without results.
  unfoldable pub show_results :
      List (Bytes × ℕ)
      → PlainSearchResult
      → Option (ℕ × ℕ × ℕ)
      → Program (Option (PlainSearchResult × ℤ))
  unfolding query_all page_urls page_queries result_rows
  show_results entries result none = recycle_db >> done none
  show_results entries result (some (start_sub, end_sub, total_pages)) = do
    shown ←
        query_all get_url result_rows
          (page_queries max_insert (page_urls entries start_sub end_sub) [] [] []) result
    recycle_db
    done (some (shown, short total_pages))

  unfoldable pub show_page :
      ℕ → ℕ → List (Bytes × ℕ) → PlainSearchResult → Program (Option (PlainSearchResult × ℤ))
  unfolding show_results paging
  show_page start_page results_per_page entries result =
      show_results entries result (paging (length entries) start_page results_per_page)

  unfoldable pub search :
      Bool → ℕ → ℕ → Bytes → PlainSearchResult → Program (Option (PlainSearchResult × ℤ))
  unfolding find_urls show_page
  search use_stop_word start_page results_per_page sentence result =
      let find = do
        get_db
        entries ← find_urls use_stop_word (take max_search_sentence_size sentence)
        show_page start_page results_per_page entries result
      in if is_nil sentence then done none else find
