-- ===== src/Search/Query/Queried.antt =====
-- The connections that a search holds.
use amigao.Base.{
  ℕ, Bool, true, false, List, [], Option, none, some, refl, arith, length, take, Bytes,
  if◌then◌else◌,
}
use amigao.Info.{short}
use amigao.Search.{PlainSearchResult}
use amigao.Search.Query.{
  searched_words, find_word, times_rows, text_rows, find_urls, show_results, show_page, search,
  page_urls, page_queries, sum_weights, result_rows, get_url, stop_rows, find_stop_word,
}
use amigao.Search.Ranking.{paging}
use amigao.Sql.Program.{done, ◌>>◌, recycle_db}
use amigao.Sql.Leases.{guarded, Holds, Holds-bind}
use amigao.Url.{is_nil}
use amigao.Values.{max_search_sentence_size}
use amigao.Valuate.{
  Numbers, add_weights, flush, word_conditions, select_weights, query_all, in_bounds,
}
use amigao.Valuate.Handled.{query_all-Holds, in_bounds-Holds}

stop_words-Holds :
    (use_stop_word : Bool) (vec : List Bytes) (times : Bytes → ℕ)
    → Holds 3 1 1
        (if use_stop_word then query_all find_stop_word stop_rows vec times else done times)
stop_words-Holds true vec times = query_all-Holds find_stop_word stop_rows vec times
stop_words-Holds false vec times = refl

module _ (extract_unsigned : Bytes → Bytes × ℕ) (cut : Bytes → List Bytes)
    (visit_words : List (Bytes × Bytes) → List (Bytes × Bytes))
    (visit_urls : List (Bytes × ℕ) → List (Bytes × ℕ)) (max_insert : ℕ) where
  find_urls-Holds :
      (use_stop_word : Bool) (sentence : Bytes)
      → Holds 3 1 1
          (find_urls extract_unsigned cut visit_words visit_urls max_insert use_stop_word sentence)
  unfolding find_urls
  find_urls-Holds use_stop_word sentence =
      let words = searched_words (cut sentence) in
      let find_vec = flush 11 (word_conditions max_insert find_stop_word words ([], [])) in
      let counted = add_weights 1 words (λ w. 0) in
      let none_yet : Numbers = ((λ n. 0), [], []) in
      Holds-bind 3 1 1 1
        (if use_stop_word
          then query_all find_stop_word stop_rows find_vec counted
          else done counted)
        _ (stop_words-Holds use_stop_word find_vec counted)
        λ times.
          Holds-bind 3 1 1 1 (query_all find_word (times_rows max_insert times) find_vec none_yet) _
            (query_all-Holds find_word (times_rows max_insert times) find_vec none_yet)
            λ numbers.
              Holds-bind 3 1 1 1
                (query_all select_weights text_rows (flush 9 (numbers.1, numbers.2)) []) _
                (query_all-Holds select_weights text_rows (flush 9 (numbers.1, numbers.2)) [])
                λ texts.
                  Holds-bind 3 1 1 1
                    (in_bounds (sum_weights extract_unsigned numbers.0 (visit_words texts) [])) _
                    (in_bounds-Holds
                      (sum_weights extract_unsigned numbers.0 (visit_words texts) []))
                    λ weights. refl

  show_results-Holds :
      (entries : List (Bytes × ℕ)) (result : PlainSearchResult) (page : Option (ℕ × ℕ × ℕ))
      → Holds 3 0 1
          (show_results extract_unsigned cut visit_words visit_urls max_insert entries result page)
  unfolding show_results
  show_results-Holds entries result none = (omega arith, refl)
  show_results-Holds entries result (some (start_sub, end_sub, pages)) =
      let vec = page_queries max_insert (page_urls entries start_sub end_sub) [] [] [] in
      Holds-bind 3 1 0 1 (query_all get_url result_rows vec result)
        (λ shown. recycle_db >> done (some (shown, short pages)))
        (query_all-Holds get_url result_rows vec result) (λ shown. (omega arith, refl))

  show_page-Holds :
      (start_page results_per_page : ℕ) (entries : List (Bytes × ℕ)) (result : PlainSearchResult)
      → Holds 3 0 1 (
          show_page extract_unsigned cut visit_words visit_urls max_insert start_page
            results_per_page entries result)
  unfolding show_page
  show_page-Holds start_page results_per_page entries result =
      show_results-Holds entries result (paging (length entries) start_page results_per_page)

  -- A search, whatever the sentence is cut into and whatever the server answers, never holds more than three
  -- connections, and has given all of them back when it ends, unless the process exits.
  pub search-Holds :
      (use_stop_word : Bool) (start_page results_per_page : ℕ) (sentence : Bytes)
      (result : PlainSearchResult)
      → Holds 3 0 0 (
          search extract_unsigned cut visit_words visit_urls max_insert use_stop_word start_page
            results_per_page sentence result)
  unfolding search
  search-Holds use_stop_word start_page results_per_page sentence result =
      guarded (is_nil sentence) none _ (
        omega arith,
        Holds-bind 3 1 0 1
            (find_urls extract_unsigned cut visit_words visit_urls max_insert use_stop_word
              (take max_search_sentence_size sentence))
            _ (find_urls-Holds use_stop_word (take max_search_sentence_size sentence))
            λ entries. show_page-Holds start_page results_per_page entries result,
      )
