-- ===== src/Valuate/Handled.antt =====
-- The connections that the valuation of a page holds.
use amigao.Base.{ℕ, List, [], ◌∷◌, Option, none, some, refl, arith, ◌==◌, ltb, length, Bytes}
use amigao.Info.{ℤ}
use amigao.Sql.Program.{Answer, failed, no_result, rows, recycle_db}
use amigao.Sql.Leases.{guarded, Holds, Holds-bind, op_visited_url-Holds, get_url_no-Holds}
use amigao.Valuate.{
  handle_accepted, Numbers, Updates, rows_of, in_bounds, word_numbers, index_weights, store_weights,
  query_all, send_updates, valuate, handle,
}
use amigao.Values.{url_size}

rows_of-Holds : (a : Answer) → Holds 3 1 1 (rows_of a)
rows_of-Holds failed = tt
rows_of-Holds no_result = tt
rows_of-Holds (rows more) = refl

pub in_bounds-Holds : {S : Type 0} (state : Option S) → Holds 3 1 1 (in_bounds state)
in_bounds-Holds none = tt
in_bounds-Holds (some state) = refl

pub query_all-Holds :
    {S : Type 0} (select : Bytes) (step : List (List Bytes) → S → Option S) (vec : List Bytes)
    (state : S)
    → Holds 3 1 1 (query_all select step vec state)
unfolding query_all
query_all-Holds select step [] state = refl
query_all-Holds select step (e ∷ vec) state = (
  omega arith,
  λ a. Holds-bind 3 1 1 1 (rows_of a) _ (rows_of-Holds a) λ more.
      Holds-bind 3 1 1 1 (in_bounds (step more state)) _ (in_bounds-Holds (step more state))
        λ next. query_all-Holds select step vec next,
)

send_updates-Holds : (vec : List Bytes) → Holds 3 1 1 (send_updates vec)
unfolding send_updates
send_updates-Holds [] = refl
send_updates-Holds (e ∷ vec) = let next = send_updates-Holds vec in grind arith

module _ (cut : Bytes → List Bytes) (extract_unsigned : Bytes → Bytes × ℕ)
    (extract : Bytes → Bytes × ℤ) (rounds max_insert max_urls : ℕ) where
  word_numbers-Holds :
      (title contents : Bytes)
      → Holds 3 1 1
          (word_numbers cut extract_unsigned extract rounds max_insert max_urls title contents)
  unfolding word_numbers
  word_numbers-Holds title contents = search query_all-Holds

  index_weights-Holds :
      (cur_url_no : ℕ) (numbers : Numbers)
      → Holds 3 1 1
          (index_weights cut extract_unsigned extract rounds max_insert max_urls cur_url_no numbers)
  unfolding index_weights
  index_weights-Holds cur_url_no (wordno_weight, tail, vec) = search query_all-Holds

  store_weights-Holds :
      (updates : Updates)
      → Holds 3 0 1 (store_weights cut extract_unsigned extract rounds max_insert max_urls updates)
  unfolding store_weights
  store_weights-Holds (when_then, no_in, vec) =
      Holds-bind 3 1 0 1 _ (λ _. recycle_db) (send_updates-Holds _) (λ _. (omega arith, refl))

  valuate-Holds :
      (cur_url_no : ℕ) (title contents : Bytes)
      → Holds 3 0 0 (
          valuate cut extract_unsigned extract rounds max_insert max_urls cur_url_no title contents)
  unfolding valuate
  valuate-Holds cur_url_no title contents = (
    omega arith,
    Holds-bind 3 1 0 1
        (word_numbers cut extract_unsigned extract rounds max_insert max_urls title contents) _
        (word_numbers-Holds title contents)
        λ numbers.
          Holds-bind 3 1 0 1
            (index_weights cut extract_unsigned extract rounds max_insert max_urls cur_url_no
              numbers)
            _ (index_weights-Holds cur_url_no numbers) λ updates. store_weights-Holds updates,
  )

  accepted-Holds :
      (url title contents html : Bytes)
      → Holds 3 0 0 (
          handle_accepted cut extract_unsigned extract rounds max_insert max_urls url title contents
            html)
  unfolding handle_accepted
  accepted-Holds url title contents html =
      Holds-bind 3 0 0 0 _ _ (op_visited_url-Holds max_insert url title contents html) λ stored.
        Holds-bind 3 0 0 0 _ _ (get_url_no-Holds extract_unsigned extract rounds url)
          λ cur_url_no. guarded (cur_url_no == 0) tt _ (valuate-Holds cur_url_no title contents)

  -- Valuating a page, whatever words it is cut into and whatever the server answers, never holds more than
  -- three connections, and has given all of them back when it ends, unless the process exits.
  pub handle-Holds :
      (url title contents html : Bytes)
      → Holds 3 0 0
          (handle cut extract_unsigned extract rounds max_insert max_urls url title contents html)
  unfolding handle
  handle-Holds url title contents html =
      guarded (ltb url_size (length url)) tt _ (accepted-Holds url title contents html)
