-- ===== src/Search/Ranking.antt =====
-- `PlainSearchStrategy::handle` (src/strategy/plain_search_strategy.hpp), from the weights of the urls to
-- the urls of the page that is asked for. The array of urls is the function of its indices.
pub mod Permuted
pub mod Heap
pub mod Sorted
pub mod Paging
use amigao.Base.{
  ℕ, zero, suc, ◌+◌, ◌-◌, ◌*◌, ◌/◌, ◌%◌, Bool, not, ◌&&◌, ◌||◌, List, [], ◌∷◌, Option, none, some,
  ltb, ◌==◌, if◌then◌else◌,
}

abbrev pub max_results_per_page : ℕ
max_results_per_page = 50

abbrev pub default_results_per_page : ℕ
default_results_per_page = 10

-- The first and the last place of the page among `total` urls, and the number of pages; `none` is a
-- page without urls. The two shorts are 0 here where they are negative, which fares the same.
unfoldable pub paging : ℕ → ℕ → ℕ → Option (ℕ × ℕ × ℕ)
paging total start_page results_per_page =
    let start = if ltb start_page 1 then 1 else start_page in
    let results =
      if ltb results_per_page 1 || ltb max_results_per_page results_per_page
      then default_results_per_page
      else results_per_page in
    let start_sub = (start - 1) * results in
    let wanted_end = start_sub + results - 1 in
    let end_sub = if ltb (total - 1) wanted_end then total - 1 else wanted_end in
    if total == 0
    then none
    else if ltb end_sub start_sub
    then none
    else some (start_sub, end_sub, total / results + (if total % results == 0 then 0 else 1))

-- The two entries exchanged.
abbrev pub swap : ℕ → ℕ → (ℕ → ℕ) → ℕ → ℕ
swap i j urlno_arr k = if k == i then urlno_arr j else if k == j then urlno_arr i else urlno_arr k

module _ (weight : ℕ → ℕ) where
  -- The heavier of the entry `next` and its rival, where that is in the heap.
  abbrev heavier : ℕ → (ℕ → ℕ) → ℕ → ℕ → ℕ
  heavier size urlno_arr next rival =
      if ltb rival size && ltb (weight (urlno_arr next)) (weight (urlno_arr rival))
      then rival
      else next

  -- The inner loops: the entry `q` sinks in the heap of the first `size` entries. Every round goes to a
  -- child, so `size` rounds are enough.
  unfoldable pub sink : ℕ → ℕ → ℕ → (ℕ → ℕ) → ℕ → ℕ
  sink zero size q urlno_arr = urlno_arr
  sink (suc n) size q urlno_arr =
      let next = heavier size urlno_arr (heavier size urlno_arr q (q * 2 + 1)) (q * 2 + 2) in
      let rest = sink n size next (swap q next urlno_arr) in
      if not (ltb q size) || next == q then urlno_arr else rest

  -- `create heap`, from the entry `p` down to the first.
  unfoldable pub create_heap : ℕ → ℕ → (ℕ → ℕ) → ℕ → ℕ
  create_heap zero end urlno_arr = sink (end + 1) (end + 1) 0 urlno_arr
  create_heap (suc p) end urlno_arr = create_heap p end (sink (end + 1) (end + 1) (suc p) urlno_arr)

  unfoldable pub heap_sort1 : ℕ → (ℕ → ℕ) → ℕ → ℕ
  heap_sort1 tail urlno_arr =
      let rest = sink tail tail 0 (swap tail 0 urlno_arr) in if tail == 0 then urlno_arr else rest

  -- `for (i = 0; i <= end_sub; ++i) heap_sort1(end - i);`, with the rounds left.
  unfoldable pub sort_from : ℕ → ℕ → ℕ → (ℕ → ℕ) → ℕ → ℕ
  sort_from zero i end urlno_arr = urlno_arr
  sort_from (suc n) i end urlno_arr = sort_from n (i + 1) end (heap_sort1 (end - i) urlno_arr)

  unfoldable pub rank : ℕ → ℕ → (ℕ → ℕ) → ℕ → ℕ
  rank end end_sub urlno_arr = sort_from (end_sub + 1) 0 end (create_heap (end / 2) end urlno_arr)

-- The urls of the page, in the order in which they are asked of the database: `i` goes down from
-- `end - start_sub`.
unfoldable pub page_from : ℕ → ℕ → (ℕ → ℕ) → List ℕ
page_from zero i urlno_arr = []
page_from (suc n) i urlno_arr = urlno_arr i ∷ page_from n (i - 1) urlno_arr
