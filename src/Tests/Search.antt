-- ===== src/Tests/Search.antt =====
-- A ranking of three urls, the last page of three, and the weights of the urls of two words.
use amigao.Base.{
  ℕ, arith, ◌+◌, ◌≡◌, refl, List, [], ◌∷◌, some, Bytes, codes, text_eq, if◌then◌else◌, length,
}
use amigao.Decimal.{print_number, read_number}
use amigao.Search.Query.{sum_weights, page_urls}
use amigao.Search.Query.Shown.{IsShown, page_urls-IsShown}
use amigao.Search.Query.Unique.{sum_weights-IsUnique}
use amigao.Search.Query.Summed.{Word, texts_of, weight_in, score, sum_weights-score}
use amigao.Tests.Weights.{read_digits, read_digits-ReadsPrinted}
use amigao.Weights.Parsed.{parse_weight, parse_nodes}
use amigao.Search.Ranking.{paging, sink, create_heap, heap_sort1, sort_from, rank, page_from}
use amigao.Search.Ranking.Permuted.{IsPermuted}
use amigao.Search.Ranking.Sorted.{IsSortedFrom, rank-IsSortedFrom}

ranked :
    (page_from 2 2 (rank (λ u. u) 2 1 (λ k. k + 5)) ≡ 7 ∷ 6 ∷ [])
    × (paging 23 3 10 ≡ some (20, 22, 3))
unfolding page_from rank create_heap sink sort_from heap_sort1 paging
ranked = (refl, refl)

rank-IsSortedFrom_example :
    IsPermuted 3 (λ k. k + 5) (rank (λ u. u) 2 1 (λ k. k + 5))
    × IsSortedFrom (λ u. u) 1 2 (rank (λ u. u) 2 1 (λ k. k + 5))
rank-IsSortedFrom_example = rank-IsSortedFrom (λ u. u) 2 1 (λ k. k + 5) (omega arith)

-- Two words, of which the second is in the sentence twice.
abbrev two_times : Bytes → ℕ
two_times number = if text_eq number (codes "7") then 2 else 1

abbrev two_words : List Word
two_words = (codes "6", (9, 3), (4, 8) ∷ []) ∷ (codes "7", (5, 3), []) ∷ []

summed :
    (sum_weights read_digits two_times (texts_of two_words) []
      ≡ some ((codes "3", 19) ∷ (codes "8", 4) ∷ []))
    × (score 3 two_times two_words ≡ 19)
unfolding sum_weights parse_weight parse_nodes read_number print_number
summed = (refl, refl)

sum_weights-score_example :
    (m : List (Bytes × ℕ)) × (sum_weights read_digits two_times (texts_of two_words) [] ≡ some m)
    × (weight_in (print_number 3) m ≡ score 3 two_times two_words)
sum_weights-score_example =
    sum_weights-score read_digits read_digits-ReadsPrinted 3 two_times two_words (omega arith)
      (ground arith)

abbrev two_urls : List (Bytes × ℕ)
two_urls = (codes "3", 19) ∷ (codes "8", 4) ∷ []

two_places : paging 2 1 10 ≡ some (0, 1, 1)
unfolding paging
two_places = refl

page_urls-IsShown_example :
    (length (page_urls two_urls 0 1) ≡ 2) × IsShown two_urls (page_urls two_urls 0 1)
page_urls-IsShown_example =
    page_urls-IsShown two_urls 1 10
      (sum_weights-IsUnique read_digits two_times (texts_of two_words) [] tt summed.0) two_places
