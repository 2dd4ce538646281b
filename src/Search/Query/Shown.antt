-- ===== src/Search/Query/Shown.antt =====
-- The urls of a page (src/strategy/plain_search_strategy.hpp).
use amigao.Base.{
  ℕ, zero, suc, ◌+◌, ◌-◌, ◌<◌, ◌≤◌, List, [], ◌∷◌, some, ◌≡◌, ◌≢◌, refl, sym, ap, ◌∙◌, arith, All,
  Bytes, length, map, length-map,
}
use amigao.Search.Query.{page_urls, entry}
use amigao.Search.Query.Summed.{weight_in}
use amigao.Search.Query.Unique.{IsUnique, weight_in-entry, entry-other}
use amigao.Search.Ranking.{paging, page_from, rank}
use amigao.Search.Ranking.Paging.{paging_within}
use amigao.Search.Ranking.Permuted.{IsPermuted}
use amigao.Search.Ranking.Sorted.{IsSortedFrom, rank-IsSortedFrom}

module _ (entries : List (Bytes × ℕ)) where
  -- The url has an entry.
  abbrev pub IsFound : Bytes → Type 0
  IsFound u = (k : ℕ) × (k < length entries) × (u ≡ (entry entries k).0)

  -- The urls are found ones, every one another, and none is heavier than one in front of it.
  abbrev pub IsShown : List Bytes → Type 0
  IsShown [] = Unit {0}
  IsShown (u ∷ us) =
      IsFound u × All (λ v. (u ≢ v) × (weight_in v entries ≤ weight_in u entries)) us × IsShown us

  module _ (unique : IsUnique entries) (start end : ℕ) (arr : ℕ → ℕ)
      (permuted : IsPermuted (end + 1) (λ k. k) arr) (few : end < length entries)
      (sorted : IsSortedFrom (λ k. (entry entries k).1) start end arr) where
    arr_within : (k : ℕ) → k ≤ end → arr k < length entries
    arr_within k h = rw (permuted.same k) (omega (arith, permuted.within k (omega arith)))

    arr_other : (j k : ℕ) → j ≢ k → arr j ≢ arr k
    arr_other j k other same =
        let places = sym (permuted.same j) ∙ same ∙ permuted.same k in
        other (sym (permuted.back-place j) ∙ ap permuted.back places ∙ permuted.back-place k)

    shown_at :
        (j k : ℕ)
        → j < k
        → start ≤ k
        → k ≤ end
        → ((entry entries (arr k)).0 ≢ (entry entries (arr j)).0)
          × (weight_in (entry entries (arr j)).0 entries
              ≤ weight_in (entry entries (arr k)).0 entries)
    shown_at j k l m e =
        let here = arr_within k e in
        let there = arr_within j (omega arith) in
        (
          entry-other entries (arr k) (arr j) unique here there (arr_other k j (ground arith)),
          rw
              (
                weight_in-entry entries (arr j) unique there,
                weight_in-entry entries (arr k) unique here,
              )
              (sorted j k (omega arith) m e),
        )

    later_shown :
        (n i k : ℕ)
        → i < k
        → n ≤ i + 1
        → start ≤ k
        → k ≤ end
        → All
            (λ v.
              ((entry entries (arr k)).0 ≢ v)
              × (weight_in v entries ≤ weight_in (entry entries (arr k)).0 entries))
            (map (λ k. (entry entries k).0) (page_from n i arr))
    unfolding page_from
    later_shown zero i k l b m e = tt
    later_shown (suc zero) i k l b m e = (shown_at i k l m e, tt)
    later_shown (suc (suc n)) i k l b m e =
        (shown_at i k l m e, later_shown (suc n) (i - 1) k (omega arith) (omega arith) m e)

    page_from-IsShown :
        (n i : ℕ)
        → i ≤ end
        → start + n ≤ i + 1
        → IsShown (map (λ k. (entry entries k).0) (page_from n i arr))
    unfolding page_from
    page_from-IsShown zero i e m = tt
    page_from-IsShown (suc zero) i e m = ((arr i, arr_within i e, refl), tt, tt)
    page_from-IsShown (suc (suc n)) i e m = (
      (arr i, arr_within i e, refl),
      later_shown (suc n) (i - 1) i (omega arith) (omega arith) (omega arith) e,
      page_from-IsShown (suc n) (i - 1) (omega arith) (omega arith),
    )

length-page_from : (n i : ℕ) (arr : ℕ → ℕ) → length (page_from n i arr) ≡ n
unfolding page_from
length-page_from zero i arr = refl
length-page_from (suc n) i arr = ap suc (length-page_from n (i - 1) arr)

-- The page that is asked for, of a map without two entries for one url, where it is not refused: its
-- urls are as many as its places, all of them are in the map, none stands on the page twice, and none is
-- heavier than one in front of it.
pub page_urls-IsShown :
    (entries : List (Bytes × ℕ)) (start_page results_per_page : ℕ) {start_sub end_sub pages : ℕ}
    → IsUnique entries
    → paging (length entries) start_page results_per_page ≡ some (start_sub, end_sub, pages)
    → (length (page_urls entries start_sub end_sub) ≡ end_sub - start_sub + 1)
      × IsShown entries (page_urls entries start_sub end_sub)
unfolding page_urls
page_urls-IsShown entries start_page results_per_page {start_sub} {end_sub} unique e =
    let (order, within, few) = paging_within (length entries) start_page results_per_page e in
    let end = length entries - 1 in
    let weight : ℕ → ℕ = λ k. (entry entries k).1 in
    let (permuted, sorted) = rank-IsSortedFrom weight end end_sub (λ k. k) (omega arith) in
    (
      length-map (λ k. (entry entries k).0)
            (page_from (end_sub - start_sub + 1) (end - start_sub)
              (rank weight end end_sub (λ k. k)))
          ∙ length-page_from (end_sub - start_sub + 1) (end - start_sub)
              (rank weight end end_sub (λ k. k)),
      page_from-IsShown entries unique (end - end_sub) end (rank weight end end_sub (λ k. k))
          permuted (omega arith) sorted (end_sub - start_sub + 1) (end - start_sub) (omega arith)
          (omega arith),
    )
