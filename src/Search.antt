-- ===== src/Search.antt =====
-- `PlainSearchResult` (src/strategy/plain_search_result.hpp): the results of a search, in their order.
pub mod Results
pub mod Ranking
pub mod Query
use amigao.Base.{
  ℕ, zero, suc, List, [], ◌∷◌, ◌++◌, Option, none, some, ltb, if◌then◌else◌, length, Bytes,
}

pub record PlainSearchResultNode : Type 0 where
  pub url : Bytes
  pub title : Bytes
  pub contents : Bytes
  pub html : Bytes
  pub last_time : Bytes

-- `search_result_vec`
pub record PlainSearchResult : Type 0 where
  pub nodes : List PlainSearchResultNode

unfoldable pub size : PlainSearchResult → ℕ
size r = length r.nodes

unfoldable pub add_node :
    Bytes → Bytes → Bytes → Bytes → Bytes → PlainSearchResult → PlainSearchResult
add_node url title contents html time r = record {
  nodes =
      r.nodes
      ++ record { url = url; title = title; contents = contents; html = html; last_time = time }
        ∷ [];
}

-- `search_result_vec[ith]`; `none` is out of range.
unfoldable pub at : ℕ → List PlainSearchResultNode → Option PlainSearchResultNode
at i [] = none
at zero (n ∷ ns) = some n
at (suc i) (n ∷ ns) = at i ns

-- The five getters differ in the member only.
unfoldable pub get : (PlainSearchResultNode → Bytes) → ℕ → PlainSearchResult → Option Bytes
get member ith r =
    if ltb ith (size r)
    then elim (at ith r.nodes) [ none ↦ none | some n ↦ some (member n) ]
    else some []
