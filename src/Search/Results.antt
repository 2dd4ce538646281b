-- ===== src/Search/Results.antt =====
-- What the getters of a search result give.
use amigao.Base.{
  ℕ, zero, suc, ◌+◌, ◌<◌, true, false, List, [], ◌∷◌, ◌++◌, some, ◌≡◌, refl, arith, ltb, length,
  length-append, Bytes,
}
use amigao.Search.{PlainSearchResultNode, PlainSearchResult, size, add_node, at, get}

at-append : (i : ℕ) (ns ms : List PlainSearchResultNode) → i < length ns → at i (ns ++ ms) ≡ at i ns
unfolding at
at-append i [] ms h = absurd (omega arith)
at-append zero (n ∷ ns) ms h = refl
at-append (suc i) (n ∷ ns) ms h = at-append i ns ms (omega arith)

at-last :
    (n : PlainSearchResultNode) (ns : List PlainSearchResultNode)
    → at (length ns) (ns ++ n ∷ []) ≡ some n
unfolding at
at-last n [] = refl
at-last n (m ∷ ns) = at-last n ns

-- After a result is added, its members are read at the place behind the former ones, a former place
-- reads as before, the size is one more, and every place from the new size on reads as the empty text.
get-add_node :
    (member : PlainSearchResultNode → Bytes) (url title contents html time : Bytes)
    (r : PlainSearchResult) (i k : ℕ)
    → i < size r
    → let q = add_node url title contents html time r in
      (size q ≡ suc (size r))
      × (get member (size r) q
          ≡ some (
              member (record {
                url = url;
                title = title;
                contents = contents;
                html = html;
                last_time = time;
              })))
      × (get member i q ≡ get member i r)
      × (get member (size q + k) q ≡ some [])
unfolding get size add_node
get-add_node member url title contents html time r i k h =
    let n : PlainSearchResultNode = record {
      url = url;
      title = title;
      contents = contents;
      html = html;
      last_time = time;
    } in
    let more : length (r.nodes ++ n ∷ []) ≡ suc (length r.nodes) =
      omega (arith, length-append r.nodes (n ∷ [])) in
    let last : ltb (length r.nodes) (suc (length r.nodes)) ≡ true = ground arith in
    let former : ltb i (length r.nodes) ≡ true = ground arith in
    let former' : ltb i (suc (length r.nodes)) ≡ true = ground arith in
    let over : ltb (suc (length r.nodes) + k) (suc (length r.nodes)) ≡ false = ground arith in
    (
      more,
      rw more (rw last (rw (at-last n r.nodes))),
      rw more (rw former' (rw former (rw (at-append i r.nodes (n ∷ []) h)))),
      rw more (rw over),
    )
