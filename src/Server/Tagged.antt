-- ===== src/Server/Tagged.antt =====
-- The tags of a whole page of results.
use mathlib.Core.List.{append-nil}
use amigao.Base.{
  ℕ, zero, suc, ◌+◌, ◌-◌, ◌≤◌, ◌<◌, ◌^◌, false, Option, none, some, ap, if◌then◌else◌, List, [],
  ◌∷◌, ◌++◌, ◌≡◌, refl, ◌∙◌, inl, inr, arith, ◌==◌, Bool-cases, length, All, Bytes, codes,
}
use amigao.Decimal.{print_number}
use amigao.Info.{ℤ, pos, negsuc}
use amigao.Search.{PlainSearchResultNode, PlainSearchResult}
use amigao.Server.Printed.{
  IsVerbatim, HasVerbatim, print_f-IsVerbatim, page_of, page_of-IsVerbatim,
  paging_pieces-IsVerbatim,
}
use amigao.Server.{links, links_within}
use amigao.Server.Page.{
  joined, body_pieces, paging_pieces, http_response_header, html2body, search_a, page_link,
  page_links, paging, results_page, pages_to, print_int, print_f, never_ends,
}
use amigao.Server.Tags.{
  tags, Plain, Gives, Closed-append, joined-Gives, tags-append, plain, nothing, print_number-Plain,
  HasPlainUrl, result_tags, result_html-Gives,
}

both :
    (x y : Bytes) (names more : List Bytes)
    → Gives x names
    → Gives y more
    → Gives (x ++ y) (names ++ more)
both x y names more g h = record {
  closed = Closed-append x y g.closed h.closed;
  same = tags-append x y g.closed ∙ rw (g.same, h.same) refl;
}

abbrev pub repeated : ℕ → List Bytes → List Bytes
repeated zero names = []
repeated (suc n) names = names ++ repeated n names

abbrev pub link_tags : List Bytes
link_tags = codes "li" ∷ codes "a" ∷ codes "/a" ∷ codes "/li" ∷ []

-- The tags in front of the results, in front of the links to the pages, and behind them.
abbrev pub head_tags : List Bytes
head_tags =
    codes "html"
    ∷ codes "head"
    ∷ codes "title"
    ∷ codes "/title"
    ∷ codes "meta"
    ∷ codes "link"
    ∷ codes "link"
    ∷ codes "link"
    ∷ codes "/link"
    ∷ codes "style"
    ∷ codes "/style"
    ∷ codes "script"
    ∷ codes "/script"
    ∷ codes "/head"
    ∷ codes "body"
    ∷ codes "h3"
    ∷ codes "/h3"
    ∷ []

abbrev pub list_tags : List Bytes
list_tags = codes "div" ∷ codes "ul" ∷ link_tags

abbrev pub end_tags : List Bytes
end_tags = link_tags ++ codes "/ul" ∷ codes "/div" ∷ codes "/body" ∷ codes "/html" ∷ []

search_a-Gives :
    (nodes : List PlainSearchResultNode)
    → All HasPlainUrl nodes
    → Gives (search_a nodes) (repeated (length nodes) result_tags)
unfolding search_a
search_a-Gives [] h = nothing
search_a-Gives (node ∷ nodes) h =
    both _ (search_a nodes) result_tags (repeated (length nodes) result_tags)
      (result_html-Gives node h.0) (search_a-Gives nodes h.1)

page_link-Gives : (start_page i : ℕ) → Gives (page_link start_page i) link_tags
unfolding page_link
page_link-Gives start_page i =
    let number = plain (print_number i) (print_number-Plain i) in
    elim (Bool-cases (i == start_page)) [
      | inl here ↦
          let whole =
            joined-Gives
              (codes "<li><a href='#' class='active'>" ∷ print_number i ∷ codes "</a></li>" ∷ [])
              (ground (arith, number.closed)) in
          rw here (record { closed = whole.closed; same = whole.same ∙ rw number.same refl })
      | inr other ↦
          let whole =
            joined-Gives
              (codes "<li><a href='javascript:paging("
                ∷ print_number i
                ∷ codes ")'>"
                ∷ print_number i
                ∷ codes "</a></li>"
                ∷ [])
              (ground (arith, number.closed)) in
          rw other (record { closed = whole.closed; same = whole.same ∙ rw number.same refl })
    ]

page_links-Gives :
    (start_page i more : ℕ) → Gives (page_links start_page i more) (repeated more link_tags)
unfolding page_links
page_links-Gives start_page i zero = nothing
page_links-Gives start_page i (suc more) =
    both (page_link start_page i) (page_links start_page (i + 1) more) link_tags
      (repeated more link_tags) (page_link-Gives start_page i)
      (page_links-Gives start_page (i + 1) more)

html2body-Gives :
    (sentence : Bytes) (pages : ℕ) → Plain sentence → Gives (html2body sentence pages) head_tags
unfolding html2body
html2body-Gives sentence pages h =
    let number = plain (print_number pages) (print_number-Plain pages) in
    let shown = plain sentence h in
    let whole =
      joined-Gives (body_pieces sentence pages) (ground (arith, number.closed, shown.closed)) in
    record { closed = whole.closed; same = whole.same ∙ rw (shown.same, number.same) refl }

print_int-Plain : (n : ℤ) → Plain (print_int n)
print_int-Plain (pos n) = print_number-Plain n
print_int-Plain (negsuc n) = (refl, print_number-Plain (n + 1))

paging_pieces-Gives :
    (start_page i : ℕ) (j : ℤ) (pre : ℕ) (next : ℤ)
    → Gives
        (joined (paging_pieces start_page (i, j, pre, next)))
        (list_tags ++ (repeated (pages_to i j) link_tags ++ end_tags))
unfolding paging_pieces
paging_pieces-Gives start_page i j pre next =
    let back = plain (print_number pre) (print_number-Plain pre) in
    let on = plain (print_int next) (print_int-Plain next) in
    let middle = page_links-Gives start_page i (pages_to i j) in
    let whole =
      joined-Gives (paging_pieces start_page (i, j, pre, next))
        (ground (arith, back.closed, on.closed, middle.closed)) in
    record { closed = whole.closed; same = whole.same ∙ rw (back.same, on.same, middle.same) refl }

three_parts :
    (a b c : Bytes) (xs ys zs : List Bytes)
    → Gives a xs
    → Gives b ys
    → Gives c zs
    → tags (joined (http_response_header ∷ a ∷ b ∷ c ∷ [])) ≡ xs ++ (ys ++ zs)
three_parts a b c xs ys zs g h k =
    let whole =
      joined-Gives (http_response_header ∷ a ∷ b ∷ c ∷ [])
        (ground (arith, g.closed, h.closed, k.closed)) in
    whole.same ∙ rw (g.same, h.same, k.same, append-nil zs) refl

paging-made :
    (start_page total_pages i : ℕ) (j : ℤ) (pre : ℕ) (next : ℤ)
    → links start_page total_pages ≡ (i, j, pre, next)
    → never_ends j ≡ false
    → paging start_page total_pages ≡ some (joined (paging_pieces start_page (i, j, pre, next)))
unfolding paging
paging-made start_page total_pages i j pre next e ends =
    let finish : ℕ × ℤ × ℕ × ℤ → Option Bytes = λ linked.
      if never_ends linked.1 then none else some (joined (paging_pieces start_page linked)) in
    ap finish e ∙ rw ends refl

results_page-made :
    (sentence : Bytes) (start_page total_pages : ℕ) (result : PlainSearchResult) (i : ℕ) (j : ℤ)
    (pre : ℕ) (next : ℤ)
    → links start_page total_pages ≡ (i, j, pre, next)
    → never_ends j ≡ false
    → results_page sentence start_page total_pages result
      ≡ some (
          page_of sentence total_pages result (joined (paging_pieces start_page (i, j, pre, next))))
unfolding results_page
results_page-made sentence start_page total_pages result i j pre next e ends =
    let made = paging-made start_page total_pages i j pre next e ends in
    rw (made, results_page) refl

-- On every page that there is, whose number with seven more is still a `short`: as long as no text of the
-- results and not the sentence holds a percent sign or a null byte, a page of results is made and
-- printed as it is. As long as the sentence, the urls and the times hold no `<`, it has the tags of the
-- program and no others, whatever else the titles and the contents hold: those of the head, for each
-- result the same nine, one link for each page from the first to the last that is linked, and « and ».
pub results_page-tags :
    (sentence : Bytes) (start_page total_pages : ℕ) (result : PlainSearchResult)
    → 0 < start_page
    → start_page ≤ total_pages
    → start_page + 7 < 2 ^ 15
    → IsVerbatim sentence
    → All HasVerbatim result.nodes
    → Plain sentence
    → All HasPlainUrl result.nodes
    → (page : Bytes) × (i : ℕ) × (j : ℕ) × (pre : ℕ) × (next : ℕ) × (results_page sentence
          start_page total_pages result
        ≡ some page)
      × (print_f false page ≡ some page)
      × (links start_page total_pages ≡ (i, pos j, pre, pos next))
      × (tags page
          ≡ head_tags
            ++ (repeated (length result.nodes) result_tags
                ++ (list_tags ++ (repeated (j + 1 - i) link_tags ++ end_tags))))
results_page-tags sentence start_page total_pages result positive there small v w h k =
    let (i, j, pre, next, linked, _, at, to, within, row, _, _) =
      links_within start_page total_pages positive there (omega arith) in
    let ends : (j == 32767) ≡ false = ground arith in
    let pages = joined (paging_pieces start_page (i, pos j, pre, pos next)) in
    let body = html2body-Gives sentence total_pages h in
    let shown = search_a-Gives result.nodes k in
    let paged = paging_pieces-Gives start_page i (pos j) pre (pos next) in
    (
      page_of sentence total_pages result pages,
      i,
      j,
      pre,
      next,
      results_page-made sentence start_page total_pages result i (pos j) pre (pos next) linked ends,
      print_f-IsVerbatim (page_of sentence total_pages result pages) (
          page_of-IsVerbatim sentence total_pages result pages v w
            (paging_pieces-IsVerbatim start_page i (pos j) pre (pos next))),
      linked,
      three_parts (html2body sentence total_pages) (search_a result.nodes) pages head_tags
          (repeated (length result.nodes) result_tags) _ body shown paged,
    )
