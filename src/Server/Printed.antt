-- ===== src/Server/Printed.antt =====
-- Pages that are printed as they are (src/http/search_server.cc).
use amigao.Base.{
  ℕ, zero, suc, ◌+◌, Bool, true, false, not, ◌&&◌, ◌||◌, List, [], ◌∷◌, ◌++◌, some, ◌≡◌, refl, inl,
  inr, arith, ◌==◌, Bool-cases, All, Bytes, codes,
}
use amigao.Decimal.{IsDigit, print_number, print_number-IsDigit}
use amigao.Html.{entity, convert_from, str2html}
use amigao.Info.{ℤ, pos, negsuc}
use amigao.Search.{PlainSearchResultNode, PlainSearchResult}
use amigao.Server.Page.{
  joined, body_pieces, or_else, result_pieces, result_html, paging_pieces, http_response_header,
  html2body, search_a, page_link, page_links, pages_to, print_int, print_f,
}

abbrev is_verbatim : Bytes → Bool
is_verbatim [] = true
is_verbatim (c ∷ cs) = not (c == 0 || c == b'%') && is_verbatim cs

-- A text without a percent sign and without a null byte.
abbrev pub IsVerbatim : Bytes → Type 0
IsVerbatim text = is_verbatim text ≡ true

-- Such are the texts of a result that stand on a page.
abbrev pub HasVerbatim : PlainSearchResultNode → Type 0
HasVerbatim node =
    IsVerbatim node.url
    × IsVerbatim node.title
    × IsVerbatim node.contents
    × IsVerbatim node.last_time

pub print_f-IsVerbatim : (text : Bytes) → IsVerbatim text → print_f false text ≡ some text
unfolding print_f
print_f-IsVerbatim [] h = refl
print_f-IsVerbatim (c ∷ cs) h =
    let no_null : (c == 0) ≡ false = ground arith in
    let no_sign : (c == b'%') ≡ false = ground arith in
    let rest = print_f-IsVerbatim cs (ground arith) in rw (no_null, no_sign) (rw rest refl)

IsVerbatim-append : (x y : Bytes) → IsVerbatim x → IsVerbatim y → IsVerbatim (x ++ y)
IsVerbatim-append [] y h k = k
IsVerbatim-append (c ∷ cs) y h k =
    let rest : IsVerbatim (cs ++ y) = IsVerbatim-append cs y (ground arith) k in
    let first : (c == 0 || c == b'%') ≡ false = ground arith in rw (first, rest)

joined-IsVerbatim : (pieces : List Bytes) → All IsVerbatim pieces → IsVerbatim (joined pieces)
joined-IsVerbatim [] h = refl
joined-IsVerbatim (piece ∷ pieces) h =
    IsVerbatim-append piece (joined pieces) h.0 (joined-IsVerbatim pieces h.1)

digits-IsVerbatim : (text : Bytes) → All IsDigit text → IsVerbatim text
digits-IsVerbatim [] h = refl
digits-IsVerbatim (c ∷ cs) h =
    let digit = h.0 in
    let first : (c == 0 || c == b'%') ≡ false = ground arith in rw (first, digits-IsVerbatim cs h.1)

print_number-IsVerbatim : (n : ℕ) → IsVerbatim (print_number n)
print_number-IsVerbatim n = digits-IsVerbatim (print_number n) (print_number-IsDigit n)

print_int-IsVerbatim : (n : ℤ) → IsVerbatim (print_int n)
print_int-IsVerbatim (pos n) = print_number-IsVerbatim n
print_int-IsVerbatim (negsuc n) = print_number-IsVerbatim (n + 1)

entity-IsVerbatim : (c : ℕ) → (c == 0 || c == b'%') ≡ false → IsVerbatim (entity c)
unfolding entity
entity-IsVerbatim c h = ground arith

convert_from-IsVerbatim :
    (res s : Bytes) → IsVerbatim res → IsVerbatim s → IsVerbatim (convert_from res s)
unfolding convert_from
convert_from-IsVerbatim res [] h k = h
convert_from-IsVerbatim res (c ∷ cs) h k =
    convert_from-IsVerbatim (res ++ entity c) cs
      (IsVerbatim-append res (entity c) h (entity-IsVerbatim c (ground arith))) (ground arith)

str2html-IsVerbatim : (s : Bytes) → IsVerbatim s → IsVerbatim (str2html s)
unfolding str2html
str2html-IsVerbatim s h = convert_from-IsVerbatim [] s refl h

or_else-IsVerbatim :
    (text other : Bytes) → IsVerbatim text → IsVerbatim other → IsVerbatim (or_else text other)
or_else-IsVerbatim [] other h k = k
or_else-IsVerbatim (c ∷ cs) other h k = h

result_html-IsVerbatim :
    (node : PlainSearchResultNode) → HasVerbatim node → IsVerbatim (result_html node)
unfolding result_html
result_html-IsVerbatim node h =
    let url = or_else-IsVerbatim node.url (codes "#empty") h.0 refl in
    let time = or_else-IsVerbatim node.last_time (codes "#empty") h.3 refl in
    let contents =
      or_else-IsVerbatim (str2html node.contents) (codes "#empty")
        (str2html-IsVerbatim node.contents h.2) refl in
    let title =
      or_else-IsVerbatim (str2html node.title) (or_else node.url (codes "#empty"))
        (str2html-IsVerbatim node.title h.1) url in
    joined-IsVerbatim (result_pieces node) (
      refl,
      (
        url,
        (
          refl,
          (url, (refl, (title, (refl, (time, (refl, (contents, (refl, (url, (refl, tt)))))))))),
        ),
      ),
    )

search_a-IsVerbatim :
    (nodes : List PlainSearchResultNode) → All HasVerbatim nodes → IsVerbatim (search_a nodes)
unfolding search_a
search_a-IsVerbatim [] h = refl
search_a-IsVerbatim (node ∷ nodes) h =
    IsVerbatim-append (result_html node) (search_a nodes) (result_html-IsVerbatim node h.0)
      (search_a-IsVerbatim nodes h.1)

page_link-IsVerbatim : (start_page i : ℕ) → IsVerbatim (page_link start_page i)
unfolding page_link
page_link-IsVerbatim start_page i =
    let number = print_number-IsVerbatim i in
    elim (Bool-cases (i == start_page)) [
      | inl here ↦ rw here (
          joined-IsVerbatim
            (codes "<li><a href='#' class='active'>" ∷ print_number i ∷ codes "</a></li>" ∷ [])
            (refl, (number, (refl, tt))))
      | inr other ↦ rw other (
          joined-IsVerbatim
            (codes "<li><a href='javascript:paging("
              ∷ print_number i
              ∷ codes ")'>"
              ∷ print_number i
              ∷ codes "</a></li>"
              ∷ [])
            (refl, (number, (refl, (number, (refl, tt))))))
    ]

page_links-IsVerbatim : (start_page i more : ℕ) → IsVerbatim (page_links start_page i more)
unfolding page_links
page_links-IsVerbatim start_page i zero = refl
page_links-IsVerbatim start_page i (suc more) =
    IsVerbatim-append (page_link start_page i) (page_links start_page (i + 1) more)
      (page_link-IsVerbatim start_page i) (page_links-IsVerbatim start_page (i + 1) more)

pub paging_pieces-IsVerbatim :
    (start_page i : ℕ) (j : ℤ) (pre : ℕ) (next : ℤ)
    → IsVerbatim (joined (paging_pieces start_page (i, j, pre, next)))
unfolding paging_pieces
paging_pieces-IsVerbatim start_page i j pre next =
    let back = print_number-IsVerbatim pre in
    let on = print_int-IsVerbatim next in
    let middle = page_links-IsVerbatim start_page i (pages_to i j) in
    joined-IsVerbatim (paging_pieces start_page (i, j, pre, next))
      (refl, (back, (refl, (middle, (refl, (on, (refl, tt)))))))

-- The page with its list of pages.
abbrev pub page_of : Bytes → ℕ → PlainSearchResult → Bytes → Bytes
page_of sentence total_pages result pages =
    joined
      (http_response_header ∷ html2body sentence total_pages ∷ search_a result.nodes ∷ pages ∷ [])

html2body-IsVerbatim :
    (sentence : Bytes) (pages : ℕ) → IsVerbatim sentence → IsVerbatim (html2body sentence pages)
unfolding html2body
html2body-IsVerbatim sentence pages h =
    let number = print_number-IsVerbatim pages in
    joined-IsVerbatim (body_pieces sentence pages)
      (refl, (h, (refl, (number, (refl, (h, (refl, tt)))))))

pub page_of-IsVerbatim :
    (sentence : Bytes) (total_pages : ℕ) (result : PlainSearchResult) (pages : Bytes)
    → IsVerbatim sentence
    → All HasVerbatim result.nodes
    → IsVerbatim pages
    → IsVerbatim (page_of sentence total_pages result pages)
page_of-IsVerbatim sentence total_pages result pages h k p =
    joined-IsVerbatim
      (http_response_header ∷ html2body sentence total_pages ∷ search_a result.nodes ∷ pages ∷ [])
      (
        refl,
        (
          html2body-IsVerbatim sentence total_pages h,
          (search_a-IsVerbatim result.nodes k, (p, tt)),
        ),
      )
