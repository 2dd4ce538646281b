-- ===== src/Server/Page.antt =====
-- The pages of the search server (src/http/search_server.cc), as the texts that it prints.
use amigao.Base.{
  ℕ, zero, suc, ◌+◌, ◌-◌, Bool, true, false, Option, none, some, List, [], ◌∷◌, ◌++◌, ◌==◌,
  if◌then◌else◌, Bytes, codes,
}
use amigao.Decimal.{print_number}
use amigao.Html.{str2html}
use amigao.Info.{ℤ, pos, negsuc}
use amigao.Search.{PlainSearchResultNode, PlainSearchResult}
use amigao.Server.{links}

-- The pieces of a text, one behind the other.
abbrev pub joined : List Bytes → Bytes
joined [] = []
joined (piece ∷ pieces) = piece ++ joined pieces

abbrev pub http_response_header : Bytes
http_response_header = codes "HTTP/1.1 200 OK\r\nContent-Type: text/html;charset=utf-8\r\n\r\n"

-- The page for a method other than GET.
abbrev pub invalid_method : Bytes
invalid_method = joined (
    http_response_header
    ∷ codes "<html><head><title>Invalid Request Method(only GET "
    ∷ codes "supported)</title><meta charset='utf-8'><link rel='stylesheet' "
    ∷ codes "type='text/css' href='/css/a_link.css'><link rel='stylesheet' "
    ∷ codes "type='text/css' href='/css/scrollbar_orange.css'>\t<style> "
    ∷ codes "html,body{background-color:#282a36;color:#868686;margin:0;}</"
    ∷ codes "style></head><body style='overflow-x:hidden'><h1 "
    ∷ codes "style='text-align:center;'>Invalid Request Method (only GET is "
    ∷ codes "allowed)</h1></body></html>"
    ∷ [])

-- The start of the two other pages.
abbrev pub page_head : Bytes
page_head = joined (
    codes "<html><head><title>amigao</title><meta charset='utf-8'><link "
    ∷ codes "rel='stylesheet' type='text/css' href='/css/a_link.css'><link "
    ∷ codes "rel='stylesheet' type='text/css' "
    ∷ codes "href='/css/scrollbar_orange.css'><link rel='stylesheet' "
    ∷ codes "type='text/css' href='/css/paging.css'></link> <style> "
    ∷ codes "html,body{background-color:#282a36;color:#868686;margin:0;}</"
    ∷ [])

-- The page for a search without results.
unfoldable pub no_result : Bytes → Bytes
no_result sentence = joined (
    http_response_header
    ∷ page_head
    ∷ codes "style></head><body style='overflow-x:hidden'><h3>sorry,there are no "
    ∷ codes "result about:<br></h3>&nbsp;&nbsp;&nbsp;"
    ∷ sentence
    ∷ codes "</body></html>"
    ∷ [])

abbrev pub body_pieces : Bytes → ℕ → List Bytes
body_pieces sentence results_per_page =
    (page_head ++ codes "style><script>function paging(page){window.parent.amigao_paging('")
    ∷ sentence
    ∷ codes "',page,"
    ∷ print_number results_per_page
    ∷ (codes ");}</script></head><body style='overflow-x:hidden'><h3 "
        ++ codes "style='text-align:center'>")
    ∷ sentence
    ∷ codes "</h3>"
    ∷ []

unfoldable pub html2body : Bytes → ℕ → Bytes
html2body sentence results_per_page = joined (body_pieces sentence results_per_page)

-- What stands in the place of an empty text.
abbrev pub or_else : Bytes → Bytes → Bytes
or_else [] other = other
or_else (c ∷ cs) other = c ∷ cs

-- A result as a part of the page.
abbrev pub result_pieces : PlainSearchResultNode → List Bytes
result_pieces node =
    let url = or_else node.url (codes "#empty") in
    let contents = or_else (str2html node.contents) (codes "#empty") in
    let title = or_else (str2html node.title) url in
    let time = or_else node.last_time (codes "#empty") in
    codes "<div><a href='http://"
    ∷ url
    ∷ codes "' title='"
    ∷ url
    ∷ codes "' target='_blank' style='font-size:18px'>"
    ∷ title
    ∷ codes "</a>&nbsp;&nbsp;&nbsp;&nbsp;"
    ∷ time
    ∷ codes "<br>&nbsp;&nbsp;&nbsp;&nbsp;&nbsp;"
    ∷ contents
    ∷ codes "...<br><i>"
    ∷ url
    ∷ codes "</i></div><br>"
    ∷ []

unfoldable pub result_html : PlainSearchResultNode → Bytes
result_html node = joined (result_pieces node)

-- `search_a`: the texts of all results.
unfoldable pub search_a : List PlainSearchResultNode → Bytes
unfolding result_html
search_a [] = []
search_a (node ∷ nodes) = result_html node ++ search_a nodes

-- The link to the page `i`, or the mark of the page that is shown.
unfoldable pub page_link : ℕ → ℕ → Bytes
page_link start_page i =
    if i == start_page
    then joined (codes "<li><a href='#' class='active'>" ∷ print_number i ∷ codes "</a></li>" ∷ [])
    else joined (
        codes "<li><a href='javascript:paging("
        ∷ print_number i
        ∷ codes ")'>"
        ∷ print_number i
        ∷ codes "</a></li>"
        ∷ [])

-- `while (i <= j)`, on the rounds that are left.
unfoldable pub page_links : ℕ → ℕ → ℕ → Bytes
unfolding page_link
page_links start_page i zero = []
page_links start_page i (suc more) = page_link start_page i ++ page_links start_page (i + 1) more

-- How many pages there are from `i` to `j`.
abbrev pub pages_to : ℕ → ℤ → ℕ
pages_to i (pos j) = j + 1 - i
pages_to i (negsuc n) = 0

abbrev pub print_int : ℤ → Bytes
print_int (pos n) = print_number n
print_int (negsuc n) = b'-' ∷ print_number (n + 1)

-- The list of pages; « and » are the two bytes that they have in UTF-8.
unfoldable pub paging_pieces : ℕ → ℕ × ℤ × ℕ × ℤ → List Bytes
unfolding page_links
paging_pieces start_page (i, j, pre, next) =
    (codes "<div style='text-align:center;'><ul class='paging'><li><a "
      ++ codes "href='javascript:paging(")
    ∷ print_number pre
    ∷ (codes ")'>" ++ 194 ∷ 171 ∷ codes "</a></li>")
    ∷ page_links start_page i (pages_to i j)
    ∷ codes "<li><a href='javascript:paging("
    ∷ print_int next
    ∷ (codes ")'>" ++ 194 ∷ 187 ∷ codes "</a></li></ul></div></body></html>")
    ∷ []

-- `while (i <= j) ++i` never ends where `j` is the largest `short`: `none`.
abbrev pub never_ends : ℤ → Bool
never_ends (pos j) = j == 32767
never_ends (negsuc n) = false

unfoldable pub paging : ℕ → ℕ → Option Bytes
unfolding links paging_pieces
paging start_page total_pages =
    let linked = links start_page total_pages in
    if never_ends linked.1 then none else some (joined (paging_pieces start_page linked))

-- The page for a search with results.
unfoldable pub results_page : Bytes → ℕ → ℕ → PlainSearchResult → Option Bytes
unfolding html2body search_a paging
results_page sentence start_page total_pages result = elim (paging start_page total_pages) [
  | none ↦ none
  | some pages ↦ some (
      joined (
        http_response_header ∷ html2body sentence total_pages ∷ search_a result.nodes ∷ pages ∷ []))
]

-- `FCGX_FPrintF(out, final_response.c_str())`: the page is a format without arguments, up to its first null
-- byte. Two percent signs print one; any other conversion asks for an argument that is not there, which C
-- leaves undefined: `none`. The first argument says whether a percent sign stands in front.
unfoldable pub print_f : Bool → Bytes → Option Bytes
print_f false [] = some []
print_f true [] = none
print_f false (c ∷ cs) =
    let conversion = print_f true cs in
    let rest = print_f false cs in
    if c == 0
    then some []
    else if c == b'%'
    then conversion
    else elim rest [ none ↦ none | some text ↦ some (c ∷ text) ]
print_f true (c ∷ cs) =
    let rest = print_f false cs in
    if c == b'%' then elim rest [ none ↦ none | some text ↦ some (c ∷ text) ] else none
