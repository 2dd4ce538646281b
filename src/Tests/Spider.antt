-- ===== src/Tests/Spider.antt =====
-- The spider at concrete rings, answers and pages.
use Prim.Native.Nat.{min}
use amigao.Base.{
  ℕ, suc, ◌-◌, true, false, List, [], ◌∷◌, ◌++◌, none, some, ◌≡◌, ◌⊎◌, refl, arith, All, Bytes,
  codes,
}
use amigao.Spider.{UrlQueue, put_url, insert_links, put_links, url_insert_size}
use amigao.Spider.Master.{Database, cleared, fill, at_exit}
use amigao.Spider.Master.Filled.{at_exit-urls}
use amigao.Spider.Pages.{HtmlQueue, put_page, kept}
use amigao.Spider.Pages.Order.{pages, used_pages, IsPageQueue, put_page-pages}
use amigao.Spider.Ring.{IsQueue, IsUrl, urls, used, IsPut, insert_links-IsPut}
use amigao.Spider.Worker.{DbOperation, Outside, Spider, again, digest, store_links, put_aside}
use amigao.Spider.Worker.Links.{IsTreated, IsWantedLink, IsStored, GivesUrls, digest-IsStored}
use amigao.Url.{
  format_url, effective, clean, to_lower, skip_blanks, cut_tail, scan, skip_scheme, skip_www,
  is_script, keeps, check_url,
}
use amigao.Values.{url_nums, html_nums}

abbrev site : Bytes
site = codes "a.b"

site-IsUrl : IsUrl site
site-IsUrl = (ground arith, omega arith)

abbrev one_url : UrlQueue
one_url = put_url site cleared

one_url-IsQueue : IsQueue one_url
unfolding put_url
one_url-IsQueue = record { head = omega arith; tail = omega arith }

cleared-IsQueue : IsQueue cleared
cleared-IsQueue = record { head = omega arith; tail = omega arith }

insert_links-IsPut_example :
    IsPut
      (site ∷ [])
      cleared
      (insert_links (site ∷ []) cleared).0
      (insert_links (site ∷ []) cleared).1
      (min 1 (url_nums - 1 - used cleared))
insert_links-IsPut_example = insert_links-IsPut (site ∷ []) cleared (site-IsUrl, tt) cleared-IsQueue

abbrev no_pages : HtmlQueue
no_pages = record { html_queue = λ _ _. 0; html_head = 59; html_tail = 59 }

no_pages-IsPageQueue : IsPageQueue no_pages
no_pages-IsPageQueue = record { head = omega arith; tail = omega arith }

put_page-pages_example :
    ((put_page site (codes "<p>") no_pages ≡ none) × (used_pages no_pages ≡ html_nums - 1))
    ⊎ ((r : HtmlQueue) × (put_page site (codes "<p>") no_pages ≡ some r)
        × (pages r ≡ pages no_pages ++ (site, kept (codes "<p>")) ∷ [])
        × IsPageQueue r)
put_page-pages_example =
    put_page-pages site (codes "<p>") no_pages site-IsUrl (ground arith) no_pages-IsPageQueue

abbrev database : Database
database = record { get_website_nice = λ _. 1; if_visited = λ _. false }

filled : fill database (codes "http://A.b/" ∷ codes "/x" ∷ []) cleared ≡ some one_url
unfolding fill put_url format_url effective clean to_lower skip_blanks cut_tail scan skip_scheme
    skip_www is_script keeps check_url
filled = refl

at_exit-urls_example :
    ((at_exit true one_url).0 ≡ urls one_url) × (urls (at_exit true one_url).1 ≡ [])
at_exit-urls_example = at_exit-urls true one_url one_url-IsQueue

-- A database that knows nothing, and a parser that finds one link.
abbrev operation : DbOperation ℕ
operation = record {
  get_website_nice = λ _ _. 1;
  if_visited = λ _ _. false;
  op_website_nice = λ d _. d;
  valuate_page = λ d _ _ _. suc d;
}

abbrev outside : Outside
outside = record {
  exchange = λ _ _. none;
  to_utf8 = λ html. html;
  parse_page = λ _. record { title = []; contents = []; links = site ∷ codes "b.c" ∷ [] };
}

outside-GivesUrls : GivesUrls outside
outside-GivesUrls html = ground arith

abbrev idle : Spider ℕ
idle = record {
  url_ring = cleared;
  html_ring = no_pages;
  read_url = some ([] ∷ site ∷ []);
  write_url = some [];
  database = 0;
}

digested :
    digest operation outside (codes "b.c") [] idle
    ≡ again (record idle { url_ring = one_url; database = 1 })
unfolding digest store_links put_aside insert_links put_links url_insert_size put_url
digested = refl

digest-IsStored_example :
    (stored : List Bytes) × All
      (IsTreated operation 1 (codes "b.c") stored)
      (site ∷ codes "b.c" ∷ [])
    × All (IsWantedLink operation 1 (codes "b.c") (site ∷ codes "b.c" ∷ [])) stored
    × IsStored stored cleared (some []) (record idle { url_ring = one_url; database = 1 })
digest-IsStored_example =
    digest-IsStored operation outside outside-GivesUrls (codes "b.c") [] idle cleared-IsQueue
      digested
