-- ===== src/Tests/Crew.antt =====
-- A crawl worker and a parse worker over a ring with one url.
use amigao.Base.{ℕ, zero, suc, ◌≡◌, true, false, List, [], ◌∷◌, none, some, refl, Bytes, codes}
use amigao.Interleaving.{none_left}
use amigao.Spider.Crew.{Worker, worker, crawls, parses, at_start, with_url}
use amigao.Spider.Master.{cleared}
use amigao.Spider.Pages.{HtmlQueue}
use amigao.Spider.Worker.{DbOperation, Outside, Spider, again, crawl_round, parse_round}
use amigao.Spider.Crew.Waiting.{workers_wait}

abbrev site : Bytes
site = codes "a.b"

abbrev op : DbOperation (Unit {0})
op = record {
  get_website_nice = λ d u. 1;
  if_visited = λ d u. false;
  op_website_nice = λ d u. d;
  valuate_page = λ d u p h. d;
}

-- An array of zeros.
abbrev zeros : ℕ → Bytes
zeros zero = []
zeros (suc n) = 0 ∷ zeros n

-- Every website answers with one short text, and every page has one link.
abbrev out : Outside
out = record {
  exchange = λ host request. some (zeros 1024, codes "HTTP/1.1 200 OK\r\n\r\nhi" ∷ [], true);
  to_utf8 = λ text. [];
  parse_page = λ html. record { title = []; contents = []; links = site ∷ [] };
}

abbrev no_pages : HtmlQueue
no_pages = record { html_queue = λ _ _. 0; html_head = 59; html_tail = 59 }

-- Nothing but one line in the file.
abbrev one_line : Spider (Unit {0})
one_line = record {
  url_ring = cleared;
  html_ring = no_pages;
  read_url = some (site ∷ []);
  write_url = some [];
  database = tt;
}

abbrev two_workers : List Worker
two_workers = worker parses at_start ∷ worker crawls at_start ∷ []

abbrev one_in_hand : List Worker
one_in_hand = worker parses at_start ∷ worker crawls (with_url site) ∷ []

abbrev line_taken : Spider (Unit {0})
line_taken = record one_line { read_url = some [] }

-- The workers on a file that starts with an empty line.
abbrev blank_first : Spider (Unit {0})
blank_first = record one_line { read_url = some ([] ∷ site ∷ []) }

workers_wait_example :
    (two_workers ≡ two_workers)
    × (blank_first ≡ blank_first)
    × (crawl_round op out none blank_first ≡ again blank_first)
    × (parse_round op out blank_first ≡ again blank_first)
workers_wait_example =
    workers_wait op out two_workers blank_first two_workers blank_first (refl, (refl, tt))
      (record { ring = refl; page_ring = refl; lines = site ∷ []; file = refl }) none_left
