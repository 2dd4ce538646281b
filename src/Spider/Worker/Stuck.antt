-- ===== src/Spider/Worker/Stuck.antt =====
-- Rounds that change nothing.
use amigao.Base.{true, List, [], ◌∷◌, none, some, ◌≡◌, arith, ◌==◌, Bytes}
use amigao.Spider.Pages.{HtmlQueue, take_page}
use amigao.Spider.Queue.{UrlQueue, take_url}
use amigao.Spider.Worker.{
  DbOperation, Outside, Spider, again, retry, next_url, crawl_round, parse_round,
}

take_url-none : (q : UrlQueue) → q.url_head ≡ q.url_tail → take_url q ≡ none
unfolding take_url
take_url-none q h = let same : (q.url_head == q.url_tail) ≡ true = ground arith in rw same

pub take_page-none : (q : HtmlQueue) → q.html_head ≡ q.html_tail → take_page q ≡ none
unfolding take_page
take_page-none q h = let same : (q.html_head == q.html_tail) ≡ true = ground arith in rw same

pub next_url-retry :
    {D : Type 0} (s : Spider D) (lines : List Bytes)
    → s.url_ring.url_head ≡ s.url_ring.url_tail
    → s.read_url ≡ some ([] ∷ lines)
    → next_url s ≡ retry
unfolding next_url
next_url-retry s lines ring e = rw (take_url-none s.url_ring ring, next_url) (simp e)

module _ {D : Type 0} (op : DbOperation D) (out : Outside) where
  pub rounds_stuck :
      (s : Spider D) (lines : List Bytes)
      → s.url_ring.url_head ≡ s.url_ring.url_tail
      → s.html_ring.html_head ≡ s.html_ring.html_tail
      → s.read_url ≡ some ([] ∷ lines)
      → (crawl_round op out none s ≡ again s) × (parse_round op out s ≡ again s)
  unfolding crawl_round parse_round
  rounds_stuck s lines ring pages e =
      let wait = next_url-retry s lines ring e in
      (rw (wait, crawl_round), rw (take_page-none s.html_ring pages, parse_round) (rw wait))
