-- ===== src/Spider/Crew.antt =====
-- The worker processes that `master` starts, over the shared memory, the files and the database: any number
-- of src/spider/crawl_worker.cc and of src/spider/parse_worker.cc, each at one of its labels. The blocks
-- under a lock are whole; between two of them the other workers may run.
pub mod Safe
pub mod Sound
pub mod Stays
pub mod Faultless
pub mod Waiting
use amigao.Base.{Option, some, none, ◌≡◌, Bytes}
use amigao.Spider.Pages.{put_page, take_page}
use amigao.Spider.Worker.{
  DbOperation, Outside, Spider, again, has_url, taken, skipped, fetched, c_string, next_url, visit,
  digest, crawl_digest,
}

pub data Kind : Type 0 where
  crawls parses : Kind

-- At `start:`, at `has_url:` with a url, or with the html of a url.
pub data Phase : Type 0 where
  at_start : Phase
  with_url : Bytes → Phase
  with_html : Bytes → Bytes → Phase

pub record Worker : Type 0 where
  pub kind : Kind
  pub phase : Phase

abbrev pub worker : Kind → Phase → Worker
worker kind phase = record { kind = kind; phase = phase }

module _ {D : Type 0} (op : DbOperation D) (out : Outside) where
  -- What one worker does next. A process that exits does nothing any more. A parse worker looks into the ring
  -- of pages before it takes a url, and a crawl worker digests a page only after it has found that ring
  -- full; as others may run in between, what was found there is left open.
  pub data Turn : Worker → Spider D → Worker → Spider D → Type 0 where
    takes :
        {kind : Kind} {url : Bytes} {s r : Spider D}
        → next_url s ≡ taken url r
        → Turn (worker kind at_start) s (worker kind (with_url url)) r
    skips :
        {kind : Kind} {url : Bytes} {s : Spider D} (d : D)
        → visit op out url s.database ≡ skipped d
        → Turn (worker kind (with_url url)) s (worker kind at_start) (record s { database = d })
    fetches :
        {kind : Kind} {work_url url html : Bytes} {s : Spider D}
        → visit op out work_url s.database ≡ fetched url html
        → Turn (worker kind (with_url work_url)) s (worker kind (with_html url html)) s
    puts :
        {url html : Bytes} {s : Spider D} {ring : _}
        → put_page url html s.html_ring ≡ some ring
        → Turn
            (worker crawls (with_html url html))
            s
            (worker crawls at_start)
            (record s { html_ring = ring })
    keeps_none :
        {url html : Bytes} {s r : Spider D}
        → crawl_digest op out url html s ≡ again r
        → Turn (worker crawls (with_html url html)) s (worker crawls at_start) r
    keeps_one :
        {url html link : Bytes} {s r : Spider D}
        → crawl_digest op out url html s ≡ has_url link r
        → Turn (worker crawls (with_html url html)) s (worker crawls (with_url link)) r
    reads :
        {work_url url html : Bytes} {s : Spider D} {ring : _}
        → take_page s.html_ring ≡ some ((work_url, html), ring)
        → c_string work_url ≡ some url
        → Turn
            (worker parses at_start)
            s
            (worker parses (with_html url html))
            (record s { html_ring = ring })
    stores :
        {url html : Bytes} {s r : Spider D}
        → digest op out url html s ≡ again r
        → Turn (worker parses (with_html url html)) s (worker parses at_start) r
