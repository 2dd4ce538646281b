-- ===== src/Spider/Worker.antt =====
-- One round of a crawl worker and of a parse worker, from `start:` to the next `goto start` or the end
-- of the loop's body. The locks let one worker at a time into each ring, so a round's steps on a ring
-- are whole.
pub mod Links
pub mod Stuck
use amigao.Base.{
  ℕ, ◌+◌, Bool, true, false, not, ◌&&◌, ◌||◌, List, [], ◌∷◌, ◌++◌, Option, none, some, ltb, ◌==◌,
  if◌then◌else◌, length, drop, Bytes, codes, text_eq,
}
use amigao.Codec.{crypt}
use amigao.Spider.Pages.{HtmlQueue, put_page, take_page}
use amigao.Spider.Queue.{UrlQueue, take_url, insert_links}
use amigao.Spider.Response.{span, formated_html}
use amigao.Url.{is_nil, parse_url}
use amigao.Values.{url_size, html_size}

pub record Page : Type 0 where
  pub title : Bytes
  pub contents : Bytes
  pub links : List Bytes

-- What a worker uses of `DBOperationInterface` and of its valuation strategy, on a database `D`: the
-- nice value of a website, of which only 0 matters, whether a crypted url is among the visited ones,
-- the nice value 0 for a website, and the valuation of a page.
pub record DbOperation (D : Type 0) : Type 0 where
  pub get_website_nice : D → Bytes → ℕ
  pub if_visited : D → Bytes → Bool
  pub op_website_nice : D → Bytes → D
  pub valuate_page : D → Bytes → Page → Bytes → D

-- What lies outside: for a host and a request, what the array `html_buf` holds at first, the bytes of
-- every `recv`, and whether the last `recv` was no error (`none` is a failure to get so far); the conversion of a page to UTF-8; and the parser
-- of pages, whose links have no order and no repetition in the program.
pub record Outside : Type 0 where
  pub exchange : Bytes → Bytes → Option (Bytes × List Bytes × Bool)
  pub to_utf8 : Bytes → Bytes
  pub parse_page : Bytes → Page

-- The shared memory, the two files of urls (`none` where a file cannot be opened) and the database.
pub record Spider (D : Type 0) : Type 0 where
  pub url_ring : UrlQueue
  pub html_ring : HtmlQueue
  pub read_url : Option (List Bytes)
  pub write_url : Option (List Bytes)
  pub database : D

-- How a round ends: at `start` with no url or with a url in hand, by `exit(1)`, or by an access out of
-- the bounds of an array.
pub data Outcome (D : Type 0) : Type 0 where
  again : Spider D → Outcome D
  has_url : Bytes → Spider D → Outcome D
  exited : Outcome D
  fault : Outcome D

-- What the first part of a round takes: a url, or nothing yet.
pub data Taken (D : Type 0) : Type 0 where
  taken : Bytes → Spider D → Taken D
  retry : Taken D
  stopped : Taken D

-- What comes of a url: nothing but a change of the database, a page, or a fault.
pub data Fetched (D : Type 0) : Type 0 where
  skipped : D → Fetched D
  fetched : Bytes → Bytes → Fetched D
  broken : Fetched D

-- `work_url` as a C string, once the bytes are in the array: they must fit, and a null byte must end
-- them.
unfoldable pub c_string : Bytes → Option Bytes
c_string bytes =
    let (text, rest) = span (λ c. not (c == 0)) bytes in
    if ltb url_size (length bytes) || is_nil rest && length bytes == url_size
    then none
    else some text

-- What comes of a connection: a failure, a read behind the end of `html_buf`, or a text.
pub data Received : Type 0 where
  refused overrun : Received
  received : Bytes → Received

-- `html_buf` after a `recv` of `t`: its other bytes stay as they were.
abbrev pub overwrite : Bytes → Bytes → Bytes
overwrite t html_buf = t ++ drop (length t) html_buf

-- `raw_html += html_buf` takes the bytes up to the first null byte of the array; what is behind it.
abbrev pub up_to_null : Bytes → Bytes × Bytes
up_to_null = span (λ c. not (c == 0))

-- The `recv` loop.
unfoldable pub receive : Bytes → Bytes → List Bytes → Bool → Received
receive html_buf raw_html [] closed = if closed then received raw_html else refused
receive html_buf raw_html (t ∷ ts) closed =
    let (text, ended) = up_to_null (overwrite t html_buf) in
    let rest = receive (overwrite t html_buf) (raw_html ++ text) ts closed in
    if is_nil ended
    then overrun
    else if ltb html_size (length (raw_html ++ text))
    then refused
    else rest

-- The urls without those that pass the test.
abbrev pub without : (Bytes → Bool) → List Bytes → List Bytes
without p [] = []
without p (l ∷ ls) = if p l then without p ls else l ∷ without p ls

abbrev pub request : Bytes → Bytes → Bytes
request host_url page_path =
    codes "GET "
    ++ (page_path
        ++ (codes " HTTP/1.1\r\nHost: "
            ++ (host_url
                ++ codes
                    "\r\nAccept: text/html,application/xhtml+xml,application/xml;q=0.9,image/webp,image/apng,*/*;q=0.8,application/signed-exchange;v=b3;q=0.9\r\nReferer: https://cn.bing.com/\r\nUser-Agent: Mozilla/5.0 (X11; Linux x86_64) AppleWebKit/537.36 (KHTML, like Gecko) Chrome/80.0.3987.132 Safari/537.36\r\nConnection: Close\r\n\r\n")))

-- The html of a text that is received, as UTF-8.
abbrev pub html_of : (Bytes → Bytes) → Received → Received
html_of to_utf8 refused = refused
html_of to_utf8 overrun = overrun
html_of to_utf8 (received raw_html) = elim (formated_html raw_html) [
  | none ↦ refused
  | some html ↦ received (to_utf8 html)
]

-- What is left of the links goes to the end of the file.
unfoldable pub put_aside : {D : Type 0} → List Bytes → Spider D → Outcome D
put_aside [] s = again s
put_aside (l ∷ ls) s = elim s.write_url [
  | none ↦ exited
  | some lines ↦ again (record s { write_url = some (lines ++ (l ∷ ls)) })
]

-- The links go into the ring, and those left over to the file.
unfoldable pub store_links : {D : Type 0} → List Bytes → Spider D → Outcome D
unfolding put_aside
store_links links s =
    let rest = insert_links links s.url_ring in put_aside rest.1 (record s { url_ring = rest.0 })

-- From `start:` to `has_url:`.
unfoldable pub next_url : {D : Type 0} → Spider D → Taken D
next_url s = elim (take_url s.url_ring) [
  | some (url, ring) ↦ taken url (record s { url_ring = ring })
  | none ↦ elim s.read_url [
    | none ↦ stopped
    | some [] ↦ retry
    | some (line ∷ lines) ↦
        if is_nil line then retry else taken line (record s { read_url = some lines })
  ]
]

-- What `store_links` leads to where the worker keeps the url `url` in hand.
abbrev pub keeping : {D : Type 0} → Bytes → Outcome D → Outcome D
keeping url (again s) = has_url url s
keeping url (has_url _ s) = has_url url s
keeping url exited = exited
keeping url fault = fault

-- A url that is visited already, or whose website has the nice value 0.
abbrev pub is_done : {D : Type 0} → DbOperation D → D → Bytes → Bool
is_done op d url = op.get_website_nice d url == 0 || op.if_visited d (crypt url)

-- `links`, once the page's own url and the urls that are done are erased.
abbrev pub wanted_links : {D : Type 0} → DbOperation D → D → Bytes → List Bytes → List Bytes
wanted_links op d url links = without (is_done op d) (without (λ l. text_eq l url) links)

module _ {D : Type 0} (op : DbOperation D) (out : Outside) where
  -- The html of a page; where it is refused the website gets the nice value 0.
  unfoldable pub download : Bytes → Bytes → Received
  download host_url page_path = elim (out.exchange host_url (request host_url page_path)) [
    | none ↦ refused
    | some (html_buf, texts, closed) ↦ html_of out.to_utf8 (receive html_buf [] texts closed)
  ]

  -- From `has_url:` to the page.
  unfoldable pub visit : Bytes → D → Fetched D
  visit work_url d = elim (c_string work_url) [
    | none ↦ broken
    | some url ↦ if is_done op d url then skipped d else elim (parse_url url) [
      | none ↦ broken
      | some (host_url, page_path) ↦ elim (download host_url page_path) [
        | refused ↦ skipped (op.op_website_nice d url)
        | overrun ↦ broken
        | received html ↦ fetched url html
      ]
    ]
  ]

  -- A page is valuated, and its wanted links are stored.
  unfoldable pub digest : Bytes → Bytes → Spider D → Outcome D
  digest url html s =
      let page = out.parse_page html in
      let d = op.valuate_page s.database url page html in
      store_links (wanted_links op d url page.links) (record s { database = d })

  -- The crawl worker's own digest, for a full ring of pages: the first link stays in its hand.
  unfoldable pub crawl_digest : Bytes → Bytes → Spider D → Outcome D
  crawl_digest url html s =
      let page = out.parse_page html in
      let d = op.valuate_page s.database url page html in
      let r : Spider D = record s { database = d } in
      elim (wanted_links op d url page.links) [
        | [] ↦ again r
        | l ∷ ls ↦ keeping l (store_links ls r)
      ]

  -- A crawl worker from `has_url:` on.
  unfoldable pub crawl_url : Bytes → Spider D → Outcome D
  crawl_url work_url s = elim (visit work_url s.database) [
    | broken ↦ fault
    | skipped d ↦ again (record s { database = d })
    | fetched url html ↦ elim (put_page url html s.html_ring) [
      | some ring ↦ again (record s { html_ring = ring })
      | none ↦ crawl_digest url html s
    ]
  ]

  -- A round of the crawl worker, with or without a url in hand.
  unfoldable pub crawl_round : Option Bytes → Spider D → Outcome D
  crawl_round (some work_url) s = crawl_url work_url s
  crawl_round none s = elim (next_url s) [
    | taken work_url r ↦ crawl_url work_url r
    | retry ↦ again s
    | stopped ↦ exited
  ]

  -- A parse worker from `has_url:` on.
  unfoldable pub parse_fetched : Bytes → Spider D → Outcome D
  parse_fetched work_url s = elim (visit work_url s.database) [
    | broken ↦ fault
    | skipped d ↦ again (record s { database = d })
    | fetched url html ↦ digest url html s
  ]

  -- A round of the parse worker: a page of the ring comes first.
  unfoldable pub parse_round : Spider D → Outcome D
  parse_round s = elim (take_page s.html_ring) [
    | some ((work_url, html), ring) ↦ elim (c_string work_url) [
      | none ↦ fault
      | some url ↦ digest url html (record s { html_ring = ring })
    ]
    | none ↦ elim (next_url s) [
      | taken work_url r ↦ parse_fetched work_url r
      | retry ↦ again s
      | stopped ↦ exited
    ]
  ]
