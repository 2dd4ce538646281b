-- ===== src/Spider/Crew/Faultless.antt =====
-- What any number of workers do over time.
use amigao.Base.{none, ◌≢◌, All, Bytes}
use amigao.Spider.Copies.{IsChar}
use amigao.Spider.Crew.{Kind, crawls, parses, at_start, with_url, with_html, Worker}
use amigao.Spider.Crew.Safe.{IsSafe}
use amigao.Spider.Worker.{
  DbOperation, Outside, Spider, fault, digest, crawl_digest, crawl_url, crawl_round, parse_fetched,
  parse_round,
}
use amigao.Spider.Crew.Stays.{Stays}

-- A crawl worker copies its html into the ring of pages.
abbrev IsText : Kind → Bytes → Type 0
IsText crawls html = All IsChar html
IsText parses html = Unit

-- The url that a worker has in hand is safe, and so is the html of a crawl worker.
abbrev pub HoldsSafe : Worker → Type 0
HoldsSafe w = elim w.phase [
  | at_start ↦ Unit
  | with_url url ↦ IsSafe url
  | with_html url html ↦ IsSafe url × IsText w.kind html
]

module _ {D : Type 0} (op : DbOperation D) (out : Outside) where
  -- The handlers that a worker can enter where it stands.
  abbrev pub IsFaultless : Spider D → Worker → Type 0
  IsFaultless s w = elim w.phase [
    | at_start ↦ (crawl_round op out none s ≢ fault) × (parse_round op out s ≢ fault)
    | with_url url ↦ (crawl_url op out url s ≢ fault) × (parse_fetched op out url s ≢ fault)
    | with_html url html ↦
        (crawl_digest op out url html s ≢ fault) × (digest op out url html s ≢ fault)
  ]
