-- ===== src/Server/Round.antt =====
-- The loop of the search server (src/http/search_server.cc), from a request to the text that is printed.
use amigao.Base.{
  ℕ, true, false, not, List, [], ◌∷◌, ◌++◌, Option, none, some, ltb, if◌then◌else◌, take, Bytes,
  codes, text_eq,
}
use amigao.Codec.{deescape_url}
use amigao.Info.{ℤ, pos, negsuc}
use amigao.Search.{PlainSearchResult}
use amigao.Search.Query.{search}
use amigao.Server.Page.{invalid_method, no_result, results_page, print_f}
use amigao.Valuate.{in_bounds}
use amigao.Server.{Request, parse_query}
use amigao.Sql.Program.{Program, done, stop, fault, ◌>>=◌}
use amigao.Values.{max_search_sentence_size}

-- A negative page fares as the page 0 does.
abbrev pub from_zero : ℤ → ℕ
from_zero (pos n) = n
from_zero (negsuc n) = 0

-- The page for what the search has found, which has cut the sentence and raised the page to 1. A number of
-- pages that is negative as a `short` makes the page without results.
unfoldable pub found_page : Bytes → ℕ → Option (PlainSearchResult × ℤ) → Option Bytes
unfolding no_result results_page
found_page sentence start_page none = some (no_result (take max_search_sentence_size sentence))
found_page sentence start_page (some (result, negsuc n)) =
    some (no_result (take max_search_sentence_size sentence))
found_page sentence start_page (some (result, pos total_pages)) =
    results_page (take max_search_sentence_size sentence)
      (if ltb start_page 1 then 1 else start_page) total_pages result

-- The page as it is printed; `none` where it is never finished or printed as a format without arguments.
abbrev pub printed : Option Bytes → Option Bytes
printed none = none
printed (some page) = print_f false page

-- `ss >> start_page` of a `short` is the standard library's: from the text in the stream, what it leaves
-- unread, and the number.
module _ (extract : Bytes → Bytes × ℤ) where
  -- The text of a value goes into the stream behind what is unread there; `ss.clear()` takes nothing out.
  unfoldable pub read_short : Bytes → Option Bytes → Bytes × ℤ
  read_short ss none = (ss, pos 0)
  read_short ss (some text) = extract (ss ++ text)

  unfoldable pub read_pages : Bytes → Request → Bytes × ℤ × ℤ
  unfolding read_short
  read_pages ss request =
      let (left, start_page) = read_short ss request.start_page in
      let (left', results_per_page) = read_short left request.results_per_page in
      (left', start_page, results_per_page)

  -- The numbers of requests one after the other.
  abbrev pub read_all : Bytes → List Request → List (ℤ × ℤ)
  unfolding read_pages
  read_all ss [] = []
  read_all ss (request ∷ requests) =
      let (left, start_page, results_per_page) = read_pages ss request in
      (start_page, results_per_page) ∷ read_all left requests

  module _ (extract_unsigned : Bytes → Bytes × ℕ) (cut : Bytes → List Bytes)
      (visit_words : List (Bytes × Bytes) → List (Bytes × Bytes))
      (visit_urls : List (Bytes × ℕ) → List (Bytes × ℕ)) (max_insert : ℕ) where
    -- From the decoded sentence and the two numbers on.
    unfoldable pub find_and_show : Bytes → Bytes → ℕ → ℕ → Program (Bytes × Option Bytes)
    unfolding search found_page
    find_and_show left sentence start_page results_per_page =
        search extract_unsigned cut visit_words visit_urls max_insert true start_page
          results_per_page sentence (record { nodes = [] })
        >>= λ found. in_bounds (printed (found_page sentence start_page found)) >>= λ page.
            done (left, some page)

    -- A query without a value is not answered.
    unfoldable pub respond_parsed : Bytes → Option Request → Program (Bytes × Option Bytes)
    unfolding read_pages find_and_show
    respond_parsed ss none = done (ss, none)
    respond_parsed ss (some request) = elim (deescape_url request.sentence) [
      | none ↦ stop fault
      | some sentence ↦
          let (left, start_page, results_per_page) = read_pages ss request in
          find_and_show left sentence (from_zero start_page) (from_zero results_per_page)
    ]

    -- A request with its method and its query, and what is unread in the stream.
    unfoldable pub respond : Bytes → Bytes → Bytes → Program (Bytes × Option Bytes)
    unfolding parse_query respond_parsed
    respond ss request_method query_string =
        if not (text_eq request_method (codes "GET"))
        then done (ss, some invalid_method)
        else respond_parsed ss (parse_query query_string)

    -- `while (FCGX_Accept(...) >= 0)`: the answers to the requests, in their order.
    unfoldable pub serve : Bytes → List (Bytes × Bytes) → Program (List (Option Bytes))
    unfolding respond
    serve ss [] = done []
    serve ss ((request_method, query_string) ∷ requests) = do
      (left, answer) ← respond ss request_method query_string
      answers ← serve left requests
      done (answer ∷ answers)
