-- ===== src/Server/Served.antt =====
-- What the search server does over many requests.
use amigao.Base.{
  ℕ, true, not, List, [], ◌∷◌, ◌++◌, Option, none, some, ◌≡◌, refl, inl, inr, Option-cases, All,
  Bytes, codes, text_eq,
}
use amigao.Codec.{deescape_url}
use amigao.Info.{ℤ, pos}
use amigao.Search.Query.{search}
use amigao.Search.Query.Queried.{search-Holds}
use amigao.Server.{Request, parse_query}
use amigao.Sql.Program.{done, ◌>>=◌}
use amigao.Valuate.{in_bounds}
use amigao.Sql.Leases.{Holds, Holds-bind, guarded}
use amigao.Server.Round.{
  from_zero, found_page, printed, read_short, read_pages, read_all, find_and_show, respond_parsed,
  respond, serve,
}

printed-Holds :
    (left : Bytes) (page : Option Bytes)
    → Holds {A = Bytes × Option Bytes} 3 0 0 (in_bounds page >>= λ text. done (left, some text))
printed-Holds left none = tt
printed-Holds left (some text) = refl

module _ (extract : Bytes → Bytes × ℤ) (extract_unsigned : Bytes → Bytes × ℕ)
    (cut : Bytes → List Bytes) (visit_words : List (Bytes × Bytes) → List (Bytes × Bytes))
    (visit_urls : List (Bytes × ℕ) → List (Bytes × ℕ)) (max_insert : ℕ) where
  find_and_show-Holds :
      (left sentence : Bytes) (start_page results_per_page : ℕ)
      → Holds 3 0 0 (
          find_and_show extract extract_unsigned cut visit_words visit_urls max_insert left sentence
            start_page results_per_page)
  unfolding find_and_show
  find_and_show-Holds left sentence start_page results_per_page =
      Holds-bind 3 0 0 0
        (search extract_unsigned cut visit_words visit_urls max_insert true start_page
          results_per_page sentence (record { nodes = [] }))
        _
        (search-Holds extract_unsigned cut visit_words visit_urls max_insert true start_page
          results_per_page sentence (record { nodes = [] }))
        (λ found. printed-Holds left (printed (found_page sentence start_page found)))

  respond_parsed-Holds :
      (ss : Bytes) (parsed : Option Request)
      → Holds 3 0 0
          (respond_parsed extract extract_unsigned cut visit_words visit_urls max_insert ss parsed)
  unfolding respond_parsed
  respond_parsed-Holds ss none = refl
  respond_parsed-Holds ss (some request) = elim (Option-cases (deescape_url request.sentence)) [
    | inl cut_off ↦ rw (cut_off, Holds) tt
    | inr (sentence, decoded) ↦
        let (left, start_page, results_per_page) = read_pages extract ss request in
        rw (decoded, Holds)
          (find_and_show-Holds left sentence (from_zero start_page) (from_zero results_per_page))
  ]

  respond-Holds :
      (ss request_method query_string : Bytes)
      → Holds 3 0 0 (
          respond extract extract_unsigned cut visit_words visit_urls max_insert ss request_method
            query_string)
  unfolding respond
  respond-Holds ss request_method query_string =
      guarded (not (text_eq request_method (codes "GET"))) _ _
        (respond_parsed-Holds ss (parse_query query_string))

  -- Answering any number of requests, whatever they are, whatever words the sentences are cut into and
  -- whatever the server answers, never holds more than three connections, and has given all of
  -- them back when it ends, unless the process stops without a result.
  pub serve-Holds :
      (requests : List (Bytes × Bytes)) (ss : Bytes)
      → Holds 3 0 0
          (serve extract extract_unsigned cut visit_words visit_urls max_insert ss requests)
  unfolding serve
  serve-Holds [] ss = refl
  serve-Holds ((request_method, query_string) ∷ requests) ss =
      Holds-bind 3 0 0 0
        (respond extract extract_unsigned cut visit_words visit_urls max_insert ss request_method
          query_string)
        _ (respond-Holds ss request_method query_string)
        (λ answered.
          Holds-bind 3 0 0 0
            (serve extract extract_unsigned cut visit_words visit_urls max_insert answered.0
              requests)
            _ (serve-Holds requests answered.0) (λ answers. refl))

module _ (extract : Bytes → Bytes × ℤ) (c : ℕ)
    (refused : (text : Bytes) → extract (c ∷ text) ≡ (c ∷ text, pos 0)) where
  read_short_stuck :
      (unread : Bytes) (value : Option Bytes)
      → (more : Bytes) × (read_short extract (c ∷ unread) value ≡ (c ∷ more, pos 0))
  unfolding read_short
  read_short_stuck unread none = (unread, refl)
  read_short_stuck unread (some text) = (unread ++ text, refused (unread ++ text))

  -- Once the text that is unread in the stream starts with a byte at which no number can be read, every
  -- later request, whatever it asks for, is served as one for the page 0 with 0 results per page.
  pub read_all_stuck :
      (unread : Bytes) (requests : List Request)
      → All (λ numbers. numbers ≡ (pos 0, pos 0)) (read_all extract (c ∷ unread) requests)
  unfolding read_pages
  read_all_stuck unread [] = tt
  read_all_stuck unread (request ∷ requests) =
      let (more, first) = read_short_stuck unread request.start_page in
      let (more', second) = read_short_stuck more request.results_per_page in
      rw (first, second, read_all) (refl, read_all_stuck more' requests)
