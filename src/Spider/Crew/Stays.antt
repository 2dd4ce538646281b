-- ===== src/Spider/Crew/Stays.antt =====
-- No round of a worker leaves its arrays where all urls are safe.
use amigao.Url.{is_nil}
use amigao.Values.{html_size}
use amigao.Base.{
  Bool, true, false, ltb, length, ◌++◌, List, [], ◌∷◌, none, some, ◌≡◌, refl, inl, inr,
  Option-cases, Bool-cases, All, Bytes, text_eq,
}
use amigao.Spider.Copies.{IsChar}
use amigao.Spider.Crew.Safe.{IsSafe, c_string-some, parse_url-some}
use amigao.Spider.Crew.Sound.{
  IsSound, database-IsSound, TakesSafe, next_url-TakesSafe, store_links-IsSound, put_page-IsSound,
  take_page-IsSound,
}
use amigao.Spider.Pages.{put_page, take_page}
use amigao.Spider.Response.{formated_html}
use amigao.Spider.Worker.{
  request, Received, refused, overrun, received, overwrite, up_to_null, html_of, receive,
  DbOperation, Outside, Spider, Outcome, again, has_url, exited, fault, Taken, taken, retry,
  stopped, Fetched, skipped, fetched, broken, next_url, is_done, wanted_links, keeping, store_links,
  download, visit, digest, crawl_digest, crawl_url, crawl_round, parse_fetched, parse_round,
}
use amigao.Spider.Worker.Links.{without-All}

-- After every `recv`, the array of the worker still holds a null byte.
abbrev pub KeepsNull : Bytes → List Bytes → Type 0
KeepsNull html_buf [] = Unit {0}
KeepsNull html_buf (t ∷ ts) =
    (is_nil (up_to_null (overwrite t html_buf)).1 ≡ false) × KeepsNull (overwrite t html_buf) ts

-- The parser gives safe links only, the conversion gives a C string, and no `recv` leaves the array without
-- a null byte.
pub record IsTidy (out : Outside) : Type 0 where
  pub links : (html : Bytes) → All IsSafe (out.parse_page html).links
  pub text : (html : Bytes) → All IsChar (out.to_utf8 html)
  pub ended :
      (host request html_buf : Bytes) (texts : List Bytes) (closed : Bool)
      → out.exchange host request ≡ some (html_buf, texts, closed)
      → KeepsNull html_buf texts

-- A round that ends within the arrays leaves a sound state, and with a url in hand a safe one.
abbrev pub Stays : {D : Type 0} → Outcome D → Type 0
Stays (again r) = IsSound r
Stays (has_url u r) = IsSafe u × IsSound r
Stays exited = Unit
Stays fault = ⊥

-- What a visit of the url gives: its own url, and the html as a C string.
abbrev pub Visits : {D : Type 0} → Bytes → Fetched D → Type 0
Visits u (skipped d) = Unit
Visits u (fetched url html) = (url ≡ u) × All IsChar html
Visits u broken = ⊥

-- A connection that does not run over the array, and gives texts with the property.
abbrev Downloads : (Bytes → Type 0) → Received → Type 0
Downloads P refused = Unit
Downloads P overrun = ⊥
Downloads P (received text) = P text

receive-Downloads :
    (html_buf raw_html : Bytes) (texts : List Bytes) (closed : Bool)
    → KeepsNull html_buf texts
    → Downloads (λ text. Unit {0}) (receive html_buf raw_html texts closed)
unfolding receive
receive-Downloads html_buf raw_html [] true h = tt
receive-Downloads html_buf raw_html [] false h = tt
receive-Downloads html_buf raw_html (t ∷ ts) closed h =
    let raw = raw_html ++ (up_to_null (overwrite t html_buf)).0 in
    elim (Bool-cases (ltb html_size (length raw))) [
      | inl large ↦ rw (h.0, large) tt
      | inr fits ↦ rw (h.0, fits) (receive-Downloads (overwrite t html_buf) raw ts closed h.1)
    ]

module _ {D : Type 0} (op : DbOperation D) (out : Outside) (tidy : IsTidy out) where
  html_of-Downloads :
      (r : Received)
      → Downloads (λ text. Unit {0}) r
      → Downloads (All IsChar) (html_of out.to_utf8 r)
  html_of-Downloads refused h = tt
  html_of-Downloads overrun h = h
  html_of-Downloads (received raw_html) h = elim (Option-cases (formated_html raw_html)) [
    | inl no_html ↦ rw (no_html, Downloads) tt
    | inr (html, got) ↦ rw (got, Downloads) (tidy.text html)
  ]

  download-Downloads : (host path : Bytes) → Downloads (All IsChar) (download op out host path)
  unfolding download
  download-Downloads host path = elim (Option-cases (out.exchange host (request host path))) [
    | inl failed ↦ rw (failed, Downloads) tt
    | inr ((html_buf, texts, closed), got) ↦
        rw (got, Downloads)
          (html_of-Downloads (receive html_buf [] texts closed) (
            receive-Downloads html_buf [] texts closed
              (tidy.ended host (request host path) html_buf texts closed got)))
  ]

  of_download :
      (u : Bytes) (d : D) (r : Received)
      → Downloads (All IsChar) r
      → Visits u (elim r [
        | refused ↦ skipped (op.op_website_nice d u)
        | overrun ↦ broken
        | received html ↦ fetched u html
      ])
  of_download u d refused h = tt
  of_download u d overrun h = h
  of_download u d (received html) h = (refl, h)

  pub visit-Visits : (u : Bytes) (d : D) → IsSafe u → Visits u (visit op out u d)
  unfolding visit
  visit-Visits u d h =
      let (host, path, parsed) = parse_url-some u h in
      elim (Bool-cases (is_done op d u)) [
        | inl known ↦ rw (c_string-some u h, visit) (rw known tt)
        | inr new ↦
            rw (c_string-some u h, visit)
              (rw new (
                rw parsed
                  (of_download u d (download op out host path) (download-Downloads host path))))
      ]

  links_safe :
      (d : D) (url html : Bytes) → All IsSafe (wanted_links op d url (out.parse_page html).links)
  links_safe d url html =
      without-All IsSafe (is_done op d) _
        (without-All IsSafe (λ l. text_eq l url) _ (tidy.links html))

  pub digest-Stays :
      (url html : Bytes) (s : Spider D)
      → IsSound s
      → (r : Spider D) × (digest op out url html s ≡ again r) × IsSound r
  unfolding digest
  digest-Stays url html s h =
      let d = op.valuate_page s.database url (out.parse_page html) html in
      store_links-IsSound (wanted_links op d url (out.parse_page html).links)
        (record s { database = d }) (links_safe d url html) (database-IsSound s d h)

  -- The links of a crawl worker's own page: the first is kept.
  keep_first :
      (links : List Bytes) (r : Spider D)
      → All IsSafe links
      → IsSound r
      → Stays (elim links [ [] ↦ again r | l ∷ ls ↦ keeping l (store_links ls r) ])
  keep_first [] r safe h = h
  keep_first (l ∷ ls) r safe h =
      let (q, stored, sound) = store_links-IsSound ls r safe.1 h in rw stored (safe.0, sound)

  pub crawl_digest-Stays :
      (url html : Bytes) (s : Spider D) → IsSound s → Stays (crawl_digest op out url html s)
  unfolding crawl_digest
  crawl_digest-Stays url html s h =
      let d = op.valuate_page s.database url (out.parse_page html) html in
      keep_first (wanted_links op d url (out.parse_page html).links) (record s { database = d })
        (links_safe d url html) (database-IsSound s d h)

  crawl_fetched-Stays :
      (u : Bytes) (s : Spider D) (f : Fetched D)
      → visit op out u s.database ≡ f
      → Visits u f
      → IsSafe u
      → IsSound s
      → Stays (crawl_url op out u s)
  unfolding crawl_url
  crawl_fetched-Stays u s (skipped d) e v safe h = rw (e, crawl_url) (database-IsSound s d h)
  crawl_fetched-Stays u s broken e v safe h = elim v [ ]
  crawl_fetched-Stays u s (fetched url html) e v safe h =
      elim (Option-cases (put_page url html s.html_ring)) [
        | inl full ↦ rw (e, crawl_url) (rw full (crawl_digest-Stays url html s h))
        | inr (ring, put) ↦
            rw (e, crawl_url) (rw put (put_page-IsSound url html s (rw v.0 safe) v.1 h put))
      ]

  pub crawl_url-Stays :
      (u : Bytes) (s : Spider D) → IsSafe u → IsSound s → Stays (crawl_url op out u s)
  crawl_url-Stays u s safe h =
      crawl_fetched-Stays u s (visit op out u s.database) refl (visit-Visits u s.database safe) safe
        h

  parse_fetched_by :
      (u : Bytes) (s : Spider D) (f : Fetched D)
      → visit op out u s.database ≡ f
      → Visits u f
      → IsSound s
      → Stays (parse_fetched op out u s)
  unfolding parse_fetched
  parse_fetched_by u s (skipped d) e v h = rw (e, parse_fetched) (database-IsSound s d h)
  parse_fetched_by u s broken e v h = elim v [ ]
  parse_fetched_by u s (fetched url html) e v h =
      let (r, digested, sound) = digest-Stays url html s h in
      rw (e, parse_fetched) (rw digested sound)

  pub parse_fetched-Stays :
      (u : Bytes) (s : Spider D) → IsSafe u → IsSound s → Stays (parse_fetched op out u s)
  parse_fetched-Stays u s safe h =
      parse_fetched_by u s (visit op out u s.database) refl (visit-Visits u s.database safe) h

  -- A round that starts with the taking of a url.
  crawl_round_by :
      (s : Spider D) (t : Taken D)
      → next_url s ≡ t
      → TakesSafe t
      → IsSound s
      → Stays (crawl_round op out none s)
  unfolding crawl_round
  crawl_round_by s (taken u r) e t h = rw (e, crawl_round) (crawl_url-Stays u r t.0 t.1)
  crawl_round_by s retry e t h = rw (e, crawl_round) h
  crawl_round_by s stopped e t h = rw (e, crawl_round) tt

  pub crawl_round-Stays : (s : Spider D) → IsSound s → Stays (crawl_round op out none s)
  crawl_round-Stays s h = crawl_round_by s (next_url s) refl (next_url-TakesSafe s h) h

  parse_round_by :
      (s : Spider D) (t : Taken D)
      → take_page s.html_ring ≡ none
      → next_url s ≡ t
      → TakesSafe t
      → IsSound s
      → Stays (parse_round op out s)
  unfolding parse_round
  parse_round_by s (taken u r) empty e t h =
      rw (empty, parse_round) (rw e (parse_fetched-Stays u r t.0 t.1))
  parse_round_by s retry empty e t h = rw (empty, parse_round) (rw e h)
  parse_round_by s stopped empty e t h = rw (empty, parse_round) (rw e tt)

  pub parse_round-Stays : (s : Spider D) → IsSound s → Stays (parse_round op out s)
  unfolding parse_round
  parse_round-Stays s h = elim (Option-cases (take_page s.html_ring)) [
    | inl empty ↦ parse_round_by s (next_url s) empty refl (next_url-TakesSafe s h) h
    | inr (((u, html), ring), got) ↦
        let (safe, sound) = take_page-IsSound s h got in
        let (r, digested, after) = digest-Stays u html (record s { html_ring = ring }) sound in
        rw (got, parse_round) (rw (c_string-some u safe) (rw digested after))
  ]
