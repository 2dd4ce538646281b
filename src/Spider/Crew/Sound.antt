-- ===== src/Spider/Crew/Sound.antt =====
-- The states of the shared memory and the files that hold safe urls only.
use mathlib.Core.Option.{some-injective}
use amigao.Base.{
  List, [], ◌∷◌, ◌++◌, Option, none, some, ◌≡◌, refl, sym, ap, ◌∙◌, inl, inr, Option-cases,
  Bool-cases, All, All-map, All-append, All-append_left, Bytes,
}
use amigao.Spider.Copies.{IsChar}
use amigao.Spider.Pages.{HtmlQueue, put_page, take_page}
use amigao.Spider.Pages.Order.{IsPageQueue, pages, put_page-pages, take_page-pages}
use amigao.Spider.Ring.{IsQueue, IsUrl, urls, insert_links-IsPut, take_url-urls}
use amigao.Spider.Worker.{
  Spider, again, Taken, taken, retry, stopped, next_url, put_aside, store_links,
}
use amigao.Spider.{take_url, insert_links}
use amigao.Url.{is_nil}
use amigao.Spider.Crew.Safe.{IsSafe, IsSafe-IsUrl}

-- The lines of a file that is open.
abbrev Lines : Option (List Bytes) → Type 0
Lines none = Unit
Lines (some lines) = All IsSafe lines

-- Both rings are valid, they and the file that is read hold safe urls only, and the file that is written is
-- open.
pub record IsSound {D : Type 0} (s : Spider D) : Type 0 where
  pub ring : IsQueue s.url_ring
  pub page_ring : IsPageQueue s.html_ring
  pub ring_safe : All IsSafe (urls s.url_ring)
  pub pages_safe : All (λ p. IsSafe p.0) (pages s.html_ring)
  pub lines_safe : Lines s.read_url
  pub file : List Bytes
  pub file_open : s.write_url ≡ some file

-- What a state becomes when only the database changes.
pub database-IsSound :
    {D : Type 0} (s : Spider D) (d : D) → IsSound s → IsSound (record s { database = d })
database-IsSound s d h = record {
  ring = h.ring;
  page_ring = h.page_ring;
  ring_safe = h.ring_safe;
  pages_safe = h.pages_safe;
  lines_safe = h.lines_safe;
  file = h.file;
  file_open = h.file_open;
}

-- What `next_url` takes is safe, and it leaves a sound state.
abbrev pub TakesSafe : {D : Type 0} → Taken D → Type 0
TakesSafe (taken u r) = IsSafe u × IsSound r
TakesSafe retry = Unit
TakesSafe stopped = Unit

module _ {D : Type 0} where
  from_lines :
      (s : Spider D) (lines : List Bytes)
      → IsSound s
      → take_url s.url_ring ≡ none
      → s.read_url ≡ some lines
      → TakesSafe (next_url s)
  unfolding next_url
  from_lines s [] h empty opened = rw (empty, next_url) (rw opened tt)
  from_lines s (line ∷ lines) h empty opened = elim (Bool-cases (is_nil line)) [
    | inl blank ↦ rw (empty, next_url) (rw opened (rw blank tt))
    | inr url ↦
        let safe = rw opened at h.lines_safe in
        rw (empty, next_url)
          (rw opened (
            rw url (
              safe.0,
              record {
                ring = h.ring;
                page_ring = h.page_ring;
                ring_safe = h.ring_safe;
                pages_safe = h.pages_safe;
                lines_safe = safe.1;
                file = h.file;
                file_open = h.file_open;
              },
            )))
  ]

  pub next_url-TakesSafe : (s : Spider D) → IsSound s → TakesSafe (next_url s)
  unfolding next_url
  next_url-TakesSafe s h = elim (take_url-urls s.url_ring h.ring) [
    | inl (empty, _) ↦ elim (Option-cases s.read_url) [
      | inl closed ↦ rw (empty, next_url) (rw closed tt)
      | inr (lines, opened) ↦ from_lines s lines h empty opened
    ]
    | inr (u, ring, got, split, valid) ↦
        let safe = rw split at h.ring_safe in
        rw (got, next_url)
          (
            safe.0,
            record {
              ring = valid;
              page_ring = h.page_ring;
              ring_safe = safe.1;
              pages_safe = h.pages_safe;
              lines_safe = h.lines_safe;
              file = h.file;
              file_open = h.file_open;
            },
          )
  ]

  -- Links that are safe are stored without an exit.
  put_aside-IsSound :
      (left : List Bytes) (s : Spider D)
      → IsSound s
      → (r : Spider D) × (put_aside left s ≡ again r) × IsSound r
  unfolding put_aside
  put_aside-IsSound [] s h = (s, refl, h)
  put_aside-IsSound (l ∷ ls) s h = (
    record s { write_url = some (h.file ++ (l ∷ ls)) },
    rw (h.file_open, put_aside),
    record {
      ring = h.ring;
      page_ring = h.page_ring;
      ring_safe = h.ring_safe;
      pages_safe = h.pages_safe;
      lines_safe = h.lines_safe;
      file = h.file ++ (l ∷ ls);
      file_open = refl;
    },
  )

  pub store_links-IsSound :
      (links : List Bytes) (s : Spider D)
      → All IsSafe links
      → IsSound s
      → (r : Spider D) × (store_links links s ≡ again r) × IsSound r
  unfolding store_links
  store_links-IsSound links s safe h =
      let p =
        insert_links-IsPut links s.url_ring (All-map IsSafe IsUrl links IsSafe-IsUrl safe) h.ring in
      let put_safe = All-append_left IsSafe p.put _ (rw (← p.split) at safe) in
      put_aside-IsSound (insert_links links s.url_ring).1
        (record s { url_ring = (insert_links links s.url_ring).0 })
        (record {
          ring = p.valid;
          page_ring = h.page_ring;
          ring_safe = rw p.joined (All-append IsSafe (urls s.url_ring) p.put h.ring_safe put_safe);
          pages_safe = h.pages_safe;
          lines_safe = h.lines_safe;
          file = h.file;
          file_open = h.file_open;
        })

  pub put_page-IsSound :
      (u html : Bytes) (s : Spider D) {ring : HtmlQueue}
      → IsSafe u
      → All IsChar html
      → IsSound s
      → put_page u html s.html_ring ≡ some ring
      → IsSound (record s { html_ring = ring })
  put_page-IsSound u html s {ring} safe chars h e =
      elim (put_page-pages u html s.html_ring (IsSafe-IsUrl u safe) chars h.page_ring) [
        | inl (full, _) ↦ cc
        | inr (r, got, joined, valid) ↦
            let same : r ≡ ring = some-injective _ _ (sym got ∙ e) in
            rw (← same) (record {
              ring = h.ring;
              page_ring = valid;
              ring_safe = h.ring_safe;
              pages_safe =
                  rw joined
                    (All-append (λ p. IsSafe p.0) (pages s.html_ring) _ h.pages_safe (safe, tt));
              lines_safe = h.lines_safe;
              file = h.file;
              file_open = h.file_open;
            })
      ]

  pub take_page-IsSound :
      (s : Spider D) {u html : Bytes} {ring : HtmlQueue}
      → IsSound s
      → take_page s.html_ring ≡ some ((u, html), ring)
      → IsSafe u × IsSound (record s { html_ring = ring })
  take_page-IsSound s {u} {html} {ring} h e = elim (take_page-pages s.html_ring h.page_ring) [
    | inl (empty, _) ↦ cc
    | inr (p, r, got, split, valid) ↦
        let both : (p, r) ≡ ((u, html), ring) = some-injective _ _ (sym got ∙ e) in
        let safe = rw split at h.pages_safe in
        let same_ring : r ≡ ring = ap (λ x. x.1) both in
        let same_url : p.0 ≡ u = ap (λ x. x.0.0) both in
        (
          rw same_url at safe.0,
          rw (← same_ring) (record {
            ring = h.ring;
            page_ring = valid;
            ring_safe = h.ring_safe;
            pages_safe = safe.1;
            lines_safe = h.lines_safe;
            file = h.file;
            file_open = h.file_open;
          }),
        )
  ]
