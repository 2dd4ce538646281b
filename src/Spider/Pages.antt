-- ===== src/Spider/Pages.antt =====
-- The ring of pages in `shmctrl`, and what becomes of a page in it.
pub mod Order
use mathlib.Core.Option.{map}
use amigao.Base.{
  ℕ, zero, suc, ◌+◌, ◌-◌, ◌%◌, ◌≤◌, ◌<◌, true, false, List, [], ◌∷◌, ◌++◌, Option, none, some, ◌≡◌,
  refl, ap, ◌∙◌, ◌⊎◌, inl, inr, arith, ◌==◌, ==_iff, if◌then◌else◌, Bool-cases, take, drop, All,
  All-drop, Bytes,
}
use amigao.Spider.Copies.{IsChar, read_from-write_from, read_from-below, write_from-below, take-all}
use amigao.Spider.Ring.{IsUrl}
use amigao.Spider.Slots.{write_from, read_from}
use amigao.Values.{url_size, html_size, html_nums}

-- The part of `shmctrl` that holds the pages.
pub record HtmlQueue : Type 0 where
  pub html_queue : ℕ → ℕ → ℕ
  pub html_head : ℕ
  pub html_tail : ℕ

-- The slot that a crawl worker fills. The html is copied with one index for the page and the slot,
-- from `URL_SIZE` on.
unfoldable pub write_page : Bytes → Bytes → (ℕ → ℕ) → ℕ → ℕ
write_page url html slot =
    write_from html_size url_size (drop url_size html) (write_from url_size 0 url slot)

-- The url and the html that a parse worker reads.
unfoldable pub read_page : (ℕ → ℕ) → Bytes × Bytes
read_page slot = (read_from url_size 0 slot, read_from (html_size - url_size) url_size slot)

-- The end of a crawl worker's round; `none` is the full queue.
unfoldable pub put_page : Bytes → Bytes → HtmlQueue → Option HtmlQueue
put_page url html q =
    if (q.html_tail + 1) % html_nums == q.html_head
    then none
    else some (record q {
      html_queue =
          λ j. if j == q.html_tail then write_page url html (q.html_queue j) else q.html_queue j;
      html_tail = (q.html_tail + 1) % html_nums;
    })

-- The start of a parse worker's round; `none` is the empty queue.
unfoldable pub take_page : HtmlQueue → Option ((Bytes × Bytes) × HtmlQueue)
take_page q =
    if q.html_head == q.html_tail
    then none
    else some (
      read_page (q.html_queue q.html_head),
      record q { html_head = (q.html_head + 1) % html_nums },
    )

-- What a slot keeps of a page: nothing of its first `URL_SIZE` bytes, and no more than fits.
abbrev pub kept : Bytes → Bytes
kept html = take (html_size - url_size) (drop url_size html)

-- A page in a slot is read back as its url and a part of its html.
pub read_page-write_page :
    (url html : Bytes) (slot : ℕ → ℕ)
    → IsUrl url
    → All IsChar html
    → read_page (write_page url html slot) ≡ (url, kept html)
unfolding read_page write_page
read_page-write_page url html slot h k =
    let first = write_from url_size 0 url slot in
    rw (read_from-below url_size 0 url_size html_size (drop url_size html) first (omega arith)) (
      rw (read_from-write_from url_size 0 url_size url slot refl h.0) (
        rw (take-all url_size url h.1) (
          ap (λ x. (url, x))
            (read_from-write_from (html_size - url_size) url_size html_size (drop url_size html)
              first (omega arith) (All-drop IsChar url_size html k)))))
