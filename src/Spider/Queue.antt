-- ===== src/Spider/Queue.antt =====
-- The ring of urls in `shmctrl`: taking one out, and putting links in while there is room.
use amigao.Base.{
  ℕ, zero, suc, ◌+◌, ◌-◌, ◌%◌, List, [], ◌∷◌, Option, none, some, ltb, ◌==◌, if◌then◌else◌, length,
  Bytes,
}
use amigao.Spider.Slots.{write_from, read_from}
use amigao.Values.{url_size, url_nums}

-- The part of `shmctrl` that holds the urls.
pub record UrlQueue : Type 0 where
  pub url_queue : ℕ → ℕ → ℕ
  pub url_head : ℕ
  pub url_tail : ℕ

-- One url goes into the slot at the tail.
unfoldable pub put_url : Bytes → UrlQueue → UrlQueue
put_url url q = record q {
  url_queue =
      λ j. if j == q.url_tail then write_from url_size 0 url (q.url_queue j) else q.url_queue j;
  url_tail = (q.url_tail + 1) % url_nums;
}

-- The url at the head goes into `work_url`; `none` is the empty queue.
unfoldable pub take_url : UrlQueue → Option (Bytes × UrlQueue)
take_url q =
    if q.url_head == q.url_tail
    then none
    else some (
      read_from url_size 0 (q.url_queue q.url_head),
      record q { url_head = (q.url_head + 1) % url_nums },
    )

-- `url_insert_size` before it is held to the number of links. The two ends are below `url_nums`, and
-- `url_head - url_tail + url_nums` is then positive.
unfoldable pub url_insert_size : UrlQueue → ℕ
url_insert_size q =
    if q.url_head == q.url_tail
    then url_nums - 1
    else (q.url_head + url_nums - q.url_tail) % url_nums - 1

-- `while (url_insert_size > 0 && !links.empty())`: the queue, and the links that are left.
unfoldable pub put_links : ℕ → List Bytes → UrlQueue → UrlQueue × List Bytes
put_links zero links q = (q, links)
put_links (suc n) [] q = (q, [])
put_links (suc n) (l ∷ ls) q = put_links n ls (put_url l q)

-- The block under `url_lock` that puts the links of a page into the queue.
unfoldable pub insert_links : List Bytes → UrlQueue → UrlQueue × List Bytes
insert_links links q =
    put_links (if ltb (length links) (url_insert_size q) then length links else url_insert_size q)
      links q
