-- ===== src/Spider/Master.antt =====
-- `master.cc`: the queue is filled from the file of start urls, and written to a file at exit.
pub mod Filled
pub mod Start
pub mod Started
use mathlib.Core.Option
use amigao.Base.{
  ℕ, zero, suc, ◌+◌, ◌%◌, Bool, true, false, ◌||◌, List, [], ◌∷◌, Option, none, some, ◌==◌,
  if◌then◌else◌, Bytes,
}
use amigao.Codec.{crypt}
use amigao.Spider.Queue.{UrlQueue, put_url}
use amigao.Spider.Slots.{read_from}
use amigao.Url.{is_nil, format_url}
use amigao.Values.{url_size, url_nums}

-- The zeroed shared memory.
abbrev pub cleared : UrlQueue
cleared = record { url_queue = λ _ _. 0; url_head = 0; url_tail = 0 }

-- What the database answers while the queue is filled: the nice value of a website, of which only 0
-- matters, and whether a crypted url is among the visited ones.
pub record Database : Type 0 where
  pub get_website_nice : Bytes → ℕ
  pub if_visited : Bytes → Bool

-- A url that the spider passes over.
abbrev pub is_skipped : Database → Bytes → Bool
is_skipped db url = is_nil url || db.if_visited (crypt url) || db.get_website_nice url == 0

-- The `getline` loop on the lines of the file; `none` is the fault of `format_url`.
unfoldable pub fill : Database → List Bytes → UrlQueue → Option UrlQueue
fill db [] q = some q
fill db (l ∷ ls) q =
    let pass = fill db ls q in
    if (q.url_tail + 1) % url_nums == q.url_head then some q else elim (format_url l) [
      | none ↦ none
      | some url ↦ let put = fill db ls (put_url url q) in if is_skipped db url then pass else put
    ]

-- `while (url_head != url_tail)` of `at_exit`, on the rounds left: the lines written.
unfoldable pub drain : ℕ → UrlQueue → List Bytes × UrlQueue
drain zero q = ([], q)
drain (suc n) q =
    let (lines, r) = drain n (record q { url_head = (q.url_head + 1) % url_nums }) in
    if q.url_head == q.url_tail
    then ([], q)
    else (read_from url_size 0 (q.url_queue q.url_head) ∷ lines, r)

-- Whether the file can be opened; if not, nothing is written and the queue stays as it is. A ring of
-- `URL_NUMS` slots needs no more rounds.
unfoldable pub at_exit : Bool → UrlQueue → List Bytes × UrlQueue
at_exit opens q = if opens then drain url_nums q else ([], q)
