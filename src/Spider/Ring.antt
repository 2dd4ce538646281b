-- ===== src/Spider/Ring.antt =====
-- The ring of urls as a list.
use Prim.Native.Nat.{min}
use mathlib.Core.List.{append_assoc, append-nil}
use amigao.Base.{
  ℕ, zero, suc, ◌+◌, ◌-◌, ◌%◌, ◌≤◌, ◌<◌, true, false, List, [], ◌∷◌, ◌++◌, none, some, ◌≡◌, refl,
  sym, ap, ◌∙◌, ◌⊎◌, inl, inr, arith, ltb, ◌==◌, ==_iff, if◌then◌else◌, Bool-cases, length, All,
  Bytes,
}
use amigao.Spider.Copies.{IsChar, read_from-write_from, take-all}
use amigao.Spider.Queue.{UrlQueue, put_url, take_url, url_insert_size, put_links, insert_links}
use amigao.Spider.Slots.{write_from, read_from}
use amigao.Values.{url_size, url_nums}

-- The urls in `n` slots from `head` on.
abbrev pub slots : ℕ → ℕ → (ℕ → ℕ → ℕ) → List Bytes
slots zero head m = []
slots (suc n) head m = read_from url_size 0 (m head) ∷ slots n ((head + 1) % url_nums) m

-- How many slots are in use, as the comment in `shmctrl.h` has it.
abbrev pub used : UrlQueue → ℕ
used q = (q.url_tail + url_nums - q.url_head) % url_nums

-- The urls that the queue holds, the next one first.
abbrev pub urls : UrlQueue → List Bytes
urls q = slots (used q) q.url_head q.url_queue

pub record IsQueue (q : UrlQueue) : Type 0 where
  pub head : q.url_head < url_nums
  pub tail : q.url_tail < url_nums

-- A url that fits its slot and holds no null byte.
abbrev pub IsUrl : Bytes → Type 0
IsUrl u = All IsChar u × (length u ≤ url_size)

slots-put :
    (n head tail : ℕ) (u : Bytes) (m : ℕ → ℕ → ℕ)
    → IsUrl u
    → head < url_nums
    → n < url_nums
    → tail ≡ (head + n) % url_nums
    → slots (suc n) head (λ j. if j == tail then write_from url_size 0 u (m j) else m j)
      ≡ slots n head m ++ u ∷ []
slots-put zero head tail u m h lt _ e =
    let hit : (head == tail) ≡ true = ground arith in
    rw hit (
      ap (λ x. x ∷ [])
        (read_from-write_from url_size 0 url_size u (m head) refl h.0 ∙ take-all url_size u h.1))
slots-put (suc n) head tail u m h lt less e =
    let miss : (head == tail) ≡ false = ground arith in
    rw miss (
      ap (◌∷◌ (read_from url_size 0 (m head)))
        (slots-put n ((head + 1) % url_nums) tail u m h (omega arith) (omega arith) (omega arith)))

-- A url that is put into a queue with a slot to spare is its last.
pub put_url-urls :
    (u : Bytes) (q : UrlQueue)
    → IsUrl u
    → IsQueue q
    → used q + 1 < url_nums
    → IsQueue (put_url u q)
      × (used (put_url u q) ≡ used q + 1)
      × (urls (put_url u q) ≡ urls q ++ u ∷ [])
unfolding put_url
put_url-urls u q h v room =
    let more : used (put_url u q) ≡ suc (used q) = omega (arith, v.head, v.tail) in
    (
      record { head = v.head; tail = omega arith },
      omega arith,
      ap (λ n. slots n q.url_head (put_url u q).url_queue) more
          ∙ slots-put (used q) q.url_head q.url_tail u q.url_queue h v.head (omega arith)
              (omega (arith, v.head, v.tail)),
    )

-- Taking a url from the queue takes its first one, and fails exactly on the queue without urls.
pub take_url-urls :
    (q : UrlQueue)
    → IsQueue q
    → ((take_url q ≡ none) × (urls q ≡ []))
      ⊎ ((u : Bytes) × (r : UrlQueue) × (take_url q ≡ some (u, r))
          × (urls q ≡ u ∷ urls r)
          × IsQueue r)
unfolding take_url
take_url-urls q v = elim (Bool-cases (q.url_head == q.url_tail)) [
  | inl same ↦
      let none_used : used q ≡ 0 =
        let e = (==_iff q.url_head q.url_tail).0 same in omega (arith, v.head) in
      inl (rw same, ap (λ n. slots n q.url_head q.url_queue) none_used)
  | inr other ↦
      let apart : (q.url_head ≡ q.url_tail → ⊥) = ground arith in
      let r : UrlQueue = record q { url_head = (q.url_head + 1) % url_nums } in
      let less : used q ≡ suc (used r) = omega (arith, v.head, v.tail) in
      inr (
        _,
        r,
        rw other,
        ap (λ n. slots n q.url_head q.url_queue) less,
        record { head = omega arith; tail = v.tail },
      )
]

-- What a block that puts links into the queue does with them: the first ones are put behind the urls
-- of the queue, and the others are left over.
pub record IsPut (links : List Bytes) (q r : UrlQueue) (left : List Bytes) (n : ℕ) : Type 0 where
  pub put : List Bytes
  pub count : length put ≡ n
  pub split : put ++ left ≡ links
  pub joined : urls r ≡ urls q ++ put
  pub valid : IsQueue r

put_links-IsPut :
    (n : ℕ) (links : List Bytes) (q : UrlQueue)
    → All IsUrl links
    → IsQueue q
    → n ≤ length links
    → used q + n < url_nums
    → IsPut links q (put_links n links q).0 (put_links n links q).1 n
unfolding put_links
put_links-IsPut zero links q h v le room = record {
  put = [];
  count = refl;
  split = refl;
  joined = sym (append-nil (urls q));
  valid = v;
}
put_links-IsPut (suc n) [] q h v le room = absurd (omega arith)
put_links-IsPut (suc n) (l ∷ ls) q h v le room =
    let (w, more, joined) = put_url-urls l q h.0 v (omega arith) in
    let rest = put_links-IsPut n ls (put_url l q) h.1 w (omega arith) (omega arith) in
    record {
      put = l ∷ rest.put;
      count = ap suc rest.count;
      split = ap (◌∷◌ l) rest.split;
      joined =
          rest.joined ∙ ap (λ us. us ++ rest.put) joined ∙ append_assoc (urls q) (l ∷ []) rest.put;
      valid = rest.valid;
    }

-- The block that puts the links of a page into the queue keeps the queue valid and its urls in
-- order: it appends the first of the links, as many as there are or as leave one slot of the ring
-- free, and leaves the others over, so no link is lost and no url is overwritten.
pub insert_links-IsPut :
    (links : List Bytes) (q : UrlQueue)
    → All IsUrl links
    → IsQueue q
    → IsPut links q
        (insert_links links q).0
        (insert_links links q).1
        (min (length links) (url_nums - 1 - used q))
unfolding insert_links url_insert_size
insert_links-IsPut links q h v =
    let room : url_insert_size q ≡ url_nums - 1 - used q = free in
    let count : (if ltb (length links) (url_insert_size q) then length links else url_insert_size q)
        ≡ min (length links) (url_nums - 1 - used q) =
      ground (arith, room) in
    rw count (
      put_links-IsPut (min (length links) (url_nums - 1 - used q)) links q h v (omega arith)
        (omega (arith, v.head, v.tail)))
  where
    free : url_insert_size q ≡ url_nums - 1 - used q
    free = elim (Bool-cases (q.url_head == q.url_tail)) [
      | inl same ↦
          let e = (==_iff q.url_head q.url_tail).0 same in rw same (omega (arith, v.head, v.tail))
      | inr other ↦
          let apart : (q.url_head ≡ q.url_tail → ⊥) = ground arith in
          rw other (omega (arith, v.head, v.tail))
    ]
