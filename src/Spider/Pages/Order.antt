-- ===== src/Spider/Pages/Order.antt =====
-- The ring of pages as a list.
use amigao.Base.{
  ℕ, zero, suc, ◌+◌, ◌-◌, ◌%◌, ◌<◌, true, false, List, [], ◌∷◌, ◌++◌, none, some, ◌≡◌, ap, ◌∙◌, ◌⊎◌,
  inl, inr, arith, ◌==◌, ==_iff, if◌then◌else◌, Bool-cases, All, Bytes,
}
use amigao.Spider.Copies.{IsChar}
use amigao.Spider.Pages.{
  HtmlQueue, write_page, read_page, put_page, take_page, kept, read_page-write_page,
}
use amigao.Spider.Ring.{IsUrl}
use amigao.Values.{html_nums}

abbrev page_slots : ℕ → ℕ → (ℕ → ℕ → ℕ) → List (Bytes × Bytes)
page_slots zero head m = []
page_slots (suc n) head m = read_page (m head) ∷ page_slots n ((head + 1) % html_nums) m

abbrev pub used_pages : HtmlQueue → ℕ
used_pages q = (q.html_tail + html_nums - q.html_head) % html_nums

-- The pages that the queue holds, the next one first.
abbrev pub pages : HtmlQueue → List (Bytes × Bytes)
pages q = page_slots (used_pages q) q.html_head q.html_queue

pub record IsPageQueue (q : HtmlQueue) : Type 0 where
  pub head : q.html_head < html_nums
  pub tail : q.html_tail < html_nums

page_slots-put :
    (n head tail : ℕ) (u html : Bytes) (m : ℕ → ℕ → ℕ)
    → IsUrl u
    → All IsChar html
    → head < html_nums
    → n < html_nums
    → tail ≡ (head + n) % html_nums
    → page_slots (suc n) head (λ j. if j == tail then write_page u html (m j) else m j)
      ≡ page_slots n head m ++ (u, kept html) ∷ []
page_slots-put zero head tail u html m h k lt _ e =
    let hit : (head == tail) ≡ true = ground arith in
    rw hit (ap (λ x. x ∷ []) (read_page-write_page u html (m head) h k))
page_slots-put (suc n) head tail u html m h k lt less e =
    let miss : (head == tail) ≡ false = ground arith in
    rw miss (
      ap (◌∷◌ (read_page (m head))) (
        page_slots-put n ((head + 1) % html_nums) tail u html m h k (omega arith) (omega arith)
          (omega arith)))

-- Putting a page into the queue of pages appends its url with what a slot keeps of the html, which
-- is nothing of its first `URL_SIZE` bytes; it fails exactly on the queue with one slot left free.
pub put_page-pages :
    (u html : Bytes) (q : HtmlQueue)
    → IsUrl u
    → All IsChar html
    → IsPageQueue q
    → ((put_page u html q ≡ none) × (used_pages q ≡ html_nums - 1))
      ⊎ ((r : HtmlQueue) × (put_page u html q ≡ some r)
          × (pages r ≡ pages q ++ (u, kept html) ∷ [])
          × IsPageQueue r)
unfolding put_page
put_page-pages u html q h k v = elim (Bool-cases ((q.html_tail + 1) % html_nums == q.html_head)) [
  | inl same ↦
      let e = (==_iff ((q.html_tail + 1) % html_nums) q.html_head).0 same in
      inl (rw same, omega (arith, v.head, v.tail))
  | inr other ↦
      let apart : ((q.html_tail + 1) % html_nums ≡ q.html_head → ⊥) = ground arith in
      let r : HtmlQueue = record q {
        html_queue =
            λ j. if j == q.html_tail then write_page u html (q.html_queue j) else q.html_queue j;
        html_tail = (q.html_tail + 1) % html_nums;
      } in
      let more : used_pages r ≡ suc (used_pages q) = omega (arith, v.head, v.tail) in
      inr (
        r,
        rw other,
        ap (λ n. page_slots n q.html_head r.html_queue) more
            ∙ page_slots-put (used_pages q) q.html_head q.html_tail u html q.html_queue h k v.head
                (omega arith) (omega (arith, v.head, v.tail)),
        record { head = v.head; tail = omega arith },
      )
]

-- Taking a page from the queue takes its first one, and fails exactly on the queue without pages.
pub take_page-pages :
    (q : HtmlQueue)
    → IsPageQueue q
    → ((take_page q ≡ none) × (pages q ≡ []))
      ⊎ ((p : Bytes × Bytes) × (r : HtmlQueue) × (take_page q ≡ some (p, r))
          × (pages q ≡ p ∷ pages r)
          × IsPageQueue r)
unfolding take_page
take_page-pages q v = elim (Bool-cases (q.html_head == q.html_tail)) [
  | inl same ↦
      let none_used : used_pages q ≡ 0 =
        let e = (==_iff q.html_head q.html_tail).0 same in omega (arith, v.head) in
      inl (rw same, ap (λ n. page_slots n q.html_head q.html_queue) none_used)
  | inr other ↦
      let apart : (q.html_head ≡ q.html_tail → ⊥) = ground arith in
      let r : HtmlQueue = record q { html_head = (q.html_head + 1) % html_nums } in
      let less : used_pages q ≡ suc (used_pages r) = omega (arith, v.head, v.tail) in
      inr (
        _,
        r,
        rw other,
        ap (λ n. page_slots n q.html_head q.html_queue) less,
        record { head = omega arith; tail = v.tail },
      )
]
