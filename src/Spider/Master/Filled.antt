-- ===== src/Spider/Master/Filled.antt =====
-- What `master` puts into the queue, and what it writes at exit.
use mathlib.Core.List.{append_assoc, append-nil, map}
use mathlib.Core.Option.{some-injective}
use amigao.Base.{
  ℕ, zero, suc, ◌+◌, ◌%◌, ◌≤◌, Bool, true, false, refl, if◌then◌else◌, List, [], ◌∷◌, ◌++◌, some,
  ◌≡◌, sym, ap, ◌∙◌, inl, inr, arith, ◌==◌, ==_iff, Bool-cases, Option-cases, All, Bytes,
}
use amigao.Spider.Copies.{IsChar}
use amigao.Spider.Master.{Database, is_skipped, fill, drain, at_exit}
use amigao.Spider.Queue.{UrlQueue, put_url}
use amigao.Spider.Slots.{read_from}
use amigao.Spider.Ring.{IsQueue, IsUrl, put_url-urls, slots, used, urls}
use amigao.Url.{format_url, to_lower}
use amigao.Url.Formatted.{IsFormatted, format_url-IsFormatted, format_url-All}
use amigao.Values.{url_size, url_nums}

-- A url that is in the normal spelling and that the database does not rule out.
pub record IsWanted (db : Database) (u : Bytes) : Type 0 where
  pub formatted : IsFormatted u
  pub wanted : is_skipped db u ≡ false

-- The queue `r` is the queue `q` with wanted urls behind.
pub record IsFilled (db : Database) (q r : UrlQueue) : Type 0 where
  pub added : List Bytes
  pub joined : urls r ≡ urls q ++ added
  pub wanted : All (IsWanted db) added
  pub valid : IsQueue r

pub IsFilled-refl : (db : Database) (q : UrlQueue) → IsQueue q → IsFilled db q q
IsFilled-refl db q v = record {
  added = [];
  joined = sym (append-nil (urls q));
  wanted = tt;
  valid = v;
}

pub to_lower-IsChar : (s : Bytes) → All IsChar s → All IsChar (map to_lower s)
unfolding to_lower
to_lower-IsChar [] h = tt
to_lower-IsChar (c ∷ cs) h = let first = h.0 in (ground arith, to_lower-IsChar cs h.1)

format_url-IsUrl :
    (db : Database) (s : Bytes) {u : Bytes}
    → All IsChar s
    → format_url s ≡ some u
    → is_skipped db u ≡ false
    → IsUrl u × IsWanted db u
format_url-IsUrl db s {u} h e wanted = elim (format_url-IsFormatted s e) [
  | inl nil ↦ cc (rw nil at wanted)
  | inr f ↦ (
    (format_url-All IsChar s (to_lower-IsChar s h) e, f.fits),
    record { formatted = f; wanted = wanted },
  )
]

-- Whenever `master` has filled the queue from the lines of a file, none of which holds a null byte,
-- the queue is valid, and what was added behind its urls are urls in the normal spelling that are
-- neither visited nor ruled out.
pub fill-IsFilled :
    (db : Database) (lines : List Bytes) (q : UrlQueue) {r : UrlQueue}
    → All (All IsChar) lines
    → IsQueue q
    → fill db lines q ≡ some r
    → IsFilled db q r
unfolding fill
fill-IsFilled db [] q {r} h v e =
    let same : q ≡ r = some-injective _ _ e in rw (← same) (IsFilled-refl db q v)
fill-IsFilled db (l ∷ ls) q {r} h v e =
    elim (Bool-cases ((q.url_tail + 1) % url_nums == q.url_head)) [
      | inl full ↦
          let same : q ≡ r = some-injective _ _ (rw full at e) in rw (← same) (IsFilled-refl db q v)
      | inr room ↦ elim (Option-cases (format_url l)) [
        | inl fault ↦ cc (rw (room, fault) at e)
        | inr (u, got) ↦ elim (Bool-cases (is_skipped db u)) [
          | inl pass ↦ fill-IsFilled db ls q h.1 v (rw pass at (rw got at (rw room at e)))
          | inr take_it ↦
              let (fits, wanted) = format_url-IsUrl db l h.0 got take_it in
              let apart : ((q.url_tail + 1) % url_nums ≡ q.url_head → ⊥) = ground arith in
              let (w, _, joined) = put_url-urls u q fits v (omega (arith, v.head, v.tail)) in
              let rest =
                fill-IsFilled db ls (put_url u q) h.1 w
                  (rw take_it at (rw got at (rw room at e))) in
              record {
                added = u ∷ rest.added;
                joined =
                    rest.joined
                    ∙ ap (λ us. us ++ rest.added) joined
                    ∙ append_assoc (urls q) (u ∷ []) rest.added;
                wanted = (wanted, rest.wanted);
                valid = rest.valid;
              }
        ]
      ]
    ]

drain-slots :
    (n : ℕ) (q : UrlQueue)
    → IsQueue q
    → used q ≤ n
    → ((drain n q).0 ≡ urls q) × (used (drain n q).1 ≡ 0)
unfolding drain
drain-slots zero q v h =
    let none_used : used q ≡ 0 = omega arith in
    (sym (ap (λ n. slots n q.url_head q.url_queue) none_used), none_used)
drain-slots (suc n) q v h = elim (Bool-cases (q.url_head == q.url_tail)) [
  | inl same ↦
      let e = (==_iff q.url_head q.url_tail).0 same in
      let none_used : used q ≡ 0 = omega (arith, v.head) in
      rw same (sym (ap (λ n. slots n q.url_head q.url_queue) none_used), none_used)
  | inr other ↦
      let apart : (q.url_head ≡ q.url_tail → ⊥) = ground arith in
      let r : UrlQueue = record q { url_head = (q.url_head + 1) % url_nums } in
      let less : used q ≡ suc (used r) = omega (arith, v.head, v.tail) in
      let (lines, ended) =
        drain-slots n r (record { head = omega arith; tail = v.tail }) (omega arith) in
      rw other (
        ap (λ us. read_from url_size 0 (q.url_queue q.url_head) ∷ us) lines
            ∙ sym (ap (λ n. slots n q.url_head q.url_queue) less),
        ended,
      )
]

-- At exit `master` writes the urls of the queue to the file, one line each and in their order, and leaves
-- the queue empty, so that its rounds come to an end; where the file cannot be opened, it writes none of
-- them, and all of them stay in the queue.
pub at_exit-urls :
    (opens : Bool) (q : UrlQueue)
    → IsQueue q
    → ((at_exit opens q).0 ≡ (if opens then urls q else []))
      × (urls (at_exit opens q).1 ≡ (if opens then [] else urls q))
unfolding at_exit
at_exit-urls true q v =
    let (lines, ended) = drain-slots url_nums q v (omega arith) in
    (lines, ap (λ n. slots n (drain url_nums q).1.url_head (drain url_nums q).1.url_queue) ended)
at_exit-urls false q v = (refl, refl)
