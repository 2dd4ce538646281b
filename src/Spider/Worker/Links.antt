-- ===== src/Spider/Worker/Links.antt =====
-- Where the links of a page go.
use amigao.Base.{
  ℕ, Bool, true, ap, ◌∙◌, ◌==◌, ==_iff, arith, false, List, [], ◌∷◌, ◌++◌, Option, none, some, ◌≡◌,
  refl, ◌⊎◌, inl, inr, Bool-cases, Option-cases, All, Bytes, text_eq,
}
use amigao.Codec.{crypt}
use amigao.Weights.Nodes.{text_eq_iff, text_eq_refl}
use amigao.Spider.Queue.{UrlQueue, insert_links}
use amigao.Spider.Ring.{IsQueue, IsUrl, urls, IsPut, insert_links-IsPut}
use amigao.Spider.Worker.{
  DbOperation, Outside, Spider, Outcome, again, has_url, exited, fault, wanted_links, without,
  put_aside, store_links, digest, is_done,
}

pub without-All :
    (P : Bytes → Type 0) (p : Bytes → Bool) (ls : List Bytes) → All P ls → All P (without p ls)
without-All P p [] h = tt
without-All P p (l ∷ ls) h = elim (Bool-cases (p l)) [
  | inl drop ↦ rw drop (without-All P p ls h.1)
  | inr keep ↦ rw keep (h.0, without-All P p ls h.1)
]

-- Every link of the list is in the ring of `r`, behind the urls of `ring` and in order, or at the end
-- of the file, behind its lines.
pub record IsStored {D : Type 0} (links : List Bytes) (ring : UrlQueue) (file : Option (List Bytes))
    (r : Spider D) : Type 0 where
  pub put : List Bytes
  pub left : List Bytes
  pub split : put ++ left ≡ links
  pub in_ring : urls r.url_ring ≡ urls ring ++ put
  pub in_file :
      ((left ≡ []) × (r.write_url ≡ file))
      ⊎ ((lines : List Bytes) × (file ≡ some lines) × (r.write_url ≡ some (lines ++ left)))
  pub valid : IsQueue r.url_ring

-- What an outcome says of the links that were to be stored.
abbrev Stores : {D : Type 0} → List Bytes → Spider D → Outcome D → Type 0
Stores links s (again r) = IsStored links s.url_ring s.write_url r
Stores links s (has_url _ r) = ⊥
Stores links s exited = s.write_url ≡ none
Stores links s fault = ⊥

put_aside-Stores :
    {D : Type 0} (links : List Bytes) (s : Spider D) (ring : UrlQueue) (left : List Bytes) {n : ℕ}
    → IsPut links s.url_ring ring left n
    → Stores links s (put_aside left (record s { url_ring = ring }))
unfolding put_aside
put_aside-Stores links s ring [] p = record {
  put = p.put;
  left = [];
  split = p.split;
  in_ring = p.joined;
  in_file = inl (refl, refl);
  valid = p.valid;
}
put_aside-Stores links s ring (l ∷ ls) p = elim (Option-cases s.write_url) [
  | inl closed ↦ rw (closed, put_aside) refl
  | inr (lines, opened) ↦
      rw (opened, put_aside)
        (record {
          put = p.put;
          left = l ∷ ls;
          split = p.split;
          in_ring = p.joined;
          in_file = inr (lines, refl, refl);
          valid = p.valid;
        })
]

store_links-Stores :
    {D : Type 0} (links : List Bytes) (s : Spider D)
    → All IsUrl links
    → IsQueue s.url_ring
    → Stores links s (store_links links s)
unfolding store_links
store_links-Stores links s h v =
    put_aside-Stores links s (insert_links links s.url_ring).0 (insert_links links s.url_ring).1
      (insert_links-IsPut links s.url_ring h v)

-- The parser's links are urls that fit a slot.
abbrev pub GivesUrls : Outside → Type 0
GivesUrls out = (html : Bytes) → All IsUrl (out.parse_page html).links

abbrev pub IsIn : Bytes → List Bytes → Type 0
IsIn l [] = ⊥
IsIn l (m ∷ ms) = (l ≡ m) ⊎ IsIn l ms

-- The website of the link has the nice value 0, or the link is visited already.
abbrev pub IsRuledOut : {D : Type 0} → DbOperation D → D → Bytes → Type 0
IsRuledOut op d l = (op.get_website_nice d l ≡ 0) ⊎ (op.if_visited d (crypt l) ≡ true)

-- A link that a worker has to store is stored.
abbrev pub IsTreated : {D : Type 0} → DbOperation D → D → Bytes → List Bytes → Bytes → Type 0
IsTreated op d url stored l = (l ≡ url) ⊎ (IsRuledOut op d l ⊎ IsIn l stored)

-- A link that is stored is one of the page, and has to be.
abbrev pub IsWantedLink : {D : Type 0} → DbOperation D → D → Bytes → List Bytes → Bytes → Type 0
IsWantedLink op d url links l = IsIn l links × ¬ (l ≡ url) × ¬ IsRuledOut op d l

All-IsIn : (P : Bytes → Type 0) (ls : List Bytes) → ((l : Bytes) → IsIn l ls → P l) → All P ls
All-IsIn P [] h = tt
All-IsIn P (l ∷ ls) h = (h l (inl refl), All-IsIn P ls (λ m there. h m (inr there)))

without_keeps :
    (p : Bytes → Bool) (l : Bytes) (ls : List Bytes)
    → IsIn l ls
    → (p l ≡ true) ⊎ IsIn l (without p ls)
without_keeps p l [] h = absurd h
without_keeps p l (m ∷ ms) (inl same) = elim (Bool-cases (p m)) [
  | inl drop ↦ inl (ap p same ∙ drop)
  | inr keep ↦ rw keep (inr (inl same))
]
without_keeps p l (m ∷ ms) (inr there) = elim (without_keeps p l ms there) [
  | inl drop ↦ inl drop
  | inr kept ↦ elim (Bool-cases (p m)) [
    | inl drop ↦ rw drop (inr kept)
    | inr keep ↦ rw keep (inr (inr kept))
  ]
]

without_gives :
    (p : Bytes → Bool) (l : Bytes) (ls : List Bytes)
    → IsIn l (without p ls)
    → IsIn l ls × (p l ≡ false)
without_gives p l [] h = absurd h
without_gives p l (m ∷ ms) h = elim (Bool-cases (p m)) [
  | inl drop ↦ let (there, kept) = without_gives p l ms (rw drop at h) in (inr there, kept)
  | inr keep ↦ go keep (without_gives p l ms) (rw keep at h)
]
  where
    go :
        p m ≡ false
        → (IsIn l (without p ms) → IsIn l ms × (p l ≡ false))
        → IsIn l (m ∷ without p ms)
        → IsIn l (m ∷ ms) × (p l ≡ false)
    go keep later (inl same) = (inl same, ap p same ∙ keep)
    go keep later (inr there) = let (rest, kept) = later there in (inr rest, kept)

not_same : (l url : Bytes) → text_eq l url ≡ false → ¬ (l ≡ url)
not_same l url other same = let hit = rw (← same, text_eq_refl l) at other in absurd (ground arith)

is_done-true :
    {D : Type 0} (op : DbOperation D) (d : D) (l : Bytes)
    → is_done op d l ≡ true
    → IsRuledOut op d l
is_done-true op d l h = elim (Bool-cases (op.get_website_nice d l == 0)) [
  | inl nice ↦ inl ((==_iff _ _).0 nice)
  | inr other ↦ inr (rw other at h)
]

is_done-false :
    {D : Type 0} (op : DbOperation D) (d : D) (l : Bytes)
    → is_done op d l ≡ false
    → ¬ IsRuledOut op d l
is_done-false op d l h (inl nice) =
    let zero_nice : (op.get_website_nice d l == 0) ≡ true = ground arith in ground arith
is_done-false op d l h (inr visited) =
    let known = rw visited at h in
    elim (Bool-cases (op.get_website_nice d l == 0)) [
      | inl nice ↦ let clash : true ≡ false = rw nice at known in absurd (ground arith)
      | inr other ↦ let clash : true ≡ false = rw other at known in absurd (ground arith)
    ]

module _ {D : Type 0} (op : DbOperation D) (out : Outside) (urls_only : GivesUrls out) where
  wanted_links-all :
      (d : D) (url : Bytes) (ls : List Bytes)
      → All (IsTreated op d url (wanted_links op d url ls)) ls
  wanted_links-all d url ls = All-IsIn (IsTreated op d url (wanted_links op d url ls)) ls λ l there.
      elim (without_keeps (λ m. text_eq m url) l ls there) [
        | inl own ↦ inl (text_eq_iff l url own)
        | inr more ↦ elim (without_keeps (is_done op d) l (without (λ m. text_eq m url) ls) more) [
          | inl done ↦ inr (inl (is_done-true op d l done))
          | inr kept ↦ inr (inr kept)
        ]
      ]

  wanted_links-wanted :
      (d : D) (url : Bytes) (ls : List Bytes)
      → All (IsWantedLink op d url ls) (wanted_links op d url ls)
  wanted_links-wanted d url ls =
      All-IsIn (IsWantedLink op d url ls) (wanted_links op d url ls) λ l there.
        let (left, fresh) =
          without_gives (is_done op d) l (without (λ m. text_eq m url) ls) there in
        let (found, other) = without_gives (λ m. text_eq m url) l ls left in
        (found, not_same l url other, is_done-false op d l fresh)

  wanted_links-IsUrl :
      (d : D) (url html : Bytes) → All IsUrl (wanted_links op d url (out.parse_page html).links)
  wanted_links-IsUrl d url html =
      without-All IsUrl (is_done op d) _ (without-All IsUrl (λ l. text_eq l url) _ (urls_only html))

  -- As long as the links of the parser are urls that fit a slot and hold no null byte, and the ring of urls is
  -- valid: whenever a worker has digested a page and starts again, there is a list of links such that
  -- every link of the page is its own url, is ruled out by the database (by the nice value 0 of its
  -- website, or as visited, once the page is valuated) or is in the list; every link of the list is one
  -- of the page and neither its own url nor ruled out; the ring of urls is valid; and the list is stored:
  -- its first links are in the ring, behind the urls that were there, and the others at the end of the
  -- file.
  pub digest-IsStored :
      (url html : Bytes) (s : Spider D) {r : Spider D}
      → IsQueue s.url_ring
      → digest op out url html s ≡ again r
      → let links = (out.parse_page html).links in
        let d = op.valuate_page s.database url (out.parse_page html) html in
        (stored : List Bytes) × All (IsTreated op d url stored) links
        × All (IsWantedLink op d url links) stored
        × IsStored stored s.url_ring s.write_url r
  unfolding digest
  digest-IsStored url html s {r} v e =
      let d = op.valuate_page s.database url (out.parse_page html) html in
      let links = wanted_links op d url (out.parse_page html).links in
      (
        links,
        wanted_links-all d url (out.parse_page html).links,
        wanted_links-wanted d url (out.parse_page html).links,
        rw e at (
            store_links-Stores links (record s { database = d }) (wanted_links-IsUrl d url html) v),
      )
