-- ===== src/ParseHtml/Links.antt =====
-- The links of a page are urls that the ring of urls can hold.
use mathlib.Core.Option.{some-injective}
use amigao.Base.{
  Bool, true, false, ◌||◌, List, [], ◌∷◌, Option, none, some, ◌≡◌, ap, inl, inr, arith, ltb,
  Bool-cases, Option-cases, length, All, Bytes, text_eq,
}
use amigao.ParseHtml.{
  Tag, a, GumboNode, text, whitespace, element, others, Children, no_more, child, insert_link,
  add_link, is_code, separate, and_then, get_links_contents, get_children,
}
use amigao.Spider.Copies.{IsChar}
use amigao.Spider.Master.Filled.{to_lower-IsChar}
use amigao.Spider.Ring.{IsUrl}
use amigao.Url.{is_nil, format_url}
use amigao.Url.Formatted.{IsFormatted, format_url-IsFormatted, format_url-All}
use amigao.Values.{url_size}

-- A url in the normal spelling that holds no null byte.
abbrev pub IsLink : Bytes → Type 0
IsLink u = IsFormatted u × IsUrl u

-- The attribute of an element is a C string.
abbrev pub IsHref : Option Bytes → Type 0
IsHref none = Unit
IsHref (some href) = All IsChar href

abbrev mutual
  pub HasStrings : GumboNode → Type 0
  HasStrings (text t) = Unit
  HasStrings (whitespace t) = Unit
  HasStrings (element tag href children) = IsHref href × HaveStrings children
  HasStrings others = Unit

  pub HaveStrings : Children → Type 0
  HaveStrings no_more = Unit
  HaveStrings (child n ns) = HasStrings n × HaveStrings ns

insert_link-All :
    (P : Bytes → Type 0) (u : Bytes) (ls : List Bytes) → P u → All P ls → All P (insert_link u ls)
insert_link-All P u [] h k = (h, tt)
insert_link-All P u (l ∷ ls) h k = elim (Bool-cases (text_eq u l)) [
  | inl same ↦ rw same k
  | inr new ↦ rw new (k.0, insert_link-All P u ls h k.1)
]

add_link-href :
    (href : Bytes) (links : List Bytes) {more : List Bytes}
    → All IsChar href
    → All IsLink links
    → add_link a (some href) links ≡ some more
    → All IsLink more
unfolding add_link
add_link-href href links {more} h k e = elim (Option-cases (format_url href)) [
  | inl fault ↦ cc (rw (fault, add_link) at e)
  | inr (u, got) ↦ elim (Bool-cases (is_nil u || ltb url_size (length u))) [
    | inl out ↦
        let same : links ≡ more = some-injective _ _ (rw out at (rw (got, add_link) at e)) in
        rw (← same) k
    | inr fits ↦
        let same : insert_link u links ≡ more =
          some-injective _ _ (rw fits at (rw (got, add_link) at e)) in
        elim (format_url-IsFormatted href got) [
          | inl nil ↦ cc (rw nil at fits)
          | inr f ↦ rw (← same) (
              insert_link-All IsLink u links
                (f, (format_url-All IsChar href (to_lower-IsChar href h) got, f.fits)) k)
        ]
  ]
]

add_link-All :
    (tag : Tag) (href : Option Bytes) (links : List Bytes) {more : List Bytes}
    → IsHref href
    → All IsLink links
    → add_link tag href links ≡ some more
    → All IsLink more
unfolding add_link
add_link-All a (some href) links h k e = add_link-href href links h k e
add_link-All _ _ links {more} h k e = let same : links ≡ more = ground arith in rw (← same) k

mutual
  unfolding get_links_contents and_then

  node-links :
      (n : GumboNode) (links : List Bytes) (contents : Bytes) {r : List Bytes × Bytes}
      → HasStrings n
      → All IsLink links
      → get_links_contents n links contents ≡ some r
      → All IsLink r.0
  node-links (text t) links contents {r} h k e =
      let same : links ≡ r.0 = ap (λ x. x.0) (some-injective _ _ e) in rw (← same) k
  node-links (whitespace t) links contents {r} h k e =
      let same : links ≡ r.0 = ap (λ x. x.0) (some-injective _ _ e) in rw (← same) k
  node-links others links contents {r} h k e =
      let same : links ≡ r.0 = ap (λ x. x.0) (some-injective _ _ e) in rw (← same) k
  node-links (element tag href children) links contents {r} h k e =
      elim (Bool-cases (is_code tag)) [
        | inl code ↦
            let same : links ≡ r.0 =
              ap (λ x. x.0) (some-injective _ _ (rw (code, get_links_contents) at e)) in
            rw (← same) k
        | inr page ↦ elim (Option-cases (add_link tag href links)) [
          | inl fault ↦ cc (rw fault at (rw (page, get_links_contents) at e))
          | inr (more, added) ↦
              children-links true children more contents h.1
                (add_link-All tag href links h.0 k added)
                (rw added at (rw (page, get_links_contents) at e))
        ]
      ]

  children-links :
      (first : Bool) (ns : Children) (links : List Bytes) (contents : Bytes)
      {r : List Bytes × Bytes}
      → HaveStrings ns
      → All IsLink links
      → get_children first ns links contents ≡ some r
      → All IsLink r.0
  children-links first no_more links contents {r} h k e =
      let same : links ≡ r.0 = ap (λ x. x.0) (some-injective _ _ e) in rw (← same) k
  children-links first (child n ns) links contents {r} h k e =
      elim (Option-cases (get_links_contents n links contents)) [
        | inl fault ↦ cc (rw (fault, get_children) at e)
        | inr (q, got) ↦
            children-links false ns q.0 (separate first contents q.1) h.1
              (node-links n links contents h.0 k got) (rw (got, get_children) at e)
      ]

-- Whenever the links of a page have been collected, from attributes without null bytes, each of them is
-- a url in the normal spelling that fits a slot of the ring of urls.
pub get_links_contents-IsLink :
    (root : GumboNode) {links : List Bytes} {contents : Bytes}
    → HasStrings root
    → get_links_contents root [] [] ≡ some (links, contents)
    → All IsLink links
get_links_contents-IsLink root {links} {contents} h e = node-links root [] [] h tt e
