-- ===== src/ParseHtml.antt =====
-- `get_links_contents` and `find_title` (src/utils/parse_html.cc), on the tree that gumbo makes of a page.
pub mod Links
use amigao.Base.{
  ℕ, Bool, true, false, not, ◌&&◌, ◌||◌, List, [], ◌∷◌, ◌++◌, Option, none, some, ltb,
  if◌then◌else◌, length, Bytes, text_eq,
}
use amigao.Url.{is_nil, format_url}
use amigao.Values.{url_size}

-- The tags that the code tells apart.
pub data Tag : Type 0 where
  script style a head title other : Tag

-- The nodes that the code tells apart; an element has its `href`, if any, and its children.
mutual
  pub data GumboNode : Type 0 where
    text whitespace : Bytes → GumboNode
    element : Tag → Option Bytes → Children → GumboNode
    others : GumboNode

  pub data Children : Type 0 where
    no_more : Children
    child : GumboNode → Children → Children

-- `links.insert`
abbrev pub insert_link : Bytes → List Bytes → List Bytes
insert_link u [] = u ∷ []
insert_link u (l ∷ ls) = if text_eq u l then l ∷ ls else l ∷ insert_link u ls

-- The link of an element; `none` is the fault of `format_url`.
unfoldable pub add_link : Tag → Option Bytes → List Bytes → Option (List Bytes)
add_link a (some href) links = elim (format_url href) [
  | none ↦ none
  | some tmp_url ↦
      if is_nil tmp_url || ltb url_size (length tmp_url)
      then some links
      else some (insert_link tmp_url links)
]
add_link _ _ links = some links

unfoldable pub is_code : Tag → Bool
is_code script = true
is_code style = true
is_code _ = false

-- A line break behind a child that is not the first and has added text.
abbrev pub separate : Bool → Bytes → Bytes → Bytes
separate first before contents =
    if not first && not (text_eq before contents) then contents ++ b'\n' ∷ [] else contents

-- What follows where there was no fault.
unfoldable pub and_then : {A B : Type 0} → Option A → (A → Option B) → Option B
and_then none f = none
and_then (some x) f = f x

unfoldable mutual
  unfolding and_then

  pub get_links_contents : GumboNode → List Bytes → Bytes → Option (List Bytes × Bytes)
  get_links_contents (text t) links contents = some (links, contents ++ t)
  get_links_contents (element tag href children) links contents =
      if is_code tag
      then some (links, contents)
      else and_then (add_link tag href links) (λ more. get_children true children more contents)
  get_links_contents (whitespace t) links contents = some (links, contents)
  get_links_contents others links contents = some (links, contents)

  pub get_children : Bool → Children → List Bytes → Bytes → Option (List Bytes × Bytes)
  get_children first no_more links contents = some (links, contents)
  get_children first (child n ns) links contents =
      and_then (get_links_contents n links contents)
        (λ r. get_children false ns r.0 (separate first contents r.1))

-- The text of a title: its only child's.
abbrev pub title_text : Children → Bytes
title_text (child (text t) no_more) = t
title_text (child (whitespace t) no_more) = t
title_text _ = []

-- The first title among the children of the head.
unfoldable pub title_in_head : Children → Bytes
title_in_head no_more = []
title_in_head (child (element title href children) ns) = title_text children
title_in_head (child _ ns) = title_in_head ns

-- The first head among the children of the root.
unfoldable pub title_in_root : Children → Bytes
unfolding title_in_head
title_in_root no_more = []
title_in_root (child (element head href children) ns) = title_in_head children
title_in_root (child _ ns) = title_in_root ns

unfoldable pub find_title : GumboNode → Bytes
unfolding title_in_root
find_title (element tag href children) = title_in_root children
find_title _ = []
