-- ===== src/Server/Tags.antt =====
-- The tags of the pages of the search server.
use amigao.Base.{
  ℕ, Bool, true, false, ◌&&◌, ◌||◌, List, [], ◌∷◌, ◌++◌, ◌≡◌, refl, ap, ◌∙◌, inl, inr, arith, ◌==◌,
  if◌then◌else◌, Bool-cases, All, All-map, Bytes, codes, map,
}
use amigao.Decimal.{IsDigit, print_number, print_number-IsDigit}
use amigao.Html.{str2html}
use amigao.Html.Safe.{IsTextByte, str2html-IsTextByte}
use amigao.Search.{PlainSearchResultNode}
use amigao.Server.Page.{joined, or_else, result_pieces, result_html}
use amigao.Weights.Scan.{Lacks}

-- A space or the end of a tag.
abbrev ends_name : ℕ → Bool
ends_name c = c == 32 || c == b'>'

abbrev tag_name : Bytes → Bytes
tag_name [] = []
tag_name (c ∷ cs) = let rest = tag_name cs in if ends_name c then [] else c ∷ rest

-- The names of all tags of a text, in their order: what stands between a `<` and the next space or `>`.
abbrev pub tags : Bytes → List Bytes
tags [] = []
tags (c ∷ cs) = let rest = tags cs in if c == b'<' then tag_name cs ∷ rest else rest

abbrev pub Plain : Bytes → Type 0
Plain = Lacks b'<'

-- The text has the end of the name of each of its tags.
abbrev has_end : Bytes → Bool
has_end [] = false
has_end (c ∷ cs) = ends_name c || has_end cs

abbrev is_closed : Bytes → Bool
is_closed [] = true
is_closed (c ∷ cs) = (if c == b'<' then has_end cs else true) && is_closed cs

abbrev pub Closed : Bytes → Type 0
Closed text = is_closed text ≡ true

tag_name-append : (x y : Bytes) → has_end x ≡ true → tag_name (x ++ y) ≡ tag_name x
tag_name-append [] y h = cc
tag_name-append (c ∷ cs) y h = elim (Bool-cases (ends_name c)) [
  | inl ends ↦ rw ends
  | inr more ↦ rw more (ap (λ r. c ∷ r) (tag_name-append cs y (ground arith)))
]

pub tags-append : (x y : Bytes) → Closed x → tags (x ++ y) ≡ tags x ++ tags y
tags-append [] y h = refl
tags-append (c ∷ cs) y h = elim (Bool-cases (c == b'<')) [
  | inl opens ↦
      let named = tag_name-append cs y (ground arith) in
      rw opens (rw named (ap (λ r. tag_name cs ∷ r) (tags-append cs y (ground arith))))
  | inr other ↦ rw other (tags-append cs y (ground arith))
]

-- A text that is closed, and its tags.
pub record Gives (text : Bytes) (names : List Bytes) : Type 0 where
  pub closed : Closed text
  pub same : tags text ≡ names

pub Closed-append : (x y : Bytes) → Closed x → Closed y → Closed (x ++ y)
Closed-append [] y h k = k
Closed-append (c ∷ cs) y h k = elim (Bool-cases (c == b'<')) [
  | inl opens ↦
      let rest : Closed (cs ++ y) = Closed-append cs y (ground arith) k in
      let ends : has_end (cs ++ y) ≡ true = has_end-append cs (ground arith) in
      rw (opens, ends, rest)
  | inr other ↦
      let rest : Closed (cs ++ y) = Closed-append cs y (ground arith) k in rw (other, rest)
]
  where
    has_end-append : (x : Bytes) → has_end x ≡ true → has_end (x ++ y) ≡ true
    has_end-append [] e = cc
    has_end-append (c ∷ cs) e = elim (Bool-cases (ends_name c)) [
      | inl ends ↦ rw ends
      | inr more ↦ rw (more, has_end-append cs (ground arith))
    ]

-- The texts of a list one behind the other, and likewise their tags.
abbrev pub flatten : List (List Bytes) → List Bytes
flatten [] = []
flatten (xs ∷ xss) = xs ++ flatten xss

pub joined-Gives :
    (pieces : List Bytes) → All Closed pieces → Gives (joined pieces) (flatten (map tags pieces))
joined-Gives [] h = record { closed = refl; same = refl }
joined-Gives (piece ∷ pieces) h =
    let rest = joined-Gives pieces h.1 in
    record {
      closed = Closed-append piece (joined pieces) h.0 rest.closed;
      same = tags-append piece (joined pieces) h.0 ∙ ap (λ more. tags piece ++ more) rest.same;
    }

pub nothing : Gives [] []
nothing = record { closed = refl; same = refl }

pub plain : (text : Bytes) → Plain text → Gives text []
plain [] h = nothing
plain (c ∷ cs) h =
    let rest = plain cs h.1 in record { closed = rw (h.0, rest.closed); same = rw (h.0, rest.same) }

pub print_number-Plain : (n : ℕ) → Plain (print_number n)
print_number-Plain n =
    All-map IsDigit (λ d. (d == b'<') ≡ false) (print_number n) (λ d h. ground arith)
      (print_number-IsDigit n)

str2html-Plain : (text : Bytes) → Plain (str2html text)
str2html-Plain text =
    All-map IsTextByte (λ d. (d == b'<') ≡ false) (str2html text) (λ d h. ground arith)
      (str2html-IsTextByte text)

or_else-Plain : (text other : Bytes) → Plain text → Plain other → Plain (or_else text other)
or_else-Plain [] other h k = k
or_else-Plain (c ∷ cs) other h k = h

-- The tags of a result, and of a link to a page.
abbrev pub result_tags : List Bytes
result_tags =
    codes "div"
    ∷ codes "a"
    ∷ codes "/a"
    ∷ codes "br"
    ∷ codes "br"
    ∷ codes "i"
    ∷ codes "/i"
    ∷ codes "/div"
    ∷ codes "br"
    ∷ []

-- A url and a time that bring no tag with them.
abbrev pub HasPlainUrl : PlainSearchResultNode → Type 0
HasPlainUrl node = Plain node.url × Plain node.last_time

pub result_html-Gives :
    (node : PlainSearchResultNode) → HasPlainUrl node → Gives (result_html node) result_tags
unfolding result_html
result_html-Gives node h =
    let empty : Plain (codes "#empty") = ground arith in
    let url = plain _ (or_else-Plain node.url (codes "#empty") h.0 empty) in
    let time = plain _ (or_else-Plain node.last_time (codes "#empty") h.1 empty) in
    let contents = plain _ (
      or_else-Plain (str2html node.contents) (codes "#empty") (str2html-Plain node.contents)
        empty) in
    let title = plain _ (
      or_else-Plain (str2html node.title) _ (str2html-Plain node.title)
        (or_else-Plain node.url (codes "#empty") h.0 empty)) in
    let whole =
      joined-Gives (result_pieces node)
        (ground (arith, url.closed, title.closed, time.closed, contents.closed)) in
    record {
      closed = whole.closed;
      same = whole.same ∙ rw (url.same, title.same, time.same, contents.same) refl;
    }
