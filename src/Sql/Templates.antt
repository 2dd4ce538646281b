-- ===== src/Sql/Templates.antt =====
-- The statements of the operations on urls, as the server cuts them up: what stands outside of string
-- literals, and which quotes delimit them.
use amigao.Base.{
  ◌∙◌, ap, ℕ, zero, suc, [], ◌++◌, ◌≡◌, refl, arith, inl, inr, Bytes, IsBytes, codes, Bool-cases,
}
use amigao.Codec.{crypt}
use amigao.Codec.Escaped.{crypt-IsSafe}
use amigao.Sql.Program.{Answer, Program, done, stop, lease, recycle, query}
use amigao.Sql.Urls
use amigao.Info.{ℤ}
use amigao.Sql.Urls.{
  set_column, is_refused, has_row, if_exist, op_website_nice, op_visited_url, find_url_no,
  get_url_no, get_website_nice,
}
use amigao.Sql.Skeleton.{outside, inside, skeleton, skeleton-safe}

-- Every statement of the program has `IsAllowed`, whatever the server answers.
abbrev pub Sends : {A : Type 0} → (Bytes → Type 0) → Program A → Type 0
Sends IsAllowed (done a) = Unit {0}
Sends IsAllowed (stop s) = Unit
Sends IsAllowed (lease p) = Sends IsAllowed p
Sends IsAllowed (recycle p) = Sends IsAllowed p
Sends IsAllowed (query s k) = IsAllowed s × ((a : Answer) → Sends IsAllowed (k a))

-- The statements of the operations on urls without what their strings hold.
pub data UrlTemplate : Type 0 where
  find_nice set_nice add_nice : UrlTemplate
  find_visited add_visited set_title set_contents set_html : UrlTemplate
  find_no read_no add_no read_nice : UrlTemplate

abbrev pub template : UrlTemplate → Bytes
template find_nice = codes "select url from website_nice where url=''"
template set_nice = codes "update amigao.website_nice set nice='' where url=''"
template add_nice = codes "insert into amigao.website_nice (url,nice) values ('','')"
template find_visited = codes "select url from amigao.visited_url where url=''"
template add_visited = codes "insert into amigao.visited_url (url) values ('') "
template set_title = codes "update amigao.visited_url set title=\"\" where url=\"\""
template set_contents = codes "update amigao.visited_url set contents=\"\" where url=\"\" "
template set_html = codes "update amigao.visited_url set html=\"\" where url=\"\""
template find_no = codes "select url from visited_url where url=''"
template read_no = codes "select no from amigao.visited_url where url=''"
template add_no = codes "insert into amigao.visited_url (url) values ('')"
template read_nice = codes "select nice from amigao.website_nice where url=''"

unfoldable pub IsUrlStatement : Bytes → Type 0
IsUrlStatement statement = (t : UrlTemplate) × (skeleton outside statement ≡ template t)

module _ (url : Bytes) (bytes : IsBytes url) where
  quoted :
      (rest : Bytes) → skeleton (inside b'\'') (crypt url ++ rest) ≡ skeleton (inside b'\'') rest
  quoted rest = skeleton-safe b'\'' (crypt url) rest (inl refl) (crypt-IsSafe url bytes)

  doubly_quoted :
      (rest : Bytes) → skeleton (inside b'"') (crypt url ++ rest) ≡ skeleton (inside b'"') rest
  doubly_quoted rest = skeleton-safe b'"' (crypt url) rest (inr refl) (crypt-IsSafe url bytes)

module _ (url nice : Bytes) (u : IsBytes url) (n : IsBytes nice) where
  known_nice :
      IsUrlStatement (codes "select url from website_nice where url='" ++ (crypt url ++ codes "'"))
  unfolding IsUrlStatement
  known_nice = (find_nice, rw (quoted url u))

  update_nice : IsUrlStatement (
      codes "update amigao.website_nice set nice='"
      ++ (crypt nice ++ (codes "' where url='" ++ (crypt url ++ codes "'"))))
  unfolding IsUrlStatement
  update_nice = (
    set_nice,
    ap (λ s. codes "update amigao.website_nice set nice='" ++ s)
        (quoted nice n _ ∙ ap (λ s. codes "' where url='" ++ s) (quoted url u (codes "'"))),
  )

  insert_nice : IsUrlStatement (
      codes "insert into amigao.website_nice (url,nice) values ('"
      ++ (crypt url ++ (codes "','" ++ (crypt nice ++ codes "')"))))
  unfolding IsUrlStatement
  insert_nice = (
    add_nice,
    ap (λ s. codes "insert into amigao.website_nice (url,nice) values ('" ++ s)
        (quoted url u _ ∙ ap (λ s. codes "','" ++ s) (quoted nice n (codes "')"))),
  )

  pub op_website_nice-Sends : Sends IsUrlStatement (op_website_nice url nice)
  unfolding op_website_nice if_exist
  op_website_nice-Sends = ground (arith, known_nice, update_nice, insert_nice)

module _ (url : Bytes) (u : IsBytes url) where
  known_url :
      IsUrlStatement
        (codes "select url from amigao.visited_url where url='" ++ (crypt url ++ codes "'"))
  unfolding IsUrlStatement
  known_url = (find_visited, rw (quoted url u))

  insert_url :
      IsUrlStatement
        (codes "insert into amigao.visited_url (url) values ('" ++ (crypt url ++ codes "') "))
  unfolding IsUrlStatement
  insert_url = (add_visited, rw (quoted url u))

  update_title : (v : Bytes) → IsBytes v → IsUrlStatement (set_column (codes "title") v url [])
  unfolding IsUrlStatement
  update_title v h = (set_title, rw (doubly_quoted v h, doubly_quoted url u))

  update_contents :
      (v : Bytes) → IsBytes v → IsUrlStatement (set_column (codes "contents") v url (codes " "))
  unfolding IsUrlStatement
  update_contents v h = (set_contents, rw (doubly_quoted v h, doubly_quoted url u))

  update_html : (v : Bytes) → IsBytes v → IsUrlStatement (set_column (codes "html") v url [])
  unfolding IsUrlStatement
  update_html v h = (set_html, rw (doubly_quoted v h, doubly_quoted url u))

  pub op_visited_url-Sends :
      (max_insert : ℕ) (title contents html : Bytes)
      → IsBytes title
      → IsBytes contents
      → IsBytes html
      → Sends IsUrlStatement (op_visited_url max_insert url title contents html)
  unfolding op_visited_url if_exist
  op_visited_url-Sends max_insert title contents html t c h = ground (
    arith,
    known_url,
    insert_url,
    update_title title t,
    update_contents contents c,
    update_html html h,
  )

  known_no :
      IsUrlStatement (codes "select url from visited_url where url='" ++ (crypt url ++ codes "'"))
  unfolding IsUrlStatement
  known_no = (find_no, rw (quoted url u))

  select_no :
      IsUrlStatement
        (codes "select no from amigao.visited_url where url='" ++ (crypt url ++ codes "'"))
  unfolding IsUrlStatement
  select_no = (read_no, rw (quoted url u))

  insert_no :
      IsUrlStatement
        (codes "insert into amigao.visited_url (url) values ('" ++ (crypt url ++ codes "')"))
  unfolding IsUrlStatement
  insert_no = (add_no, rw (quoted url u))

  select_nice :
      IsUrlStatement
        (codes "select nice from amigao.website_nice where url='" ++ (crypt url ++ codes "'"))
  unfolding IsUrlStatement
  select_nice = (read_nice, rw (quoted url u))

  module _ (extract_unsigned : Bytes → Bytes × ℕ) (extract : Bytes → Bytes × ℤ) where
    first_no-Sends : (a : Answer) → Sends IsUrlStatement (Urls.first_no extract_unsigned extract a)
    first_no-Sends a = ground arith

    nice_of-Sends : (a : Answer) → Sends IsUrlStatement (Urls.nice_of extract_unsigned extract a)
    nice_of-Sends a = ground arith

    find_url_no-Sends :
        (rounds : ℕ)
        → Sends IsUrlStatement (find_url_no extract_unsigned extract rounds (crypt url))
    unfolding find_url_no if_exist
    find_url_no-Sends zero = tt
    find_url_no-Sends (suc rounds) =
        let next : Sends IsUrlStatement (find_url_no extract_unsigned extract rounds (crypt url)) =
          find_url_no-Sends rounds in
        grind (arith, known_no, select_no, insert_no, first_no-Sends)

    pub get_url_no-Sends :
        (rounds : ℕ) → Sends IsUrlStatement (get_url_no extract_unsigned extract rounds url)
    unfolding get_url_no
    get_url_no-Sends rounds = ground (arith, find_url_no-Sends rounds)

    pub get_website_nice-Sends :
        Sends IsUrlStatement (get_website_nice extract_unsigned extract url)
    unfolding get_website_nice if_exist
    get_website_nice-Sends = elim (Bool-cases (is_refused url)) [
      | inl refused ↦ rw (refused, Sends) tt
      | inr accepted ↦
          rw (accepted, Sends)
            (
              select_nice,
              λ a. elim (Bool-cases (has_row a)) [
                | inl known ↦ rw (known, Sends) (select_nice, nice_of-Sends)
                | inr new ↦ rw (new, Sends) tt
              ],
            )
    ]

-- Whatever bytes a url, its rating and a page hold, and whatever the server answers, every statement that
-- the operations on urls send is, outside of its string literals, one of the twelve of the program: no
-- text from the web gets out of its quotes.
pub url_operations-Sends :
    (extract_unsigned : Bytes → Bytes × ℕ) (extract : Bytes → Bytes × ℤ) (rounds max_insert : ℕ)
    (url nice title contents html : Bytes)
    → IsBytes url
    → IsBytes nice
    → IsBytes title
    → IsBytes contents
    → IsBytes html
    → Sends IsUrlStatement (op_website_nice url nice)
      × Sends IsUrlStatement (op_visited_url max_insert url title contents html)
      × Sends IsUrlStatement (get_url_no extract_unsigned extract rounds url)
      × Sends IsUrlStatement (get_website_nice extract_unsigned extract url)
url_operations-Sends extract_unsigned extract rounds max_insert url nice title contents html u n t c
      h =
    (
      op_website_nice-Sends url nice u n,
      op_visited_url-Sends url u max_insert title contents html t c h,
      get_url_no-Sends url u extract_unsigned extract rounds,
      get_website_nice-Sends url u extract_unsigned extract,
    )
