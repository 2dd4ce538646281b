-- ===== src/Sql/Urls.antt =====
-- The operations on the tables of urls and websites.
use amigao.Base.{
  ℕ, zero, suc, ◌/◌, ◌*◌, Bool, true, false, ◌||◌, List, [], ◌∷◌, ◌++◌, Option, none, some, ltb,
  if◌then◌else◌, length, Bytes, codes,
}
use amigao.Codec.{crypt, decrypt}
use amigao.Info.{ℤ, pos, less}
use amigao.Sql.Program.{
  Answer, rows, fault, running, Program, done, stop, ◌>>=◌, ◌>>◌, get_db, recycle_db,
  maria_real_query, send, is_failed, column,
}
use amigao.Url.{is_nil}
use amigao.Values.{url_size, html_size}

-- The guard of the operations on a url: `url.empty() || url.size() > URL_SIZE`.
abbrev pub is_refused : Bytes → Bool
is_refused url = is_nil url || ltb url_size (length url)

-- `SqlDBOperation`, which finds `MAX_INSERT`: three pages, or the processor's share of a packet of the
-- server where that is more. `atol` and the number of workers are the system's.
unfoldable pub init_max_insert : (Bytes → ℕ) → ℕ → Program ℕ
init_max_insert atol workers = do
  get_db
  answer ← maria_real_query (codes "show variables like '%max_allowed_packet%'")
  recycle_db
  done (elim answer [
    | rows (row ∷ _) ↦
        if ltb (atol (column 1 row) / workers) (3 * html_size)
        then 3 * html_size
        else atol (column 1 row) / workers
    | _ ↦ 3 * html_size
  ])

abbrev pub has_row : Answer → Bool
has_row (rows (row ∷ more)) = true
has_row _ = false

unfoldable pub if_exist : Bytes → Bytes → Bytes → Bytes → Program Bool
if_exist select from column value = do
  get_db
  answer ← maria_real_query (
      codes "select "
      ++ (select
          ++ (codes " from "
              ++ (from ++ (codes " where " ++ (column ++ (codes "='" ++ (value ++ codes "'"))))))))
  recycle_db
  done (has_row answer)

unfoldable pub op_website_nice : Bytes → Bytes → Program (Unit {0})
unfolding if_exist
op_website_nice url nice =
    let change = do
      get_db
      known ← if_exist (codes "url") (codes "website_nice") (codes "url") (crypt url)
      send (
          if known
          then codes "update amigao.website_nice set nice='"
            ++ (crypt nice ++ (codes "' where url='" ++ (crypt url ++ codes "'")))
          else codes "insert into amigao.website_nice (url,nice) values ('"
            ++ (crypt url ++ (codes "','" ++ (crypt nice ++ codes "')"))))
      recycle_db
    in if is_refused url then done tt else change

-- A statement that fits the limit is sent, a longer one is not.
abbrev pub send_within : ℕ → Bytes → Program (Unit {0})
send_within max_insert statement =
    if ltb max_insert (length statement) then done tt else send statement

-- `update amigao.visited_url set <column>="..." where url="..."`, with what follows it.
abbrev pub set_column : Bytes → Bytes → Bytes → Bytes → Bytes
set_column column value url end =
    codes "update amigao.visited_url set "
    ++ (column
        ++ (codes "=\""
            ++ (crypt value ++ (codes "\" where url=\"" ++ (crypt url ++ (codes "\"" ++ end))))))

unfoldable pub op_visited_url : ℕ → Bytes → Bytes → Bytes → Bytes → Program (Unit {0})
unfolding if_exist
op_visited_url max_insert url title contents html =
    let store = do
      get_db
      known ← if_exist (codes "url") (codes "amigao.visited_url") (codes "url") (crypt url)
      if known
          then done tt
          else send
              (codes "insert into amigao.visited_url (url) values ('" ++ (crypt url ++ codes "') "))
      send_within max_insert (set_column (codes "title") title url [])
      send_within max_insert (set_column (codes "contents") contents url (codes " "))
      send_within max_insert (set_column (codes "html") html url [])
      recycle_db
    in if is_refused url then done tt else store

-- Reading an unsigned and a signed number out of a `stringstream` is the standard library's: from what
-- the stream holds, what it holds afterwards, and the number.
module _ (extract_unsigned : Bytes → Bytes × ℕ) (extract : Bytes → Bytes × ℤ) where
  -- The number in the first row of an answer.
  abbrev pub first_no : Answer → Program ℕ
  first_no (rows (row ∷ more)) = elim (decrypt (column 0 row)) [
    | none ↦ stop fault
    | some text ↦ (do recycle_db; done (extract_unsigned text).1)
  ]
  first_no _ = do recycle_db; done 0

  -- The loop of `goto again`, with the rounds left.
  unfoldable pub find_url_no : ℕ → Bytes → Program ℕ
  unfolding if_exist
  find_url_no zero url = stop running
  find_url_no (suc rounds) url = do
    known ← if_exist (codes "url") (codes "visited_url") (codes "url") url
    if known
        then maria_real_query
            (codes "select no from amigao.visited_url where url='" ++ (url ++ codes "'"))
          >>= first_no
        else (do
          answer ←
              maria_real_query
                (codes "insert into amigao.visited_url (url) values ('" ++ (url ++ codes "')"))
          if is_failed answer then (do recycle_db; done 0) else find_url_no rounds url)

  unfoldable pub get_url_no : ℕ → Bytes → Program ℕ
  unfolding find_url_no
  get_url_no rounds url =
      let find = get_db >> find_url_no rounds (crypt url) in if is_refused url then done 0 else find

  -- The least of the numbers in the rows, and of the one at hand.
  unfoldable pub least_nice : Bytes → ℤ → List (List Bytes) → Option ℤ
  least_nice ss ret [] = some ret
  least_nice ss ret (row ∷ more) = elim (decrypt (column 0 row)) [
    | none ↦ none
    | some text ↦
        let got = extract (ss ++ text) in
        least_nice got.0 (if less got.1 ret then got.1 else ret) more
  ]

  abbrev pub nice_of : Answer → Program ℤ
  nice_of (rows more) = elim (least_nice [] (pos 10) more) [
    | none ↦ stop fault
    | some ret ↦ (do recycle_db; done ret)
  ]
  nice_of _ = do recycle_db; done (pos 10)

  unfoldable pub get_website_nice : Bytes → Program ℤ
  unfolding if_exist
  get_website_nice url =
      let find = do
        known ← if_exist (codes "nice") (codes "amigao.website_nice") (codes "url") (crypt url)
        if known
            then (do
              get_db
              answer ← maria_real_query (
                  codes "select nice from amigao.website_nice where url='"
                  ++ (crypt url ++ codes "'"))
              nice_of answer)
            else done (pos 10)
      in if is_refused url then done (pos 0) else find
