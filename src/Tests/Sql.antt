-- ===== src/Tests/Sql.antt =====
-- The operations on the database with a url that tries to end its string.
use amigao.Base.{
  ℕ, ◌≡◌, ◌≢◌, ◌<◌, length, refl, false, List, [], ◌∷◌, ◌++◌, map, All, Bytes, IsBytes, codes,
  arith,
}
use amigao.Info.{ℤ, pos}
use amigao.Sql.Urls.{is_refused, op_website_nice, op_visited_url, get_url_no, get_website_nice}
use amigao.Sql.Dicts.{add_dict_set, add_dict_table, drop_last, word_item}
use amigao.Sql.Leases.{Holds}
use amigao.Sql.Program.{Answer, rows}
use amigao.Sql.Operations.{Operation, website_nice, url_no, rm_dict, perform_all, perform_all-Holds}
use amigao.Sql.Items.{
  statements, join, flatten, IsWithinLimit, insert_word_into, add_dict_set-IsSpread,
}
use amigao.Sql.Templates.{Sends, IsUrlStatement, url_operations-Sends}

abbrev hostile : Bytes
hostile = codes "http://a/?q=';drop table visited_url;"

abbrev title : Bytes
title = codes "\"it's\""

-- Readers that find no number.
abbrev read_unsigned : Bytes → Bytes × ℕ
read_unsigned text = ([], 0)

abbrev read_signed : Bytes → Bytes × ℤ
read_signed text = ([], pos 0)

abbrev read_int : Bytes → ℤ
read_int text = pos 0

operations : List Operation
operations = website_nice hostile (codes "3") ∷ url_no hostile ∷ rm_dict (codes "words") ∷ []

perform_all-Holds_example :
    Holds 3 0 0 (perform_all read_unsigned read_signed read_int 2 100 operations)
perform_all-Holds_example = perform_all-Holds read_unsigned read_signed read_int 2 100 operations

hostile-accepted : is_refused hostile ≡ false
hostile-accepted = refl

words_named : codes "words" ≢ []
words_named = ground arith

both_named : All (λ w. w ≢ []) (codes "a" ∷ codes "b" ∷ [])
both_named = (ground arith, (ground arith, tt))

-- A server that has a row for every statement.
abbrev always_a_row : ℕ → Bytes → Answer
always_a_row i statement = rows ((codes "1" ∷ []) ∷ [])

add_dict_set-IsSpread_example :
    let insert = insert_word_into (codes "words") in
    (groups : List (List Bytes)) × (flatten groups ≡ map word_item (codes "a" ∷ codes "b" ∷ []))
    × (statements always_a_row 0
          (add_dict_set read_int 40 (codes "words") (codes "a" ∷ codes "b" ∷ []))
        ≡ statements always_a_row 0 (add_dict_table read_int (codes "words"))
          ++ map (λ g. insert ++ drop_last (join g)) groups)
    × All (λ g. (0 < length g) × IsWithinLimit 45 insert g) groups
add_dict_set-IsSpread_example =
    add_dict_set-IsSpread always_a_row read_int 40 b'w' (codes "ords") (codes "a") (codes "b" ∷ [])
      (λ i s. refl) both_named

hostile-IsBytes : IsBytes hostile
hostile-IsBytes = ground arith

title-IsBytes : IsBytes title
title-IsBytes = ground arith

nice-IsBytes : IsBytes (codes "3")
nice-IsBytes = ground arith

url_operations-Sends_example :
    Sends IsUrlStatement (op_website_nice hostile (codes "3"))
    × Sends IsUrlStatement (op_visited_url 100 hostile title [] [])
    × Sends IsUrlStatement (get_url_no read_unsigned read_signed 2 hostile)
    × Sends IsUrlStatement (get_website_nice read_unsigned read_signed hostile)
url_operations-Sends_example =
    url_operations-Sends read_unsigned read_signed 2 100 hostile (codes "3") title [] []
      hostile-IsBytes nice-IsBytes title-IsBytes tt tt
