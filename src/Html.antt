-- ===== src/Html.antt =====
-- `str2html` (src/utils/str2html.cc), through which the search server writes texts into its pages.
pub mod Safe
use amigao.Base.{ℕ, [], ◌∷◌, ◌++◌, ◌==◌, if◌then◌else◌, Bytes, codes}

-- The cases of the `switch`.
unfoldable pub entity : ℕ → Bytes
entity c =
    if c == b'`'
    then codes "&acute;"
    else if c == b'<'
    then codes "&lt;"
    else if c == b'>'
    then codes "&gt;"
    else if c == b'&'
    then codes "&amp"
    else if c == b'"'
    then codes "&quot;"
    else if c == b'^'
    then codes "&circ;"
    else if c == b'/'
    then codes "&frasl;"
    else if c == b'\''
    then codes "&apos;"
    else c ∷ []

unfoldable pub convert_from : Bytes → Bytes → Bytes
convert_from res [] = res
convert_from res (c ∷ cs) = convert_from (res ++ entity c) cs

unfoldable pub str2html : Bytes → Bytes
unfolding convert_from entity
str2html = convert_from []
