-- ===== src/Url/Defs.antt =====
-- `format_url` and `parse_url`. A position of a loop is the suffix of the text that starts there.
use mathlib.Core.List.{map, reverse}
use mathlib.Core.Option
use amigao.Base.{
  ℕ, ◌+◌, Bool, true, false, not, ◌&&◌, ◌||◌, [], ◌∷◌, Option, none, some, leb, ltb, ◌==◌,
  if◌then◌else◌, length, Bytes, codes,
}
use amigao.Values.{url_size}

abbrev pub is_nil : Bytes → Bool
is_nil [] = true
is_nil (c ∷ cs) = false

-- `j < len && url[j] == c`
abbrev pub starts : ℕ → Bytes → Bool
starts c [] = false
starts c (x ∷ xs) = x == c

unfoldable pub to_lower : ℕ → ℕ
to_lower c = if leb b'A' c && leb c b'Z' then c + 32 else c

abbrev pub is_blank : ℕ → Bool
is_blank c = c == b' ' || c == b'\t'

abbrev pub is_tail : ℕ → Bool
is_tail c = c == b' ' || c == b'\t' || c == b'/' || c == b'\n'

-- The loop over the leading blanks: how many there are, and what follows.
unfoldable pub skip_blanks : ℕ → Bytes → ℕ × Bytes
skip_blanks i [] = (i, [])
skip_blanks i (c ∷ cs) =
    let rest = skip_blanks (i + 1) cs in if is_blank c then rest else (i, c ∷ cs)

-- `for (j = len - 1; j >= i; --j)`, on the text from `i` read backwards. Where `i` is 0, `j >= i`
-- holds of every size_t: past the first byte `j` wraps, and `url[j]` is out of the string (`none`).
unfoldable pub cut_tail : Bool → Bytes → Option Bytes
cut_tail at_start [] = if at_start then none else some []
cut_tail at_start (c ∷ cs) =
    let rest = cut_tail at_start cs in if is_tail c then rest else some (c ∷ cs)

-- `url[j] == word[k]` for as long as it holds: what is left of the word, and of the text.
unfoldable pub scan : Bytes → Bytes → Bytes × Bytes
scan [] u = ([], u)
scan (p ∷ ps) [] = (p ∷ ps, [])
scan (p ∷ ps) (c ∷ cs) = let rest = scan ps cs in if c == p then rest else (p ∷ ps, c ∷ cs)

-- An optional `s`.
abbrev pub skip_s : Bytes → Bytes
skip_s [] = []
skip_s (c ∷ cs) = if c == b's' then cs else c ∷ cs

unfoldable pub skip_scheme : Bytes → Bytes
skip_scheme u =
    let (http, after) = scan (codes "http") u in
    let (sep, rest) = scan (codes "://") (skip_s after) in
    if not (is_nil http) then u else if not (is_nil sep) then u else rest

unfoldable pub skip_www : Bytes → Bytes
skip_www u = let (www, rest) = scan (codes "www.") u in if not (is_nil www) then u else rest

-- The test before `url.substr(i, len - i)`: true clears the url.
unfoldable pub is_script : Bytes → Bool
is_script u =
    let (left, at) = scan (codes "javascript") u in
    is_nil u || is_nil left && length u == 10 || starts b':' at

-- The last loop, from the second byte on: whether the url is kept.
unfoldable pub keeps : Bool → Bytes → Bool
keeps pre [] = pre
keeps pre (c ∷ cs) =
    let rest = keeps (if c == b'.' then true else pre) cs in
    if c == b'<' || c == b'>' || c == b'#' || c == b'/' && not pre then false else rest

unfoldable pub check_url : Bytes → Bytes
check_url [] = []
check_url (c ∷ cs) =
    if c == b'/' || c == b'#' || c == b'<' || c == b'>' || c == b'.'
    then []
    else if keeps false cs
    then c ∷ cs
    else []

-- What is done with the effective part of the url.
unfoldable pub clean : Bytes → Bytes
clean middle = let u = skip_www (skip_scheme middle) in check_url (if is_script u then [] else u)

-- The effective part, `url.substr(i, len - i)`.
unfoldable pub effective : Bytes → Option Bytes
effective s =
    let (i, rest) = skip_blanks 0 s in Option.map reverse (cut_tail (i == 0) (reverse rest))

-- `none` is the read out of bounds of the tail loop.
unfoldable pub format_url : Bytes → Option Bytes
format_url url =
    if is_nil url || ltb url_size (length url)
    then some []
    else Option.map clean (effective (map to_lower url))

-- `for (; i < url.size() && url[i] != '/'; ++i)`: the text up to `i`, and from `i` on.
unfoldable pub split_slash : Bytes → Bytes × Bytes
split_slash [] = ([], [])
split_slash (c ∷ cs) =
    let (host, path) = split_slash cs in if c == b'/' then ([], c ∷ cs) else (c ∷ host, path)

abbrev pub host_and_path : Bytes → Bytes × Bytes
host_and_path url =
    let (host, path) = split_slash url in
    if is_nil url then ([], codes "/") else (host, if is_nil path then codes "/" else path)

-- `host_url` and `page_path`.
unfoldable pub parse_url : Bytes → Option (Bytes × Bytes)
parse_url url = Option.map host_and_path (format_url url)
