-- ===== src/Ini/Defs.antt =====
-- The lines of an ini file, one by one, and the attributes that they set.
use amigao.Base.{
  ℕ, Bool, true, ◌||◌, not, List, [], ◌∷◌, ◌++◌, Option, none, some, ◌==◌, if◌then◌else◌, Bytes,
  text_eq,
}
use amigao.Url.{is_nil, is_blank}

-- `while (j < size && p(tmp_str[j])) ++j`: what is passed, and what is left.
unfoldable pub passed : (ℕ → Bool) → Bytes → Bytes × Bytes
passed p [] = ([], [])
passed p (c ∷ cs) = let (a, b) = passed p cs in if p c then (c ∷ a, b) else ([], c ∷ cs)

abbrev pub in_attr : ℕ → Bool
in_attr c = not (is_blank c || c == b'=')

abbrev pub in_value : ℕ → Bool
in_value c = not (is_blank c)

-- The attribute and the value of a line, or `none` where the line is passed over.
unfoldable pub parse_line : Bytes → Option (Bytes × Bytes)
parse_line line =
    let (_, text) = passed is_blank line in
    let (attr, after) = passed in_attr text in
    let (_, sign) = passed (λ c. not (c == b'=')) after in
    if is_nil text || is_nil after then none else elim sign [
      | [] ↦ none
      | _ ∷ rest ↦
          let (_, from_value) = passed is_blank rest in
          if is_nil from_value then none else some (attr, (passed in_value from_value).0)
    ]

-- `result.insert`, which keeps a value that is there.
unfoldable pub insert : Bytes × Bytes → List (Bytes × Bytes) → List (Bytes × Bytes)
insert e [] = e ∷ []
insert e (r ∷ rs) = let rest = insert e rs in if text_eq e.0 r.0 then r ∷ rs else r ∷ rest

-- The value of a key, as `find` has it.
unfoldable pub lookup : Bytes → List (Bytes × Bytes) → Option Bytes
lookup k [] = none
lookup k (r ∷ rs) = let rest = lookup k rs in if text_eq k r.0 then some r.1 else rest

unfoldable pub insert_line : Option (Bytes × Bytes) → List (Bytes × Bytes) → List (Bytes × Bytes)
insert_line none result = result
insert_line (some e) result = insert e result

-- The queue of lines, in its order.
unfoldable pub parse_lines : List Bytes → List (Bytes × Bytes) → List (Bytes × Bytes)
parse_lines [] result = result
parse_lines (l ∷ ls) result = parse_lines ls (insert_line (parse_line l) result)

abbrev put_front : ℕ → List Bytes → List Bytes
put_front c [] = (c ∷ []) ∷ []
put_front c (l ∷ ls) = (c ∷ l) ∷ ls

-- The lines of a text; a line break at its end starts no line.
unfoldable pub split_lines : Bytes → List Bytes
split_lines [] = []
split_lines (c ∷ cs) =
    let rest = split_lines cs in if c == b'\n' then [] ∷ rest else put_front c rest

-- `tmp_str.empty() || tmp_str[0] == '#'`
abbrev pub is_comment : Bytes → Bool
is_comment [] = true
is_comment (c ∷ cs) = c == b'#'

-- `context`: the lines of the file that are neither empty nor comments.
unfoldable pub context : List Bytes → Bytes
context [] = []
context (l ∷ ls) = let rest = context ls in if is_comment l then rest else l ++ b'\n' ∷ rest

-- The attributes after `init_from_file` on the lines of the file.
unfoldable pub init_from_file : List Bytes → List (Bytes × Bytes) → List (Bytes × Bytes)
init_from_file lines result = parse_lines (split_lines (context lines)) result
