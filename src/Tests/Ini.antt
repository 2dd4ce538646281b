-- ===== src/Tests/Ini.antt =====
-- An ini file, and the theorems at concrete lines.
use amigao.Base.{◌≡◌, refl, some, List, [], ◌∷◌, arith, Bytes, codes}
use amigao.Ini.{
  passed, parse_line, insert, lookup, insert_line, parse_lines, split_lines, context,
  init_from_file,
}
use amigao.Ini.Entries.{IsEntry}

abbrev entry : Bytes × Bytes
entry = (codes "PORT", codes "3306")

entry-IsEntry : IsEntry entry
entry-IsEntry = record {
  attr = ground arith;
  some_attr = refl;
  value = ground arith;
  some_value = refl;
}

abbrev file : List Bytes
file = codes "# limits" ∷ [] ∷ codes "PORT = 3306" ∷ codes "PORT=1" ∷ codes "HOST" ∷ []

reads : init_from_file file [] ≡ entry ∷ []
unfolding init_from_file parse_lines insert_line insert parse_line passed split_lines context
reads = refl

found : lookup (codes "PORT") (entry ∷ []) ≡ some (codes "3306")
unfolding lookup
found = refl
