-- ===== src/Tests/Info.antt =====
-- Settings as a file may give them.
use amigao.Base.{List, [], ◌∷◌, ◌≡◌, refl, none, Bytes, codes, ◌==◌, if◌then◌else◌}
use amigao.Info.{ℤ, defaults, corrected, plus_one, read_settings, set_db_conf_path}
use amigao.Info.Limited.{Corrects, set_db_conf_path-IsLimited}
use amigao.Ini.{init_from_file}

-- A reader that reads the largest `int` out of a text that starts with a 2, and 7 out of any other.
abbrev read_some : Bytes → ℤ → Bytes × ℤ
read_some [] old = ([], old)
read_some (c ∷ cs) old = if c == b'2' then ([], ℤ.pos 2147483647) else ([], ℤ.pos 7)

abbrev two_lines : List Bytes
two_lines = codes "MIN_IDLE=2147483647" ∷ codes "MAX_IDLE=7" ∷ []

set_db_conf_path-IsLimited_example :
    Corrects
      (read_settings read_some read_some (init_from_file two_lines []) defaults)
      (set_db_conf_path read_some read_some two_lines)
set_db_conf_path-IsLimited_example = set_db_conf_path-IsLimited read_some read_some two_lines

overflowing : corrected (record defaults { min_idle = ℤ.pos 2147483647 }) ≡ none
unfolding corrected plus_one
overflowing = refl
