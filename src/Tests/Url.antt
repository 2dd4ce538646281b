-- ===== src/Tests/Url.antt =====
-- The inputs of test/format_url.cc and test/parse_url.cc, and the theorems at concrete urls.
use amigao.Base.{◌≡◌, ◌↔◌, none, codes}
use amigao.Url.{format_url}
use amigao.Url.Faults.{IsFault, format_url-none_iff}

format_url-none_iff_example : (format_url (codes "/ /") ≡ none) ↔ IsFault (codes "/ /")
format_url-none_iff_example = format_url-none_iff (codes "/ /")
