-- ===== src/Spider/Response.antt =====
-- How a worker reads what a web server answered.
pub mod Accepted
use mathlib.Core.List.{map}
use mathlib.Core.Option
use amigao.Base.{
  ℕ, Bool, true, false, ◌||◌, List, [], ◌∷◌, Option, none, some, ◌==◌, if◌then◌else◌, Bytes, codes,
}
use amigao.Url.{is_nil, to_lower, scan}

-- `find`: what stands in front of the first occurrence of a word that is not empty, and behind it.
unfoldable pub split_on : Bytes → Bytes → Option (Bytes × Bytes)
split_on word [] = none
split_on word (c ∷ cs) =
    let (left, behind) = scan word (c ∷ cs) in
    let later = split_on word cs in
    if is_nil left then some ([], behind) else Option.map (λ p. (c ∷ p.0, p.1)) later

abbrev pub is_gap : ℕ → Bool
is_gap c = c == b' ' || c == b'\t'

abbrev pub is_stop : ℕ → Bool
is_stop c = c == b' ' || c == b'\t' || c == b'\r'

-- `while (j < size && p(resp_header[j])) ++j`: what is passed, and what is left.
unfoldable pub span : (ℕ → Bool) → Bytes → Bytes × Bytes
span p [] = ([], [])
span p (c ∷ cs) = let (a, b) = span p cs in if p c then (c ∷ a, b) else ([], c ∷ cs)

-- The word behind `http/` and its version, in the header from `http/` on.
unfoldable pub status_code : Bytes → Bytes
status_code header =
    let (version, rest) = span (λ c. if is_stop c then false else true) header in
    let (gap, code) = span is_gap rest in (span (λ c. if is_stop c then false else true) code).0

-- `!status_code.empty() && status_code[0] == '2'`
abbrev pub is_success : Bytes → Bool
is_success [] = false
is_success (c ∷ cs) = c == b'2'

-- The html of an answer; where it is `none` the worker gives the website the nice value 0.
unfoldable pub formated_html : Bytes → Option Bytes
formated_html raw_html = elim (split_on (codes "\r\n\r\n") raw_html) [
  | none ↦ none
  | some (header, html) ↦
      if is_nil header then none else elim (split_on (codes "http/") (map to_lower header)) [
        | none ↦ none
        | some (before, behind) ↦
            if is_nil html
            then none
            else if is_success (status_code behind)
            then some html
            else none
      ]
]
