-- ===== src/Spider/Response/Accepted.antt =====
-- The answers that a worker accepts.
use mathlib.Core.List.{map}
use amigao.Base.{ℕ, true, false, [], ◌∷◌, ◌++◌, ◌≡◌, ◌≢◌, All, Bytes, codes}
use amigao.Spider.Response.{is_gap, is_stop}
use amigao.Url.{to_lower}

-- A byte of a word.
abbrev pub IsWordByte : ℕ → Type 0
IsWordByte c = is_stop c ≡ false

abbrev pub IsGap : ℕ → Type 0
IsGap c = is_gap c ≡ true

-- A text behind `http/` that holds a version, at least one blank, and behind the blanks a word that starts
-- with the digit 2. No byte of a version is a blank, so the blanks are the first ones.
pub record IsSuccess (behind : Bytes) : Type 0 where
  pub version : Bytes
  pub gap : Bytes
  pub rest : Bytes
  pub joined : behind ≡ version ++ (gap ++ b'2' ∷ rest)
  pub in_version : All IsWordByte version
  pub in_gap : All IsGap gap
  pub some_gap : gap ≢ []

-- An answer with a header, an empty line and some html, whose header holds, in any case of letters,
-- `http/` with a version and a status code that starts with 2.
pub record IsAnswer (raw html : Bytes) : Type 0 where
  pub header : Bytes
  pub before : Bytes
  pub behind : Bytes
  pub split : raw ≡ header ++ (codes "\r\n\r\n" ++ html)
  pub some_html : html ≢ []
  pub named : map to_lower header ≡ before ++ (codes "http/" ++ behind)
  pub success : IsSuccess behind
