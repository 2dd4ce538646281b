-- ===== src/Url/Parse.antt =====
-- What `parse_url` makes of a formatted url.
use amigao.Base.{[], ◌∷◌, ◌++◌, ◌≡◌, ◌≢◌, ◌⊎◌, if◌then◌else◌, All, Bytes, codes}
use amigao.Url.Defs.{is_nil}

-- The path is empty or starts with a slash.
abbrev pub IsPath : Bytes → Type 0
IsPath [] = Unit {0}
IsPath (c ∷ cs) = c ≡ b'/'

-- The host of a formatted url still has its dot.
abbrev HasDot : Bytes → Type 0
HasDot [] = ⊥
HasDot (c ∷ cs) = (c ≡ b'.') ⊎ HasDot cs

-- What `parse_url` answers for the formatted url `u`.
pub record IsSplit (u host path : Bytes) : Type 0 where
  pub rest : Bytes
  pub joined : host ++ rest ≡ u
  pub path_is : path ≡ (if is_nil rest then codes "/" else rest)
  pub starts : IsPath rest
  pub no_slash : All (λ c. c ≢ b'/') host
  pub dot : HasDot host
