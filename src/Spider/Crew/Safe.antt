-- ===== src/Spider/Crew/Safe.antt =====
-- Urls with which no worker leaves its arrays.
use amigao.Base.{
  ◌<◌, false, not, [], ◌∷◌, some, ◌≡◌, refl, inl, inr, arith, ltb, ◌==◌, Option-cases, length, All,
  Bytes,
}
use amigao.Spider.Copies.{IsChar}
use amigao.Spider.Response.{span}
use amigao.Spider.Ring.{IsUrl}
use amigao.Spider.Worker.{c_string}
use amigao.Url.{format_url, host_and_path, parse_url}
use amigao.Url.Faults.{IsTail, IsFault, format_url-none_iff}
use amigao.Url.Formatted.{DotBeforeSlash, HasHost, IsFormatted}
use amigao.Values.{url_size}

-- A url in the normal spelling, without a null byte, that leaves room for one.
pub record IsSafe (u : Bytes) : Type 0 where
  pub formatted : IsFormatted u
  pub chars : All IsChar u
  pub short : length u < url_size

pub IsSafe-IsUrl : (u : Bytes) → IsSafe u → IsUrl u
IsSafe-IsUrl u h = (h.chars, omega (arith, h.short))

span-all : (u : Bytes) → All IsChar u → span (λ c. not (c == 0)) u ≡ (u, [])
unfolding span
span-all [] h = refl
span-all (c ∷ cs) h =
    let other : (c == 0) ≡ false = let k = h.0 in ground arith in rw other (rw (span-all cs h.1))

-- It is a C string in `work_url`, and `parse_url` reads it within its bounds.
pub c_string-some : (u : Bytes) → IsSafe u → c_string u ≡ some u
unfolding c_string
c_string-some u h =
    let fits = h.short in
    let not_long : ltb url_size (length u) ≡ false = ground arith in
    let not_full : (length u == url_size) ≡ false = ground arith in
    rw (span-all u h.chars) (rw (not_long, not_full))

DotBeforeSlash-not-IsTail : (cs : Bytes) → DotBeforeSlash cs → ¬ All IsTail cs
DotBeforeSlash-not-IsTail [] h k = h
DotBeforeSlash-not-IsTail (c ∷ cs) (inl dot) k = let tail = k.0 in ground arith
DotBeforeSlash-not-IsTail (c ∷ cs) (inr (other, h)) k = DotBeforeSlash-not-IsTail cs h k.1

formatted_no-IsFault : (u : Bytes) → HasHost u → ¬ IsFault u
formatted_no-IsFault [] h k = k
formatted_no-IsFault (c ∷ cs) h k = DotBeforeSlash-not-IsTail cs h.2 k.2.1

pub parse_url-some :
    (u : Bytes) → IsSafe u → (host : Bytes) × (path : Bytes) × (parse_url u ≡ some (host, path))
unfolding parse_url
parse_url-some u h = elim (Option-cases (format_url u)) [
  | inl faults ↦ absurd (formatted_no-IsFault u h.formatted.host ((format_url-none_iff u).0 faults))
  | inr (v, got) ↦ ((host_and_path v).0, (host_and_path v).1, rw got)
]
