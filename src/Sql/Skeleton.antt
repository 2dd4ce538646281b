-- ===== src/Sql/Skeleton.antt =====
-- What a server sees of a statement outside of its strings.
use amigao.Base.{
  ℕ, Bool, true, false, ◌||◌, [], ◌∷◌, ◌++◌, ◌≡◌, ◌⊎◌, refl, arith, inl, inr, ◌==◌, if◌then◌else◌,
  Bytes, All,
}
use amigao.Codec.{is_alnum}
use amigao.Codec.Escaped.{IsSafe}

-- Where the server stands in a statement: outside of strings, in one that a quote has opened, or there
-- behind a backslash.
pub data Place : Type 0 where
  outside : Place
  inside escaped : ℕ → Place

-- The place behind the next byte.
abbrev pub advance : Place → ℕ → Place
advance outside c = if c == b'\'' || c == b'"' then inside c else outside
advance (inside quote) c =
    if c == b'\\' then escaped quote else if c == quote then outside else inside quote
advance (escaped quote) c = inside quote

abbrev pub is_shown : Place → ℕ → Bool
is_shown outside c = true
is_shown (inside quote) c = c == quote
is_shown (escaped quote) c = false

-- The statement without what its strings hold.
abbrev pub skeleton : Place → Bytes → Bytes
skeleton place [] = []
skeleton place (c ∷ cs) =
    let rest = skeleton (advance place c) cs in if is_shown place c then c ∷ rest else rest

IsSafe-plain :
    (c : ℕ)
    → IsSafe b'#' c
    → ((c == b'\\') ≡ false) × ((c == b'\'') ≡ false) × ((c == b'"') ≡ false)
unfolding is_alnum
IsSafe-plain c h = (ground arith, ground arith, ground arith)

pub skeleton-safe :
    (quote : ℕ) (text rest : Bytes)
    → (quote ≡ b'\'') ⊎ (quote ≡ b'"')
    → All (IsSafe b'#') text
    → skeleton (inside quote) (text ++ rest) ≡ skeleton (inside quote) rest
skeleton-safe quote [] rest h safe = refl
skeleton-safe quote (c ∷ cs) rest (inl e) safe =
    let plain = IsSafe-plain c safe.0 in
    let other : (c == quote) ≡ false = rw e plain.1 in
    rw (plain.0, other) (skeleton-safe quote cs rest (inl e) safe.1)
skeleton-safe quote (c ∷ cs) rest (inr e) safe =
    let plain = IsSafe-plain c safe.0 in
    let other : (c == quote) ≡ false = rw e plain.2 in
    rw (plain.0, other) (skeleton-safe quote cs rest (inr e) safe.1)
