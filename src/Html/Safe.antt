-- ===== src/Html/Safe.antt =====
-- What the output of `str2html` holds.
use mathlib.Core.List.{append_assoc, append-nil}
use amigao.Base.{ℕ, false, ◌||◌, [], ◌∷◌, ◌++◌, ◌≡◌, sym, ◌∙◌, arith, ◌==◌, All, All-append, Bytes}
use amigao.Html.{entity, convert_from, str2html}

-- A byte that neither opens nor closes a tag or an attribute.
abbrev pub IsTextByte : ℕ → Type 0
IsTextByte c = (c == b'<' || c == b'>' || c == b'"' || c == b'\'' || c == b'`' || c == b'/') ≡ false

abbrev converted : Bytes → Bytes
converted [] = []
converted (c ∷ cs) = entity c ++ converted cs

convert_from-converted : (res s : Bytes) → convert_from res s ≡ res ++ converted s
unfolding convert_from
convert_from-converted res [] = sym (append-nil res)
convert_from-converted res (c ∷ cs) =
    convert_from-converted (res ++ entity c) cs ∙ append_assoc res (entity c) (converted cs)

entity-IsTextByte : (c : ℕ) → All IsTextByte (entity c)
unfolding entity
entity-IsTextByte c = ground arith

converted-IsTextByte : (s : Bytes) → All IsTextByte (converted s)
converted-IsTextByte [] = tt
converted-IsTextByte (c ∷ cs) =
    All-append IsTextByte (entity c) (converted cs) (entity-IsTextByte c) (converted-IsTextByte cs)

-- Whatever text is converted, the result holds none of `<`, `>`, `"`, `'`, the backquote and `/`: it
-- can neither open nor close a tag or an attribute of a page.
pub str2html-IsTextByte : (s : Bytes) → All IsTextByte (str2html s)
unfolding str2html
str2html-IsTextByte s = rw convert_from-converted (converted-IsTextByte s)
