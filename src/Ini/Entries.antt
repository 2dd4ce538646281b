-- ===== src/Ini/Entries.antt =====
-- What a well-formed file of attributes says.
use amigao.Base.{
  ℕ, Bool, true, false, not, List, [], ◌∷◌, ◌++◌, some, ◌≡◌, refl, ap, ◌∙◌, arith, ◌==◌,
  if◌then◌else◌, Bool-cases, Option-cases, inl, inr, All, Bytes, text_eq,
}
use amigao.Ini.Defs.{
  passed, in_attr, in_value, parse_line, insert_line, insert, parse_lines, split_lines, context,
  is_comment, init_from_file, lookup,
}
use amigao.Url.{is_nil, is_blank}

abbrev pub Passes : (ℕ → Bool) → ℕ → Type 0
Passes p c = p c ≡ true

-- The text is empty or starts with a byte that stops the loop.
abbrev pub Stops : (ℕ → Bool) → Bytes → Type 0
Stops p [] = Unit {0}
Stops p (c ∷ cs) = p c ≡ false

passed-append :
    (p : ℕ → Bool) (a b : Bytes) → All (Passes p) a → Stops p b → passed p (a ++ b) ≡ (a, b)
unfolding passed
passed-append p [] [] h k = refl
passed-append p [] (c ∷ cs) h k = rw k
passed-append p (c ∷ cs) b h k = rw (h.0, passed) (rw (passed-append p cs b h.1 k))

-- An attribute with its value: both have bytes, and neither has blanks, a line break or, in the
-- attribute, an equals sign; the attribute does not start like a comment.
pub record IsEntry (e : Bytes × Bytes) : Type 0 where
  pub attr : All (Passes in_attr) e.0
  pub some_attr : is_comment e.0 ≡ false
  pub value : All (Passes in_value) e.1
  pub some_value : is_nil e.1 ≡ false

attr-not-blank : (c : ℕ) → in_attr c ≡ true → is_blank c ≡ false
attr-not-blank c h = ground arith

Stops-attr : (a r : Bytes) → All (Passes in_attr) a → is_comment a ≡ false → Stops is_blank (a ++ r)
Stops-attr [] r h k = cc
Stops-attr (c ∷ cs) r h k = attr-not-blank c h.0

Stops-value : (a r : Bytes) → All (Passes in_value) a → is_nil a ≡ false → Stops is_blank (a ++ r)
Stops-value [] r h k = cc
Stops-value (c ∷ cs) r h k = let first = h.0 in ground arith

Stops-gap : (b r : Bytes) → All (Passes is_blank) b → Stops in_attr (b ++ b'=' ∷ r)
Stops-gap [] r h = refl
Stops-gap (c ∷ cs) r h = let first = h.0 in ground arith

gap-before-sign : (b : Bytes) → All (Passes is_blank) b → All (Passes (λ c. not (c == b'='))) b
gap-before-sign [] h = tt
gap-before-sign (c ∷ cs) h = (let first = h.0 in ground arith, gap-before-sign cs h.1)

is_nil-append : (a r : Bytes) → is_nil r ≡ false → is_nil (a ++ r) ≡ false
is_nil-append [] r h = h
is_nil-append (c ∷ cs) r h = refl

is_nil-some : (a r : Bytes) → is_nil a ≡ false → is_nil (a ++ r) ≡ false
is_nil-some [] r h = cc
is_nil-some (c ∷ cs) r h = refl

is_nil-attr : (a r : Bytes) → is_comment a ≡ false → is_nil (a ++ r) ≡ false
is_nil-attr [] r h = cc
is_nil-attr (c ∷ cs) r h = refl

-- A line with an attribute, an equals sign and a value, and with any blanks in front of each, is read
-- as that attribute with that value, whatever follows behind a blank.
pub parse_line-entry :
    (b0 b1 b2 tail : Bytes) (e : Bytes × Bytes)
    → All (Passes is_blank) b0
    → All (Passes is_blank) b1
    → All (Passes is_blank) b2
    → Stops in_value tail
    → IsEntry e
    → parse_line (b0 ++ (e.0 ++ (b1 ++ b'=' ∷ (b2 ++ (e.1 ++ tail))))) ≡ some e
unfolding parse_line
parse_line-entry b0 b1 b2 tail e h0 h1 h2 stop v =
    let from_value = e.1 ++ tail in
    let after = b1 ++ b'=' ∷ (b2 ++ from_value) in
    let blanks =
      passed-append is_blank b0 (e.0 ++ after) h0 (Stops-attr e.0 after v.attr v.some_attr) in
    let attr = passed-append in_attr e.0 after v.attr (Stops-gap b1 (b2 ++ from_value) h1) in
    rw blanks (
      rw attr (
        rw
          (passed-append (λ c. not (c == b'=')) b1 (b'=' ∷ (b2 ++ from_value))
            (gap-before-sign b1 h1) refl)
          (rw (is_nil-attr e.0 after v.some_attr) (
            rw (is_nil-append b1 (b'=' ∷ (b2 ++ from_value)) refl) (
              rw
                (passed-append is_blank b2 from_value h2
                  (Stops-value e.1 tail v.value v.some_value))
                (rw (is_nil-some e.1 tail v.some_value) (
                  rw (passed-append in_value e.1 tail v.value stop)
                    (rw blanks (rw attr refl)))))))))

-- A line of a file: it holds no line break.
abbrev pub IsLine : Bytes → Type 0
IsLine = All (λ c. (c == b'\n') ≡ false)

-- The lines that are neither empty nor comments.
abbrev pub kept_lines : List Bytes → List Bytes
kept_lines [] = []
kept_lines (l ∷ ls) = if is_comment l then kept_lines ls else l ∷ kept_lines ls

split_lines-line :
    (l rest : Bytes) → IsLine l → split_lines (l ++ b'\n' ∷ rest) ≡ l ∷ split_lines rest
unfolding split_lines
split_lines-line [] rest h = refl
split_lines-line (c ∷ cs) rest h = rw (h.0, split_lines) (rw (split_lines-line cs rest h.1))

split_lines-context : (ls : List Bytes) → All IsLine ls → split_lines (context ls) ≡ kept_lines ls
unfolding context split_lines
split_lines-context [] h = refl
split_lines-context (l ∷ ls) h = elim (Bool-cases (is_comment l)) [
  | inl drop ↦ rw (drop, context) (split_lines-context ls h.1)
  | inr keep ↦
      rw (keep, context)
        (split_lines-line l (context ls) h.0 ∙ ap (◌∷◌ l) (split_lines-context ls h.1))
]

-- Joining the lines of a file to one text and cutting it up again gives the lines that are neither
-- empty nor comments, in their order: these are what the parser reads.
pub init_from_file-lines :
    (ls : List Bytes) (result : List (Bytes × Bytes))
    → All IsLine ls
    → init_from_file ls result ≡ parse_lines (kept_lines ls) result
unfolding init_from_file
init_from_file-lines ls result h = rw (split_lines-context ls h)

lookup-insert :
    (k v : Bytes) (e : Bytes × Bytes) (rs : List (Bytes × Bytes))
    → lookup k rs ≡ some v
    → lookup k (insert e rs) ≡ some v
unfolding lookup insert
lookup-insert k v e [] h = cc
lookup-insert k v e (r ∷ rs) h = elim (Bool-cases (text_eq e.0 r.0)) [
  | inl same ↦ rw (same, insert) h
  | inr other ↦
      rw (other, insert)
        (elim (Bool-cases (text_eq k r.0)) [
          | inl hit ↦ rw (hit, lookup) (rw (hit, lookup) at h)
          | inr miss ↦ rw (miss, lookup) (lookup-insert k v e rs (rw (miss, lookup) at h))
        ])
]

-- A value that an attribute has stays, whatever lines are read afterwards: the first one counts.
lookup-parse_lines :
    (k v : Bytes) (ls : List Bytes) (result : List (Bytes × Bytes))
    → lookup k result ≡ some v
    → lookup k (parse_lines ls result) ≡ some v
unfolding parse_lines insert_line
lookup-parse_lines k v [] result h = h
lookup-parse_lines k v (l ∷ ls) result h = elim (Option-cases (parse_line l)) [
  | inl passed_over ↦ rw (passed_over, parse_lines) (lookup-parse_lines k v ls result h)
  | inr (e, read) ↦
      rw (read, parse_lines)
        (lookup-parse_lines k v ls (insert e result) (lookup-insert k v e result h))
]
