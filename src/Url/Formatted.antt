-- ===== src/Url/Formatted.antt =====
-- What `format_url` returns: the empty string, or a url in the program's normal spelling.
use mathlib.Core.List.{map, reverse, reverse-cons}
use amigao.Base.{
  ℕ, ◌+◌, ◌≤◌, Bool, true, false, ◌&&◌, ◌||◌, [], ◌∷◌, some, ◌≡◌, ◌≢◌, refl, sym, ap, ◌∙◌, ◌⊎◌, inl,
  inr, arith, leb, ltb, ◌==◌, Bool-cases, Option-cases, length, length-map, length-reverse, All,
  All-reverse, Bytes,
}
use amigao.Url.Defs.{
  is_nil, is_blank, is_tail, to_lower, skip_blanks, cut_tail, skip_scheme, skip_www, is_script,
  keeps, check_url, clean, effective, format_url,
}
use amigao.Url.Scan.{
  IsSuffix, IsSuffix-refl, IsSuffix-trans, skip_scheme-IsSuffix, skip_www-IsSuffix, length-IsSuffix,
  All-IsSuffix, EndsClean, EndsClean-concat, EndsClean-IsSuffix,
}
use amigao.Values.{url_size}

-- Not an upper case letter.
abbrev pub IsLower : ℕ → Type 0
IsLower c = (leb b'A' c && leb c b'Z') ≡ false

-- None of the bytes that clear a url wherever they stand.
abbrev pub IsPlain : ℕ → Type 0
IsPlain c = (c ≢ b'<') × (c ≢ b'>') × (c ≢ b'#')

-- A dot stands in the text, before any slash.
abbrev pub DotBeforeSlash : Bytes → Type 0
DotBeforeSlash [] = ⊥
DotBeforeSlash (c ∷ cs) = (c ≡ b'.') ⊎ ((c ≢ b'/') × DotBeforeSlash cs)

-- The text starts with a byte that is no dot and no slash, and has a dot before any slash.
abbrev pub HasHost : Bytes → Type 0
HasHost [] = ⊥
HasHost (c ∷ cs) = (c ≢ b'.') × (c ≢ b'/') × DotBeforeSlash cs

pub record IsFormatted (u : Bytes) : Type 0 where
  pub fits : length u ≤ url_size
  pub lower : All IsLower u
  pub plain : All IsPlain u
  pub ends : EndsClean u
  pub host : HasHost u

keeps_lem :
    (pre : Bool) (cs : Bytes)
    → keeps pre cs ≡ true
    → All IsPlain cs × ((pre ≡ true) ⊎ DotBeforeSlash cs)
unfolding keeps
keeps_lem pre [] h = (tt, inl h)
keeps_lem true (c ∷ cs) h = ground (arith, keeps_lem true cs)
keeps_lem false (c ∷ cs) h = elim (Bool-cases (c == b'.')) [
  | inl dot ↦ ground (arith, keeps_lem true cs)
  | inr other ↦ ground (arith, keeps_lem false cs)
]

-- The last checks keep a text whole or clear it.
check_url_cases : (u : Bytes) → (check_url u ≡ []) ⊎ ((check_url u ≡ u) × All IsPlain u × HasHost u)
unfolding check_url
check_url_cases [] = inl refl
check_url_cases (c ∷ cs) = elim (Bool-cases (keeps false cs)) [
  | inl kept ↦ let rest = keeps_lem false cs kept in ground arith
  | inr cleared ↦ ground arith
]

clean_cases :
    (m : Bytes)
    → (clean m ≡ []) ⊎ (IsSuffix (clean m) m × All IsPlain (clean m) × HasHost (clean m))
unfolding clean
clean_cases m =
    let u = skip_www (skip_scheme m) in
    let suffix : IsSuffix u m =
      IsSuffix-trans u (skip_scheme m) m (skip_www-IsSuffix (skip_scheme m))
        (skip_scheme-IsSuffix m) in
    elim (Bool-cases (is_script u)) [
      | inl script ↦ rw script (unfold check_url in inl refl)
      | inr other ↦ rw other (elim (check_url_cases u) [
        | inl cleared ↦ inl cleared
        | inr (kept, plain, host) ↦ rw kept (inr (suffix, plain, host))
      ])
    ]

skip_blanks-IsSuffix : (i : ℕ) (s : Bytes) → IsSuffix (skip_blanks i s).1 s
unfolding skip_blanks
skip_blanks-IsSuffix i [] = IsSuffix-refl []
skip_blanks-IsSuffix i (c ∷ cs) = elim (Bool-cases (is_blank c)) [
  | inl blank ↦ let (w, e) = skip_blanks-IsSuffix (i + 1) cs in rw blank (c ∷ w, ap (◌∷◌ c) e)
  | inr other ↦ rw other (IsSuffix-refl (c ∷ cs))
]

-- The tail loop stops at a byte that it does not cut, or at the end.
cut_tail_lem :
    (at_start : Bool) (s : Bytes) {t : Bytes}
    → cut_tail at_start s ≡ some t
    → IsSuffix t s × EndsClean (reverse t)
unfolding cut_tail
cut_tail_lem true [] e = cc
cut_tail_lem false [] {t} e = let nil : t ≡ [] = ground arith in rw nil (IsSuffix-refl [], tt)
cut_tail_lem at_start (c ∷ cs) {t} e = elim (Bool-cases (is_tail c)) [
  | inl cut ↦
      let ((w, f), clean_end) = cut_tail_lem at_start cs (rw cut at e) in
      ((c ∷ w, ap (◌∷◌ c) f), clean_end)
  | inr stop ↦
      let whole : t ≡ c ∷ cs = ground arith in
      rw (whole, reverse-cons) (IsSuffix-refl (c ∷ cs), EndsClean-concat (reverse cs) c stop)
]

-- What the effective part inherits from the text.
record IsPart (m s : Bytes) : Type 1 where
  shorter : length m ≤ length s
  ends : EndsClean m
  inherits : (P : ℕ → Type 0) → All P s → All P m

effective_lem : (s : Bytes) {m : Bytes} → effective s ≡ some m → IsPart m s
unfolding effective
effective_lem s {m} e = elim (Option-cases (cut_tail (i == 0) (reverse rest))) [
  | inl fault ↦ cc (rw fault at e)
  | inr (t, got) ↦
      let whole : reverse t ≡ m = ground arith in
      let (cut, clean_end) = cut_tail_lem (i == 0) (reverse rest) got in
      rw (← whole) (record {
        shorter = omega (
          arith,
          length-reverse t,
          length-reverse rest,
          length-IsSuffix t (reverse rest) cut,
          length-IsSuffix rest s from_start,
        );
        ends = clean_end;
        inherits = λ P h. All-reverse P t (
            All-IsSuffix P t (reverse rest) cut
              (All-reverse P rest (All-IsSuffix P rest s from_start h)));
      })
]
  where
    i : ℕ
    i = (skip_blanks 0 s).0

    rest : Bytes
    rest = (skip_blanks 0 s).1

    from_start : IsSuffix rest s
    from_start = skip_blanks-IsSuffix 0 s

to_lower-IsLower : (s : Bytes) → All IsLower (map to_lower s)
unfolding to_lower
to_lower-IsLower [] = tt
to_lower-IsLower (c ∷ cs) = (ground arith, to_lower-IsLower cs)

pub format_url-IsFormatted :
    (s : Bytes) {u : Bytes} → format_url s ≡ some u → (u ≡ []) ⊎ IsFormatted u
unfolding format_url
format_url-IsFormatted s {u} e = elim (Bool-cases (is_nil s || ltb url_size (length s))) [
  | inl refused ↦ inl (ground arith)
  | inr taken ↦ elim (Option-cases (effective (map to_lower s))) [
    | inl fault ↦ cc (rw (taken, fault) at e)
    | inr (m, got) ↦
        let whole : clean m ≡ u = ground arith in
        let part = effective_lem (map to_lower s) got in
        elim (clean_cases m) [
          | inl cleared ↦ inl (sym whole ∙ cleared)
          | inr (suffix, plain, host) ↦
              let short : length s ≤ url_size = ground arith in
              rw (← whole) (
                inr (record {
                  fits = omega (
                    arith,
                    part.shorter,
                    length-map to_lower s,
                    length-IsSuffix (clean m) m suffix,
                  );
                  lower =
                      All-IsSuffix IsLower (clean m) m suffix
                        (part.inherits IsLower (to_lower-IsLower s));
                  plain = plain;
                  ends = EndsClean-IsSuffix (clean m) m suffix part.ends;
                  host = host;
                }))
        ]
  ]
]

-- Whatever holds of each byte of the text in lower case holds of each byte of the formatted url.
pub format_url-All :
    (P : ℕ → Type 0) (s : Bytes) {u : Bytes}
    → All P (map to_lower s)
    → format_url s ≡ some u
    → All P u
unfolding format_url
format_url-All P s {u} h e = elim (Bool-cases (is_nil s || ltb url_size (length s))) [
  | inl refused ↦ let nil : u ≡ [] = ground arith in rw nil tt
  | inr taken ↦ elim (Option-cases (effective (map to_lower s))) [
    | inl fault ↦ cc (rw (taken, fault) at e)
    | inr (m, got) ↦
        let whole : clean m ≡ u = ground arith in
        let part = effective_lem (map to_lower s) got in
        elim (clean_cases m) [
          | inl cleared ↦ rw (← whole) (rw cleared tt)
          | inr (suffix, _, _) ↦
              rw (← whole) (All-IsSuffix P (clean m) m suffix (part.inherits P h))
        ]
  ]
]
