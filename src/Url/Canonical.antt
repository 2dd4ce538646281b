-- ===== src/Url/Canonical.antt =====
-- The spellings of one page that `format_url` brings together.
use mathlib.Core.List.{append_assoc, map, reverse, reverse-append, reverse-reverse}
use amigao.Base.{
  ℕ, ◌≤◌, Bool, true, false, [], ◌∷◌, ◌++◌, some, ◌≡◌, refl, ap, ◌∙◌, arith, ltb, length, All,
  All-append, Bytes, codes,
}
use amigao.Url.Defs.{
  is_nil, is_blank, is_tail, to_lower, skip_blanks, cut_tail, scan, skip_scheme, skip_www,
  is_script, check_url, clean, effective, format_url,
}
use amigao.Url.Formatted.{IsLower}
use amigao.Url.Scan.{EndsClean, EndsClean-prepend}
use amigao.Values.{url_size}

pub data Scheme : Type 0 where
  bare http https : Scheme

abbrev pub scheme_text : Scheme → Bytes
scheme_text bare = []
scheme_text http = codes "http://"
scheme_text https = codes "https://"

abbrev pub www_text : Bool → Bytes
www_text true = codes "www."
www_text false = []

-- A spelling of the page `u`.
abbrev pub spelled : Scheme → Bool → Bytes → Bytes
spelled scheme www u = scheme_text scheme ++ (www_text www ++ u)

abbrev pub StartsClean : Bytes → Type 0
StartsClean [] = ⊥
StartsClean (c ∷ cs) = is_blank c ≡ false

-- A page's name: lower case, with no blank in front and no blank, newline or slash behind, with no
-- scheme or `www.` left to skip, and kept by the checks.
pub record IsCanonical (u : Bytes) : Type 0 where
  pub starts : StartsClean u
  pub ends : EndsClean u
  pub lower : All IsLower u
  pub scheme : skip_scheme u ≡ u
  pub www : skip_www u ≡ u
  pub script : is_script u ≡ false
  pub kept : check_url u ≡ u

map-to_lower : (s : Bytes) → All IsLower s → map to_lower s ≡ s
unfolding to_lower
map-to_lower [] h = refl
map-to_lower (c ∷ cs) h = rw (h.0, map-to_lower cs h.1)

EndsClean-last :
    (c : ℕ) (cs : Bytes)
    → EndsClean (c ∷ cs)
    → (t : Bytes) × (x : ℕ) × (c ∷ cs ≡ t ++ x ∷ []) × (is_tail x ≡ false)
EndsClean-last c [] h = ([], c, refl, h)
EndsClean-last c (d ∷ r) h = let (t, x, e, f) = EndsClean-last d r h in (c ∷ t, x, ap (◌∷◌ c) e, f)

cut_tail_stop :
    (at_start : Bool) (c : ℕ) (cs : Bytes)
    → EndsClean (c ∷ cs)
    → cut_tail at_start (reverse (c ∷ cs)) ≡ some (reverse (c ∷ cs))
unfolding cut_tail
cut_tail_stop at_start c cs h =
    let (t, x, e, f) = EndsClean-last c cs h in
    let last_first : reverse (c ∷ cs) ≡ x ∷ reverse t = ap reverse e ∙ reverse-append t (x ∷ []) in
    rw last_first (rw f)

effective-clean : (s : Bytes) → StartsClean s → EndsClean s → effective s ≡ some s
unfolding effective skip_blanks
effective-clean [] a b = absurd a
effective-clean (c ∷ cs) a b =
    rw a (rw (cut_tail_stop true c cs b) (ap some (reverse-reverse (c ∷ cs))))

skip_scheme-scheme_text :
    (scheme : Scheme) (u : Bytes) → skip_scheme u ≡ u → skip_scheme (scheme_text scheme ++ u) ≡ u
unfolding skip_scheme scan
skip_scheme-scheme_text bare u h = h
skip_scheme-scheme_text http u h = refl
skip_scheme-scheme_text https u h = refl

skip_www-www_text : (www : Bool) (u : Bytes) → skip_www u ≡ u → skip_www (www_text www ++ u) ≡ u
unfolding skip_www scan
skip_www-www_text true u h = refl
skip_www-www_text false u h = h

skip_scheme-www_text :
    (www : Bool) (u : Bytes)
    → skip_scheme u ≡ u
    → skip_scheme (www_text www ++ u) ≡ www_text www ++ u
unfolding skip_scheme scan
skip_scheme-www_text true u h = refl
skip_scheme-www_text false u h = h

clean-spelled :
    (scheme : Scheme) (www : Bool) (u : Bytes) → IsCanonical u → clean (spelled scheme www u) ≡ u
unfolding clean
clean-spelled scheme www u v =
    rw (skip_scheme-scheme_text scheme (www_text www ++ u) (skip_scheme-www_text www u v.scheme))
      (rw (skip_www-www_text www u v.www) (rw (v.script) v.kept))

spelled-StartsClean :
    (scheme : Scheme) (www : Bool) (u : Bytes) → StartsClean u → StartsClean (spelled scheme www u)
spelled-StartsClean bare true u a = refl
spelled-StartsClean bare false u a = a
spelled-StartsClean http www u a = refl
spelled-StartsClean https www u a = refl

spelled-EndsClean :
    (scheme : Scheme) (www : Bool) (u : Bytes)
    → StartsClean u
    → EndsClean u
    → EndsClean (spelled scheme www u)
spelled-EndsClean scheme www [] a b = absurd a
spelled-EndsClean scheme www (c ∷ cs) a b =
    rw (append_assoc (scheme_text scheme) (www_text www) (c ∷ cs)) at
      (EndsClean-prepend (scheme_text scheme ++ www_text www) c cs b)

scheme_text-IsLower : (scheme : Scheme) → All IsLower (scheme_text scheme)
scheme_text-IsLower bare = tt
scheme_text-IsLower http = ground arith
scheme_text-IsLower https = ground arith

www_text-IsLower : (www : Bool) → All IsLower (www_text www)
www_text-IsLower true = ground arith
www_text-IsLower false = tt

spelled-IsLower :
    (scheme : Scheme) (www : Bool) (u : Bytes) → All IsLower u → All IsLower (spelled scheme www u)
spelled-IsLower scheme www u h =
    All-append IsLower (scheme_text scheme) (www_text www ++ u) (scheme_text-IsLower scheme)
      (All-append IsLower (www_text www) u (www_text-IsLower www) h)

is_nil-StartsClean : (s : Bytes) → StartsClean s → is_nil s ≡ false
is_nil-StartsClean [] a = absurd a
is_nil-StartsClean (c ∷ cs) a = refl

-- `format_url` maps every spelling of a canonical url, with or without `http://` or `https://` and
-- with or without `www.`, to that url, if the spelling is within the limit.
pub format_url-spelled :
    (scheme : Scheme) (www : Bool) (u : Bytes)
    → IsCanonical u
    → length (spelled scheme www u) ≤ url_size
    → format_url (spelled scheme www u) ≡ some u
unfolding format_url
format_url-spelled scheme www u v h =
    let s = spelled scheme www u in
    let a = spelled-StartsClean scheme www u v.starts in
    let b = spelled-EndsClean scheme www u v.starts v.ends in
    let short : ltb url_size (length s) ≡ false = ground arith in
    rw (is_nil-StartsClean s a) (
      rw short (
        rw (map-to_lower s (spelled-IsLower scheme www u v.lower))
          (rw (effective-clean s a b) (ap some (clean-spelled scheme www u v)))))
