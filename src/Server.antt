-- ===== src/Server.antt =====
-- The search server (src/http/search_server.cc): what it reads out of a query, and the pages that it links.
pub mod Page
pub mod Tags
pub mod Printed
pub mod Tagged
pub mod Round
pub mod Served
use amigao.Base.{
  ℕ, ◌+◌, ◌-◌, ◌/◌, ◌%◌, ◌^◌, true, ◌<◌, ◌≤◌, [], ◌∷◌, ◌++◌, Option, none, some, ◌≡◌, refl, arith,
  ltb, if◌then◌else◌, Bool-cases, inl, inr, drop, Bytes, ap,
}
use amigao.Info.{ℤ, pos, less, short}
use amigao.Values.{dfl_pages}
use amigao.Weights.Parsed.{split_end}
use amigao.Weights.Scan.{split_at, Lacks, split_at-Lacks, split_at-none}

-- The texts of the sentence, of the page and of the results per page.
pub record Request : Type 0 where
  pub sentence : Bytes
  pub start_page : Option Bytes
  pub results_per_page : Option Bytes

-- What stands behind the next equals sign, where that is not the end.
abbrev pub after_equals : Bytes → Option Bytes
after_equals text = elim (split_at b'=' text) [
  | none ↦ none
  | some (before, from) ↦ elim (drop 1 from) [ [] ↦ none | c ∷ cs ↦ some (c ∷ cs) ]
]

-- The last value, from the ampersand in front of it on.
unfoldable pub parse_results : Bytes → Option Bytes
parse_results text = elim (drop 1 text) [
  | [] ↦ none
  | c ∷ cs ↦ elim (after_equals (c ∷ cs)) [ none ↦ none | some rest ↦ some (split_end b'&' rest).0 ]
]

-- `none` is a query that is not answered. The names of the values are not looked at.
unfoldable pub parse_query : Bytes → Option Request
unfolding parse_results
parse_query get_param = elim (after_equals get_param) [
  | none ↦ none
  | some rest ↦
      let (sentence, more) = split_end b'&' rest in
      elim (after_equals more) [
        | none ↦ some (record { sentence = sentence; start_page = none; results_per_page = none })
        | some pages ↦
            let (page, last) = split_end b'&' pages in
            some (record {
              sentence = sentence;
              start_page = some page;
              results_per_page = parse_results last;
            })
      ]
]

-- The first and the last page that is linked, and the pages behind « and », for two positive shorts. The last
-- page and the next one are shorts again, which are negative where the sum is too large. A difference below 1
-- is 0 here, which fares the same.
unfoldable pub links : ℕ → ℕ → ℕ × ℤ × ℕ × ℤ
unfolding short
links start_page total_pages =
    let wanted = start_page - dfl_pages / 2 in
    let i = if ltb wanted 1 then 1 else wanted in
    let end = short (i + dfl_pages - 1) in
    let j = if less (pos total_pages) end then pos total_pages else end in
    let pre = if ltb (start_page - 1) 1 then total_pages else start_page - 1 in
    let behind = short (start_page + 1) in
    let next = if less j behind then pos 1 else behind in (i, j, pre, next)

short-small : (n : ℕ) → n < 2 ^ 15 → short n ≡ pos n
unfolding short
short-small n h =
    let bits : n % 2 ^ 16 ≡ n = omega arith in
    let small : ltb n 32768 ≡ true = ground arith in rw (bits, small) refl

picked :
    (total_pages i pre end behind : ℕ)
    → let j = if less (pos total_pages) (pos end) then pos total_pages else pos end in
      let last = if ltb total_pages end then total_pages else end in
      let linked : ℕ × ℤ × ℕ × ℤ =
        (i, j, pre, (if less j (pos behind) then pos 1 else pos behind)) in
      linked ≡ (i, pos last, pre, pos (if ltb last behind then 1 else behind))
picked total_pages i pre end behind = elim (Bool-cases (ltb total_pages end)) [
  | inl few ↦ elim (Bool-cases (ltb total_pages behind)) [
    | inl over ↦ rw (few, over) refl
    | inr on ↦ rw (few, on) refl
  ]
  | inr many ↦ elim (Bool-cases (ltb end behind)) [
    | inl over ↦ rw (many, over) refl
    | inr on ↦ rw (many, on) refl
  ]
]

-- On every page that there is, whose number with three more is still a `short`, the links go to at most
-- `DFL_PAGES` pages in a row, the page itself among them, and all pages that are linked exist; « leads from
-- the first page to the last and else one page back, and » leads from the last page to the first and
-- else one page on.
pub links_within :
    (start_page total_pages : ℕ)
    → 0 < start_page
    → start_page ≤ total_pages
    → start_page + 3 < 2 ^ 15
    → (i : ℕ) × (j : ℕ) × (pre : ℕ) × (next : ℕ) × (links start_page total_pages
        ≡ (i, pos j, pre, pos next))
      × (0 < i)
      × (i ≤ start_page)
      × (start_page ≤ j)
      × (j ≤ total_pages)
      × (j < i + dfl_pages)
      × (pre ≡ (if ltb 1 start_page then start_page - 1 else total_pages))
      × (next ≡ (if ltb start_page total_pages then start_page + 1 else 1))
unfolding links
links_within start_page total_pages positive there small =
    let wanted = start_page - dfl_pages / 2 in
    let i = if ltb wanted 1 then 1 else wanted in
    let end = i + dfl_pages - 1 in
    let j = if ltb total_pages end then total_pages else end in
    let pre = if ltb (start_page - 1) 1 then total_pages else start_page - 1 in
    let next = if ltb j (start_page + 1) then 1 else start_page + 1 in
    let last : short end ≡ pos end = short-small end (ground arith) in
    let on : short (start_page + 1) ≡ pos (start_page + 1) =
      short-small (start_page + 1) (omega arith) in
    (
      i,
      j,
      pre,
      next,
      rw (last, on, links) (picked total_pages i pre end (start_page + 1)),
      ground arith,
      ground arith,
      ground arith,
      ground arith,
      ground arith,
      ground arith,
      ground arith,
    )

split_end-Lacks :
    (c : ℕ) (text rest : Bytes) → Lacks c text → split_end c (text ++ c ∷ rest) ≡ (text, c ∷ rest)
split_end-Lacks c text rest h = rw (split_end, split_at-Lacks c text rest h)

split_end-all : (c : ℕ) (text : Bytes) → Lacks c text → split_end c text ≡ (text, [])
split_end-all c text h = rw (split_end, split_at-none c text h)

after_equals-value :
    (name : Bytes) (c : ℕ) (rest : Bytes)
    → Lacks b'=' name
    → after_equals (name ++ (b'=' ∷ c ∷ rest)) ≡ some (c ∷ rest)
after_equals-value name c rest h = rw (after_equals, split_at-Lacks b'=' name (c ∷ rest) h)

parse_results-value :
    (e : ℕ) (r name : Bytes)
    → Lacks b'=' name
    → Lacks b'&' (e ∷ r)
    → parse_results (b'&' ∷ (name ++ (b'=' ∷ e ∷ r))) ≡ some (e ∷ r)
unfolding parse_results
parse_results-value e r [] h v = ap (λ split. some split.0) (split_end-all b'&' (e ∷ r) v)
parse_results-value e r (n ∷ name) h v =
    rw (parse_results, after_equals-value (n ∷ name) e r h, split_end-all b'&' (e ∷ r) v)

-- A query of three values, none of them empty or with an ampersand, is read as these values, whatever
-- their names are, as long as no name has an equals sign.
pub parse_query-values :
    (c d e : ℕ) (q s r name_q name_s name_r : Bytes)
    → Lacks b'=' name_q
    → Lacks b'=' name_s
    → Lacks b'=' name_r
    → Lacks b'&' (c ∷ q)
    → Lacks b'&' (d ∷ s)
    → Lacks b'&' (e ∷ r)
    → parse_query (
        name_q
        ++ (b'='
            ∷ c
            ∷ (q ++ (b'&' ∷ (name_s ++ (b'=' ∷ d ∷ (s ++ (b'&' ∷ (name_r ++ (b'=' ∷ e ∷ r))))))))))
      ≡ some
          (record { sentence = c ∷ q; start_page = some (d ∷ s); results_per_page = some (e ∷ r) })
unfolding parse_query
parse_query-values c d e q s r name_q name_s name_r lq ls lr vq vs vr =
    let third : Bytes = name_r ++ (b'=' ∷ e ∷ r) in
    let second : Bytes = name_s ++ (b'=' ∷ d ∷ (s ++ (b'&' ∷ third))) in
    rw
      (
        parse_query,
        after_equals-value name_q c (q ++ (b'&' ∷ second)) lq,
        split_end-Lacks b'&' (c ∷ q) second vq,
        after_equals-value (b'&' ∷ name_s) d (s ++ (b'&' ∷ third)) (refl, ls),
        split_end-Lacks b'&' (d ∷ s) third vs,
        parse_results-value e r name_r lr vr,
      )
      (ap
        (λ split. some (record {
          sentence = split.0;
          start_page = some (d ∷ s);
          results_per_page = some (e ∷ r);
        }))
        (split_end-Lacks b'&' (c ∷ q) second vq))
