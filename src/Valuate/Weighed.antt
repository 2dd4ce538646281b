-- ===== src/Valuate/Weighed.antt =====
-- What the words of a page weigh.
use mathlib.Core.Path.{fun_ext, subst}
use amigao.Base.{
  ℕ, ◌+◌, ◌*◌, Bool, false, ◌||◌, List, [], ◌∷◌, some, ◌≡◌, refl, sym, ap, ◌∙◌, inl, inr, arith,
  if◌then◌else◌, Bool-cases, All, Bytes, text_eq,
}
use amigao.Info.{ℤ}
use amigao.Sql.Answered.{Row, onto, rows_in, run, Ends, Ends-run}
use amigao.Sql.Program.{Answer, failed, no_result, rows, column, ◌>>=◌}
use amigao.Weights.Nodes.{text_eq_iff}
use amigao.Valuate.{
  add_weights, add_condition, coded_words, select_words, word_rows, query_all, Numbers,
  word_numbers, select_weights, no_condition, rows_of, in_bounds,
}

-- How often the word is in the list.
abbrev pub times : Bytes → List Bytes → ℕ
times w [] = 0
times w (word ∷ words) = (if text_eq w word then 1 else 0) + times w words

add_weights-times :
    (weight : ℕ) (words : List Bytes) (f : Bytes → ℕ) (w : Bytes)
    → add_weights weight words f w ≡ f w + weight * times w words
add_weights-times weight [] f w = omega arith
add_weights-times weight (word ∷ words) f w =
    let rest =
      add_weights-times weight words (λ v. if text_eq v word then f v + weight else f v) w in
    elim (Bool-cases (text_eq w word)) [
      | inl hit ↦
          let rest' = rw hit at rest in
          let more : weight * (1 + times w words) ≡ weight + weight * times w words = grind arith in
          rw hit (omega (arith, rest', more))
      | inr miss ↦
          let rest' = rw miss at rest in
          let more : weight * (0 + times w words) ≡ weight * times w words = grind arith in
          rw miss (omega (arith, rest', more))
    ]

-- The number stands in one of the rows.
abbrev pub is_among : Bytes → List Row → Bool
is_among n [] = false
is_among n (row ∷ more) = text_eq n (column 0 row) || is_among n more

-- The weight of every number that was sent is that of its word, and all others weigh nothing.
abbrev pub IsWeighed : (Bytes → ℕ) → (Bytes → Bytes) → List Row → Numbers → Type 0
IsWeighed word_weight word_of seen numbers =
    (n : Bytes) → numbers.0 n ≡ (if is_among n seen then word_weight (word_of n) else 0)

-- The answer has rows, and these are of a dictionary in which every number has its word.
abbrev pub AreOf : (Bytes → Bytes) → Answer → Type 0
AreOf word_of failed = ⊥
AreOf word_of no_result = ⊥
AreOf word_of (rows more) = All (λ row. column 1 row ≡ word_of (column 0 row)) more

module _ (word_of : Bytes → Bytes) (max_insert : ℕ) (word_weight : Bytes → ℕ) where
  word_rows-IsWeighed :
      (more seen : List Row) (numbers : Numbers)
      → All (λ row. column 1 row ≡ word_of (column 0 row)) more
      → IsWeighed word_weight word_of seen numbers
      → (next : Numbers) × (word_rows max_insert word_weight more numbers ≡ some next)
        × IsWeighed word_weight word_of (onto more seen) next
  word_rows-IsWeighed [] seen numbers h w = (numbers, refl, w)
  word_rows-IsWeighed (row ∷ more) seen (wordno_weight, tail, vec) h w =
      let number = column 0 row in
      let conditions = add_condition max_insert select_weights (no_condition number) (tail, vec) in
      word_rows-IsWeighed more (row ∷ seen)
        (
          (λ n. if text_eq n number then word_weight (column 1 row) else wordno_weight n),
          conditions.0,
          conditions.1,
        )
        h.1
        (λ n. elim (Bool-cases (text_eq n number)) [
          | inl hit ↦
              let same : n ≡ number = text_eq_iff n number hit in
              rw hit (ap word_weight (h.0 ∙ ap word_of (sym same)))
          | inr miss ↦ rw miss (w n)
        ])

  answered-IsWeighed :
      (vec : List Bytes) (seen : List Row) (numbers : Numbers)
      → IsWeighed word_weight word_of seen numbers
      → ((seen : List Row) (numbers : Numbers)
          → IsWeighed word_weight word_of seen numbers
          → Ends
              (IsWeighed word_weight word_of)
              (AreOf word_of)
              seen
              (query_all select_words (word_rows max_insert word_weight) vec numbers))
      → (a : Answer) → AreOf word_of a
      → Ends (IsWeighed word_weight word_of) (AreOf word_of) (onto (rows_in a) seen) (
          rows_of a >>= λ more.
          in_bounds (word_rows max_insert word_weight more numbers) >>= λ next.
          query_all select_words (word_rows max_insert word_weight) vec next)
  answered-IsWeighed vec seen numbers w later failed h = elim h [ ]
  answered-IsWeighed vec seen numbers w later no_result h = elim h [ ]
  answered-IsWeighed vec seen numbers w later (rows more) h =
      let (next, got, w') = word_rows-IsWeighed more seen numbers h w in
      rw got (later (onto more seen) next w')

  query_all-IsWeighed :
      (vec : List Bytes) (seen : List Row) (numbers : Numbers)
      → IsWeighed word_weight word_of seen numbers
      → Ends
          (IsWeighed word_weight word_of)
          (AreOf word_of)
          seen
          (query_all select_words (word_rows max_insert word_weight) vec numbers)
  unfolding query_all
  query_all-IsWeighed [] seen numbers w = w
  query_all-IsWeighed (e ∷ vec) seen numbers w =
      answered-IsWeighed vec seen numbers w (λ seen' next. query_all-IsWeighed vec seen' next)

-- The weight of a coded word on a page.
abbrev pub page_weight : List Bytes → List Bytes → Bytes → ℕ
page_weight title_words contents_words w =
    10 * times w (coded_words title_words) + times w (coded_words contents_words)

page_weight-added :
    (title_words contents_words : List Bytes)
    → add_weights 1 (coded_words contents_words) (add_weights 10 (coded_words title_words) (λ w. 0))
      ≡ page_weight title_words contents_words
page_weight-added title_words contents_words = fun_ext λ w.
    let title = add_weights-times 10 (coded_words title_words) (λ v. 0) w in
    let contents =
      add_weights-times 1 (coded_words contents_words)
        (add_weights 10 (coded_words title_words) (λ v. 0)) w in
    omega (arith, title, contents)

module _ (cut : Bytes → List Bytes) (extract_unsigned : Bytes → Bytes × ℕ)
    (extract : Bytes → Bytes × ℤ) (rounds max_insert max_urls : ℕ) where
  word_numbers-Ends :
      (word_of : Bytes → Bytes) (title contents : Bytes)
      → Ends
          (IsWeighed (page_weight (cut title) (cut contents)) word_of)
          (AreOf word_of)
          []
          (word_numbers cut extract_unsigned extract rounds max_insert max_urls title contents)
  unfolding word_numbers
  word_numbers-Ends word_of title contents =
      subst
        (λ weight.
          Ends (IsWeighed weight word_of) (AreOf word_of) []
            (word_numbers cut extract_unsigned extract rounds max_insert max_urls title contents))
        (page_weight-added (cut title) (cut contents))
        (query_all-IsWeighed word_of max_insert
          (add_weights 1 (coded_words (cut contents))
            (add_weights 10 (coded_words (cut title)) (λ w. 0)))
          _ [] ((λ n. 0), [], []) (λ n. refl))

  -- Whatever words a page is cut into, on a server that answers every statement with rows in which every
  -- number has the one word of its dictionary: the weighing of the words of a page comes to a
  -- result, in which every number that the server has sent weighs ten for each time that its word is
  -- in the title and one for each time that it is in the contents, and no other number weighs
  -- anything.
  pub word_numbers-IsWeighed :
      (word_of : Bytes → Bytes) (server : ℕ → Bytes → Answer) (title contents : Bytes)
      → ((i : ℕ) (s : Bytes) → AreOf word_of (server i s))
      → (sent : List Row) × (numbers : Numbers) × (run server 0 []
            (word_numbers cut extract_unsigned extract rounds max_insert max_urls title contents)
          ≡ some (sent, numbers))
        × IsWeighed (page_weight (cut title) (cut contents)) word_of sent numbers
  word_numbers-IsWeighed word_of server title contents honest =
      Ends-run (IsWeighed (page_weight (cut title) (cut contents)) word_of) (AreOf word_of) server 0
        [] (word_numbers cut extract_unsigned extract rounds max_insert max_urls title contents)
        honest (word_numbers-Ends word_of title contents)
