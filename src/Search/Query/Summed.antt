-- ===== src/Search/Query/Summed.antt =====
-- The weights of the urls that a search finds (src/strategy/plain_search_strategy.hpp).
use amigao.Base.{
  ℕ, ◌+◌, ◌*◌, ◌%◌, ◌^◌, ◌<◌, ◌==◌, All, true, false, List, [], ◌∷◌, some, ◌≡◌, refl, sym, ◌∙◌, inl,
  inr, arith, if◌then◌else◌, Bool-cases, Bytes, text_eq,
}
use amigao.Search.Query.{add_weight, add_all, sum_weights}
use amigao.Decimal.{print_number}
use amigao.Weights.Nodes.{Node, text_of, text_eq-numbers, text_eq_iff, text_eq_refl}
use amigao.Weights.Parsed.{contributions, ReadsPrinted, HoldsWeight, parse_weight-text_of}

-- The weight of a url in the map; one that is not there weighs nothing.
abbrev pub weight_in : Bytes → List (Bytes × ℕ) → ℕ
weight_in url_no [] = 0
weight_in url_no ((u, w) ∷ entries) = if text_eq u url_no then w else weight_in url_no entries

-- What is added for a url in all.
abbrev pub total : Bytes → List (Bytes × ℕ) → ℕ
total url_no [] = 0
total url_no ((u, w) ∷ added) = (if text_eq u url_no then w else 0) + total url_no added

-- A word with its number, and the nodes of its text.
abbrev pub Word : Type 0
Word = Bytes × Node × List Node

abbrev pub nodes_of : Word → List Node
nodes_of (number, n, ns) = n ∷ ns

-- The texts of words, as the valuation writes them.
abbrev pub texts_of : List Word → List (Bytes × Bytes)
texts_of [] = []
texts_of (word ∷ words) = (word.0, text_of (nodes_of word)) ∷ texts_of words

-- What the nodes of a word that is looked for `times` times give a url.
abbrev pub rated : ℕ → ℕ → List Node → ℕ
rated url_no times [] = 0
rated url_no times ((weight, u) ∷ ns) =
    (if u == url_no then weight * times % 2 ^ 32 else 0) + rated url_no times ns

-- What all words give a url.
abbrev pub score : ℕ → (Bytes → ℕ) → List Word → ℕ
score url_no wordno_times [] = 0
score url_no wordno_times (word ∷ words) =
    rated url_no (wordno_times word.0) (nodes_of word) + score url_no wordno_times words

weight_in-add_weight :
    (url_no u : Bytes) (w : ℕ) (entries : List (Bytes × ℕ))
    → weight_in url_no (add_weight u w entries)
      ≡ weight_in url_no entries + (if text_eq u url_no then w else 0)
weight_in-add_weight url_no u w [] = omega arith
weight_in-add_weight url_no u w ((v, x) ∷ entries) =
    let rest = weight_in-add_weight url_no u w entries in
    elim (Bool-cases (text_eq v u)) [
      | inl same ↦
          let equal : v ≡ u = text_eq_iff v u same in
          elim (Bool-cases (text_eq u url_no)) [
            | inl hit ↦ rw (same, equal, hit) refl
            | inr miss ↦ rw (same, equal, miss) (omega arith)
          ]
      | inr other ↦ elim (Bool-cases (text_eq v url_no)) [
        | inl hit ↦ elim (Bool-cases (text_eq u url_no)) [
          | inl both ↦
              let equal : v ≡ u = text_eq_iff v url_no hit ∙ sym (text_eq_iff u url_no both) in
              let same : text_eq v u ≡ true = rw equal (text_eq_refl u) in
              let clash : true ≡ false = sym same ∙ other in absurd (ground arith)
          | inr miss ↦ rw (other, hit, miss) (omega arith)
        ]
        | inr miss ↦ rw (other, miss) rest
      ]
    ]

weight_in-add_all :
    (url_no : Bytes) (added entries : List (Bytes × ℕ))
    → weight_in url_no (add_all added entries) ≡ weight_in url_no entries + total url_no added
weight_in-add_all url_no [] entries = omega arith
weight_in-add_all url_no ((u, w) ∷ added) entries =
    let rest = weight_in-add_all url_no added (add_weight u w entries) in
    let here = weight_in-add_weight url_no u w entries in omega (arith, rest, here)

total-contributions :
    (url_no times : ℕ) (ns : List Node)
    → 0 < url_no
    → total (print_number url_no) (contributions times ns) ≡ rated url_no times ns
total-contributions url_no times [] h = refl
total-contributions url_no times ((weight, u) ∷ ns) h =
    let rest = total-contributions url_no times ns h in
    let same = text_eq-numbers u url_no in
    elim (Bool-cases (u == 0)) [
      | inl no_url ↦
          let other : (u == url_no) ≡ false = ground arith in
          rw (no_url, other) (omega (arith, rest))
      | inr some_url ↦ rw (some_url, same) (omega (arith, rest))
    ]

module _ (extract_unsigned : Bytes → Bytes × ℕ) (reads : ReadsPrinted extract_unsigned) where
  sums :
      (url_no : ℕ) (wordno_times : Bytes → ℕ) (words : List Word) (entries : List (Bytes × ℕ))
      → 0 < url_no
      → All (λ word. All HoldsWeight (nodes_of word)) words
      → (m : List (Bytes × ℕ)) × (sum_weights extract_unsigned wordno_times (texts_of words) entries
          ≡ some m)
        × (weight_in (print_number url_no) m
            ≡ weight_in (print_number url_no) entries + score url_no wordno_times words)
  unfolding sum_weights
  sums url_no wordno_times [] entries h k = (entries, refl, omega arith)
  sums url_no wordno_times ((number, n, ns) ∷ words) entries h k =
      let times = wordno_times number in
      let added = contributions times (n ∷ ns) in
      let read = parse_weight-text_of extract_unsigned reads times n ns k.0 in
      let (m, summed, weight) = sums url_no wordno_times words (add_all added entries) h k.1 in
      let here = weight_in-add_all (print_number url_no) added entries in
      let mine = total-contributions url_no times (n ∷ ns) h in
      (m, rw (read, sum_weights) summed, omega (arith, weight, here, mine))

  -- Where the stream reads back a printed number: from the texts of any words, as the valuation writes them
  -- with weights that an `unsigned` holds, the search makes a map in which every url weighs the sum, over
  -- all words and over the nodes of a word that are of the url, of the weight of the node times the
  -- number of times that the word is looked for, this product modulo 2^32; a url that has no node weighs
  -- nothing. A number 0 is no url.
  pub sum_weights-score :
      (url_no : ℕ) (wordno_times : Bytes → ℕ) (words : List Word)
      → 0 < url_no
      → All (λ word. All HoldsWeight (nodes_of word)) words
      → (m : List (Bytes × ℕ)) × (sum_weights extract_unsigned wordno_times (texts_of words) []
          ≡ some m)
        × (weight_in (print_number url_no) m ≡ score url_no wordno_times words)
  sum_weights-score url_no wordno_times words h k =
      let (m, summed, weight) = sums url_no wordno_times words [] h k in
      (m, summed, omega (arith, weight))
