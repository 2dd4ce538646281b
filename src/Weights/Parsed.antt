-- ===== src/Weights/Parsed.antt =====
-- How the search reads the text of a word: `parse_weight` of src/strategy/plain_search_strategy.hpp.
use mathlib.Core.List.{append-nil}
use amigao.Base.{
  ℕ, zero, suc, ◌*◌, ◌%◌, ◌^◌, drop, ◌≤◌, ◌<◌, All, List, [], ◌∷◌, ◌++◌, Option, none, some, ◌≡◌,
  refl, arith, ◌==◌, if◌then◌else◌, Bytes, codes, text_eq, ap, ◌∙◌, length,
}
use amigao.Decimal.{print_number}
use amigao.Weights.Scan.{◌>>=◌, split_at, Lacks, split_at-Lacks, split_at-none}
use amigao.Weights.Nodes.{
  IsEnd, nodes_text-IsEnd, Node, nodes_text, text_of, number-Lacks_mark, number-Lacks_bar,
  text_eq-numbers,
}
use amigao.Weights.Updated.{length-nodes_text}
use amigao.Weights.Found.{node-split}

-- The text up to the next `c`, or all of it, and what follows from there.
abbrev pub split_end : ℕ → Bytes → Bytes × Bytes
split_end c text = elim (split_at c text) [ none ↦ (text, []) | some split ↦ split ]

-- `ss >> tmp_int` of an `unsigned` is the standard library's: from what the stream holds, what it leaves unread
-- there, which `ss.clear()` does not take out, and the number.
module _ (extract_unsigned : Bytes → Bytes × ℕ) where
  -- The loop, on what follows from a bar on, with the rounds left; every round goes to the next bar. The
  -- result has each number of a url with what is added to its weight.
  unfoldable pub parse_nodes : ℕ → ℕ → Bytes → Bytes → Option (List (Bytes × ℕ))
  parse_nodes rounds times ss [] = some []
  parse_nodes zero times ss (bar ∷ text) = none
  parse_nodes (suc rounds) times ss (bar ∷ text) = do
    (tmp_weight, mark) ← split_at b'_' text
    let (left, tmp_int) = extract_unsigned (ss ++ tmp_weight)
    let (tmp_urlno, rest) = split_end b'|' (drop 1 mark)
    added ← parse_nodes rounds times left rest
    some (
        if text_eq tmp_urlno (codes "0")
        then added
        else (tmp_urlno, tmp_int * times % 2 ^ 32) ∷ added)

  unfoldable pub parse_weight : ℕ → Bytes → Option (List (Bytes × ℕ))
  unfolding parse_nodes
  parse_weight times weight_str = do
    (head, nodes) ← split_at b'|' weight_str
    parse_nodes (length nodes) times [] nodes

-- What the search adds for these nodes; the url 0 is none.
abbrev pub contributions : ℕ → List Node → List (Bytes × ℕ)
contributions times [] = []
contributions times ((weight, url_no) ∷ ns) =
    let rest = contributions times ns in
    if url_no == 0 then rest else (print_number url_no, weight * times % 2 ^ 32) ∷ rest

split_end-IsEnd :
    (text rest : Bytes)
    → Lacks b'|' text
    → IsEnd rest
    → split_end b'|' (text ++ rest) ≡ (text, rest)
split_end-IsEnd text [] h e =
    ap (split_end b'|') (append-nil text) ∙ rw (split_end, split_at-none b'|' text h)
split_end-IsEnd text (c ∷ more) h e = rw (e, split_end, split_at-Lacks b'|' text more h)

-- The stream reads back any `unsigned` that is printed, and leaves nothing of it.
abbrev pub ReadsPrinted : (Bytes → Bytes × ℕ) → Type 0
ReadsPrinted extract_unsigned = (w : ℕ) → w < 2 ^ 32 → extract_unsigned (print_number w) ≡ ([], w)

-- A weight that an `unsigned` holds.
abbrev pub HoldsWeight : Node → Type 0
HoldsWeight n = n.0 < 2 ^ 32

is_zero : (n : ℕ) → text_eq (print_number n) (codes "0") ≡ (n == 0)
unfolding print_number
is_zero n = text_eq-numbers n 0

module _ (extract_unsigned : Bytes → Bytes × ℕ) (reads : ReadsPrinted extract_unsigned) where
  parse_nodes-node :
      (rounds times w : ℕ) (ws vs rest : Bytes)
      → extract_unsigned ws ≡ ([], w)
      → Lacks b'_' ws
      → Lacks b'|' vs
      → IsEnd rest
      → parse_nodes extract_unsigned (suc rounds) times [] (b'|' ∷ ws ++ b'_' ∷ (vs ++ rest)) ≡ (
          parse_nodes extract_unsigned rounds times [] rest >>= λ added.
          some (if text_eq vs (codes "0") then added else (vs, w * times % 2 ^ 32) ∷ added))
  unfolding parse_nodes
  parse_nodes-node rounds times w ws vs rest r lw lv e =
      rw (parse_nodes, split_at-Lacks b'_' ws (vs ++ rest) lw, r, split_end-IsEnd vs rest lv e)

  parse_nodes-contributions :
      (rounds times : ℕ) (ns : List Node)
      → length ns ≤ rounds
      → All HoldsWeight ns
      → parse_nodes extract_unsigned rounds times [] (nodes_text ns) ≡ some (contributions times ns)
  unfolding parse_nodes
  parse_nodes-contributions zero times [] h k = refl
  parse_nodes-contributions (suc rounds) times [] h k = refl
  parse_nodes-contributions zero times (n ∷ ns) h k = absurd (omega arith)
  parse_nodes-contributions (suc rounds) times ((w, v) ∷ ns) h k =
      ap (parse_nodes extract_unsigned (suc rounds) times []) (node-split w v (nodes_text ns))
      ∙ parse_nodes-node rounds times w (print_number w) (print_number v) (nodes_text ns)
          (reads w k.0) (number-Lacks_mark w) (number-Lacks_bar v) (nodes_text-IsEnd ns)
      ∙ rw (parse_nodes-contributions rounds times ns (omega arith) k.1, is_zero v)

  -- Where the stream reads back a printed number: the search reads back from the text of a word, whose weights
  -- an `unsigned` holds, what the valuation has written there: every url with its weight, times the
  -- number of times that the word is looked for.
  pub parse_weight-text_of :
      (times : ℕ) (n : Node) (ns : List Node)
      → All HoldsWeight (n ∷ ns)
      → parse_weight extract_unsigned times (text_of (n ∷ ns)) ≡ some (contributions times (n ∷ ns))
  unfolding parse_weight
  parse_weight-text_of times n ns k =
      let more : Bytes = (print_number n.0 ++ b'_' ∷ print_number n.1) ++ nodes_text ns in
      let head : Bytes = print_number (length (n ∷ ns)) in
      rw (parse_weight, split_at-Lacks b'|' head more (number-Lacks_bar (length (n ∷ ns))))
        (parse_nodes-contributions (length (nodes_text (n ∷ ns))) times (n ∷ ns)
          (length-nodes_text (n ∷ ns)) k)
