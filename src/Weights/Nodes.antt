-- ===== src/Weights/Nodes.antt =====
-- The texts of weights as lists of nodes, each a weight and the number of a url.
use mathlib.Core.List.{append_assoc}
use amigao.Base.{
  ℕ, Bool, true, false, ◌&&◌, List, [], ◌∷◌, ◌++◌, ◌⊎◌, ◌≡◌, refl, arith, inl, inr, ◌==◌, length,
  Bytes, All, All-map, text_eq, sym, Bool-cases,
}
use amigao.Decimal.{print_number, IsDigit, print_number-IsDigit, print_number-injective}
use amigao.Weights.Scan.{starts_with, Lacks}

abbrev pub Node : Type 0
Node = ℕ × ℕ

abbrev pub node_text : Node → Bytes
node_text (weight, url_no) = b'|' ∷ print_number weight ++ b'_' ∷ print_number url_no

abbrev pub nodes_text : List Node → Bytes
nodes_text [] = []
nodes_text (n ∷ ns) = node_text n ++ nodes_text ns

-- The text of a word with these nodes.
abbrev pub text_of : List Node → Bytes
text_of ns = print_number (length ns) ++ nodes_text ns

pub nodes_text-append : (ms ns : List Node) → nodes_text (ms ++ ns) ≡ nodes_text ms ++ nodes_text ns
nodes_text-append [] ns = refl
nodes_text-append (m ∷ ms) ns =
    rw (nodes_text-append ms ns) (sym (append_assoc (node_text m) (nodes_text ms) (nodes_text ns)))

-- A text of digits has neither bars nor marks.
pub digits-Lacks :
    (c : ℕ) (text : Bytes) → (c ≡ b'|') ⊎ (c ≡ b'_') → All IsDigit text → Lacks c text
digits-Lacks c text sign h =
    All-map IsDigit (λ d. (d == c) ≡ false) text (λ d digit. ground arith) h

pub number-Lacks_bar : (n : ℕ) → Lacks b'|' (print_number n)
number-Lacks_bar n = digits-Lacks b'|' (print_number n) (inl refl) (print_number-IsDigit n)

pub number-Lacks_mark : (n : ℕ) → Lacks b'_' (print_number n)
number-Lacks_mark n = digits-Lacks b'_' (print_number n) (inr refl) (print_number-IsDigit n)

-- Nothing, or a bar and more.
abbrev pub begins_node : Bytes → Bool
begins_node [] = false
begins_node (c ∷ cs) = c == b'|'

abbrev pub IsEnd : Bytes → Type 0
IsEnd [] = Unit {0}
IsEnd (c ∷ cs) = c ≡ b'|'

pub nodes_text-IsEnd : (ns : List Node) → IsEnd (nodes_text ns)
nodes_text-IsEnd [] = tt
nodes_text-IsEnd (n ∷ ns) = refl

pub starts_with-number :
    (ps ds rest : Bytes)
    → All IsDigit ps
    → All IsDigit ds
    → IsEnd rest
    → starts_with (ps ++ b'|' ∷ []) (ds ++ rest) ≡ (text_eq ds ps && begins_node rest)
starts_with-number [] [] [] p d e = refl
starts_with-number [] [] (c ∷ cs) p d e = ground arith
starts_with-number [] (d ∷ ds) rest p h e = ground arith
starts_with-number (p ∷ ps) [] [] hp hd e = refl
starts_with-number (p ∷ ps) [] (c ∷ cs) hp hd e = ground arith
starts_with-number (p ∷ ps) (d ∷ ds) rest hp hd e =
    let next = starts_with-number ps ds rest hp.1 hd.1 e in grind arith

pub text_eq_refl : (text : Bytes) → text_eq text text ≡ true
text_eq_refl [] = refl
text_eq_refl (c ∷ cs) = let same : (c == c) ≡ true = ground arith in rw (same, text_eq_refl cs)

pub text_eq_iff : (xs ys : Bytes) → text_eq xs ys ≡ true → xs ≡ ys
text_eq_iff [] [] h = refl
text_eq_iff [] (y ∷ ys) h = absurd (ground arith)
text_eq_iff (x ∷ xs) [] h = absurd (ground arith)
text_eq_iff (x ∷ xs) (y ∷ ys) h =
    let head : x ≡ y = ground arith in
    let rest = text_eq_iff xs ys (ground arith) in rw (head, rest)

pub text_eq-numbers : (m n : ℕ) → text_eq (print_number m) (print_number n) ≡ (m == n)
text_eq-numbers m n = elim (Bool-cases (m == n)) [
  | inl same ↦ let equal : m ≡ n = ground arith in rw (equal, text_eq_refl) (ground arith)
  | inr other ↦ elim (Bool-cases (text_eq (print_number m) (print_number n))) [
    | inl equal ↦
        let same : m ≡ n =
          print_number-injective m n (text_eq_iff (print_number m) (print_number n) equal) in
        absurd (ground arith)
    | inr differ ↦ rw (differ, other)
  ]
]
