-- ===== src/Weights/Inserted.antt =====
-- Putting a node into a text of weights.
use mathlib.Core.List.{append-nil}
use amigao.Base.{
  ℕ, zero, suc, ◌<◌, Bool, true, false, List, [], ◌∷◌, ◌++◌, none, some, ◌≡◌, refl, arith, inl, inr,
  ltb, if◌then◌else◌, Bytes, sym, ap, ◌∙◌, Bool-cases, length,
}
use amigao.Decimal.{print_number, read_number, read_number-print_number}
use amigao.Weights.{insert_into}
use amigao.Weights.Scan.{◌>>=◌, split_at, Lacks, split_at-Lacks, split_at-none}
use amigao.Weights.Found.{node-split}
use amigao.Weights.Nodes.{Node, node_text, nodes_text, number-Lacks_mark, number-Lacks_bar}

-- The node goes in front of the first one that is not heavier.
abbrev pub placed : Node → List Node → List Node
placed n [] = n ∷ []
placed (weight, url_no) ((w, v) ∷ ns) =
    if ltb weight w then (w, v) ∷ placed (weight, url_no) ns else (weight, url_no) ∷ (w, v) ∷ ns

nothing-read : {w : ℕ} → read_number [] ≡ some w → ⊥
unfolding read_number
nothing-read h = ground arith

module _ (n cur_weight w : ℕ) (insert_node : Bytes) where
  insert_into-last :
      (ws vs : Bytes)
      → read_number ws ≡ some w
      → Lacks b'_' ws
      → Lacks b'|' vs
      → let text = b'|' ∷ ws ++ b'_' ∷ vs in
        insert_into (suc n) cur_weight insert_node text
        ≡ some (if ltb cur_weight w then text ++ insert_node else insert_node ++ text)
  unfolding insert_into
  insert_into-last [] vs r lw lv = absurd (nothing-read r)
  insert_into-last (d ∷ ds) vs r lw lv =
      let behind : split_at b'|' (b'_' ∷ vs) ≡ none = split_at-none b'|' (b'_' ∷ vs) (refl, lv) in
      elim (Bool-cases (ltb cur_weight w)) [
        | inl heavier ↦ rw (insert_into, split_at-Lacks b'_' ds vs lw.1, r, behind, heavier)
        | inr lighter ↦ rw (insert_into, split_at-Lacks b'_' ds vs lw.1, r, behind, lighter)
      ]

  insert_into-next :
      (ws vs more : Bytes)
      → read_number ws ≡ some w
      → Lacks b'_' ws
      → Lacks b'|' vs
      → let rest = b'|' ∷ more in
        let text = b'|' ∷ ws ++ b'_' ∷ (vs ++ rest) in
        insert_into (suc n) cur_weight insert_node text ≡ (
          if ltb cur_weight w
          then (insert_into n cur_weight insert_node rest >>= λ inserted.
              some ((b'|' ∷ ws) ++ ((b'_' ∷ vs) ++ inserted)))
          else some (insert_node ++ text))
  unfolding insert_into
  insert_into-next [] vs more r lw lv = absurd (nothing-read r)
  insert_into-next (d ∷ ds) vs more r lw lv =
      let behind : split_at b'|' (b'_' ∷ (vs ++ b'|' ∷ more)) ≡ some (b'_' ∷ vs, b'|' ∷ more) =
        split_at-Lacks b'|' (b'_' ∷ vs) more (refl, lv) in
      rw (insert_into, split_at-Lacks b'_' ds (vs ++ b'|' ∷ more) lw.1, r, behind)

last_branch :
    (heavier : Bool) (n m : Node)
    → some (if heavier then node_text m ++ node_text n else node_text n ++ node_text m)
      ≡ some (nodes_text (if heavier then m ∷ n ∷ [] else n ∷ m ∷ []))
last_branch true n m = ap (λ t. some (node_text m ++ t)) (sym (append-nil (node_text n)))
last_branch false n m = ap (λ t. some (node_text n ++ t)) (sym (append-nil (node_text m)))

next_branch :
    (heavier : Bool) (n : Node) (w v : ℕ) (rest : Bytes) (inserted ns : List Node)
    → nodes_text ns ≡ rest
    → (if heavier
        then some ((b'|' ∷ print_number w) ++ ((b'_' ∷ print_number v) ++ nodes_text inserted))
        else some (node_text n ++ (b'|' ∷ print_number w ++ b'_' ∷ (print_number v ++ rest))))
      ≡ some (nodes_text (if heavier then (w, v) ∷ inserted else n ∷ (w, v) ∷ ns))
next_branch true n w v rest inserted ns e = ap some (sym (node-split w v (nodes_text inserted)))
next_branch false n w v rest inserted ns e =
    ap (λ t. some (node_text n ++ t)) (rw (sym e) (sym (node-split w v (nodes_text ns))))

-- The loop puts the node where it belongs by its weight.
pub insert_into-placed :
    (n weight url_no : ℕ) (m : Node) (ns : List Node)
    → length ns < n
    → insert_into n weight (node_text (weight, url_no)) (nodes_text (m ∷ ns))
      ≡ some (nodes_text (placed (weight, url_no) (m ∷ ns)))
insert_into-placed zero weight url_no m ns h = absurd (omega arith)
insert_into-placed (suc n) weight url_no (w, v) [] h =
    ap (insert_into (suc n) weight (node_text (weight, url_no))) (append-nil (node_text (w, v)))
    ∙ insert_into-last n weight w (node_text (weight, url_no)) (print_number w) (print_number v)
        (read_number-print_number w) (number-Lacks_mark w) (number-Lacks_bar v)
    ∙ last_branch (ltb weight w) (weight, url_no) (w, v)
insert_into-placed (suc n) weight url_no (w, v) (k ∷ ns) h =
    let node = node_text (weight, url_no) in
    let more : Bytes = (print_number k.0 ++ b'_' ∷ print_number k.1) ++ nodes_text ns in
    let rest = insert_into-placed n weight url_no k ns (omega arith) in
    ap (insert_into (suc n) weight node) (node-split w v (nodes_text (k ∷ ns)))
    ∙ insert_into-next n weight w node (print_number w) (print_number v) more
        (read_number-print_number w) (number-Lacks_mark w) (number-Lacks_bar v)
    ∙ ap
        (λ r.
          if ltb weight w
          then (r >>= λ inserted.
              some ((b'|' ∷ print_number w) ++ ((b'_' ∷ print_number v) ++ inserted)))
          else some
              (node ++ (b'|' ∷ print_number w ++ b'_' ∷ (print_number v ++ nodes_text (k ∷ ns)))))
        rest
    ∙ next_branch (ltb weight w) (weight, url_no) w v (nodes_text (k ∷ ns))
        (placed (weight, url_no) (k ∷ ns)) (k ∷ ns) refl
