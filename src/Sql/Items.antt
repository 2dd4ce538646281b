-- ===== src/Sql/Items.antt =====
-- How the words of a dictionary are spread over the statements that insert them.
use mathlib.Core.Path.{subst}
use mathlib.Core.List.{append-nil, append_assoc}
use amigao.Base.{
  ap, take, ◌≤◌, ◌⊎◌, ◌≢◌, codes, All-append, inl, inr, Bool-cases, All, length-append, sym, ℕ,
  zero, suc, ◌+◌, ◌-◌, ◌<◌, Bool, true, false, List, [], ◌∷◌, ◌++◌, ◌≡◌, refl, arith, ltb, length,
  Bytes, map,
}
use amigao.Sql.Program.{Answer, is_failed, Program, done, stop, lease, recycle, query}
use amigao.Sql.Dicts.{
  send_items, drop_last, word_item, add_dict_set, add_dict_table, op_dict_manager,
}
use amigao.Sql.Urls.{if_exist}
use amigao.Info.{ℤ}
use amigao.Codec.{crypt}
use amigao.Codec.Escaped.{length-crypt}

-- The statements that the program sends to a server whose answers may depend on how many statements it has
-- answered.
abbrev pub statements : {A : Type 0} → (ℕ → Bytes → Answer) → ℕ → Program A → List Bytes
statements server i (done a) = []
statements server i (stop s) = []
statements server i (lease p) = statements server i p
statements server i (recycle p) = statements server i p
statements server i (query s k) = s ∷ statements server (suc i) (k (server i s))

-- No statement is answered with an error.
abbrev pub IsFine : (ℕ → Bytes → Answer) → Type 0
IsFine server = (i : ℕ) (s : Bytes) → is_failed (server i s) ≡ false

abbrev pub join : List Bytes → Bytes
join [] = []
join (text ∷ texts) = text ++ join texts

abbrev pub flatten : List (List Bytes) → List Bytes
flatten [] = []
flatten (group ∷ groups) = group ++ flatten groups

join-append : (group : List Bytes) (item : Bytes) → join (group ++ item ∷ []) ≡ join group ++ item
join-append [] item = rw append-nil
join-append (text ∷ group) item = rw (join-append group item, append_assoc)

module _ (server : ℕ → Bytes → Answer) (fine : IsFine server) (is_full : Bytes → ℕ → Bool)
    (insert : Bytes) (least : ℕ) (IsWithin : List Bytes → Type 0) where
  abbrev pub insert_group : List Bytes → Bytes
  insert_group group = insert ++ drop_last (join group)

  -- `sent` inserts the items in their order, in groups that are not empty and within the limit.
  abbrev pub IsSpread : List Bytes → List Bytes → Type 0
  IsSpread items sent =
      (groups : List (List Bytes)) × (flatten groups ≡ items)
      × (sent ≡ map insert_group groups)
      × All (λ g. (0 < length g) × IsWithin g) groups

  join-waits :
      (text : Bytes) (texts : List Bytes)
      → least < length text
      → ltb least (length (join (text ∷ texts))) ≡ true
  join-waits text texts h =
      let more : length (text ++ join texts) ≡ length text + length (join texts) =
        length-append text (join texts) in
      ground arith

  -- The first item of a statement is the whole text that waits.
  restart :
      (i : ℕ) (items : List Bytes) (item : Bytes)
      → IsSpread
          (item ∷ items)
          (statements server i (send_items is_full insert least items (join (item ∷ []))))
      → IsSpread (item ∷ items) (statements server i (send_items is_full insert least items item))
  restart i items item =
      subst
        (λ v.
          IsSpread (item ∷ items) (statements server i (send_items is_full insert least items v)))
        (append-nil item)

  none_waits : ltb least 0 ≡ false
  none_waits = ground arith

  module _ (within_one : (item : Bytes) → IsWithin (item ∷ []))
      (within_more : (item : Bytes) (group : List Bytes)
        → least < length item
        → is_full item (length (join group)) ≡ false
        → IsWithin group
        → IsWithin (group ++ item ∷ [])) where
    send_items-IsSpread :
        (i : ℕ) (items waiting : List Bytes)
        → All (λ item. least < length item) waiting
        → All (λ item. least < length item) items
        → IsWithin waiting
        → IsSpread
            (waiting ++ items)
            (statements server i (send_items is_full insert least items (join waiting)))
    unfolding send_items
    send_items-IsSpread n [] [] w h i = rw (none_waits, IsSpread) ([], refl, refl, tt)
    send_items-IsSpread n [] (text ∷ texts) w h i =
        rw (join-waits text texts w.0, IsSpread, append-nil)
          ((text ∷ texts) ∷ [], append-nil (text ∷ texts), refl, ((omega arith, i), tt))
    send_items-IsSpread n (item ∷ items) [] w h i =
        let next =
          restart n items item
            (send_items-IsSpread n items (item ∷ []) (h.0, tt) h.1 (within_one item)) in
        elim (Bool-cases (is_full item 0)) [
          | inl full ↦ rw (full, none_waits) next
          | inr fits ↦ rw fits next
        ]
    send_items-IsSpread n (item ∷ items) (text ∷ texts) w h i =
        elim (Bool-cases (is_full item (length (join (text ∷ texts))))) [
          | inl full ↦
              let answered = fine n (insert_group (text ∷ texts)) in
              rw (full, join-waits text texts w.0)
                (rw answered (
                  let next = restart (suc n) items item (
                    send_items-IsSpread (suc n) items (item ∷ []) (h.0, tt) h.1
                      (within_one item)) in
                  ((text ∷ texts) ∷ next.0, rw next.1, rw next.2, ((omega arith, i), next.3))))
          | inr fits ↦ rw fits (
              let next =
                send_items-IsSpread n items ((text ∷ texts) ++ item ∷ [])
                  (All-append (λ t. least < length t) (text ∷ texts) (item ∷ []) w (h.0, tt)) h.1
                  (within_more item (text ∷ texts) h.0 fits i) in
              rw
                (
                  sym (join-append (text ∷ texts) item),
                  sym (append_assoc (text ∷ texts) (item ∷ []) items),
                )
                next)
        ]

length-take_within : (n : ℕ) (text : Bytes) → length (take n text) ≤ n
length-take_within zero text = omega arith
length-take_within (suc n) [] = omega arith
length-take_within (suc n) (c ∷ text) = let rest = length-take_within n text in omega arith

-- A group of one item, or one whose statement has at most `limit` bytes.
abbrev pub IsWithinLimit : ℕ → Bytes → List Bytes → Type 0
IsWithinLimit limit insert group =
    (length group ≤ 1) ⊎ (length (insert ++ drop_last (join group)) ≤ limit)

within_limit :
    (limit : ℕ) (insert item : Bytes) (group : List Bytes)
    → 0 < length item
    → length insert + length (join group) + length item ≤ suc limit
    → IsWithinLimit limit insert (group ++ item ∷ [])
within_limit limit insert item group some_item h =
    let joined : length (join (group ++ item ∷ [])) ≡ length (join group) + length item =
      rw (join-append group item, length-append) in
    let whole = length-append insert (drop_last (join (group ++ item ∷ []))) in
    let cut =
      length-take_within (length (join (group ++ item ∷ [])) - 1) (join (group ++ item ∷ [])) in
    inr (omega arith)

abbrev pub insert_word_into : Bytes → Bytes
insert_word_into dict_name = codes "insert into " ++ (dict_name ++ codes " (word) values ")

word_items-longer :
    (words : List Bytes)
    → All (λ w. w ≢ []) words
    → All (λ item. 5 < length item) (map word_item words)
unfolding crypt
word_items-longer [] h = tt
word_items-longer ([] ∷ words) h = absurd (h.0 refl)
word_items-longer ((c ∷ cs) ∷ words) h =
    let coded = length-crypt (c ∷ cs) in
    let item = length-append (crypt (c ∷ cs)) (codes "'),") in
    (omega arith, word_items-longer words h.1)

behind_four : {a b c d : Bytes} {x y : List Bytes} → x ≡ y → a ∷ b ∷ c ∷ d ∷ x ≡ a ∷ b ∷ c ∷ d ∷ y
behind_four {a} {b} {c} {d} e = ap (λ s. a ∷ b ∷ c ∷ d ∷ s) e

-- A dictionary that is made from a set of words, none of them empty, by a server that answers no statement
-- with an error, whatever else it answers, gets every word once and in the order of the set: behind the
-- statements that make the table come inserts whose values, joined, are the coded words of the set.
-- Every insert has a word, and one of more than one word has at most `max_insert + 5` bytes.
pub add_dict_set-IsSpread :
    (server : ℕ → Bytes → Answer) (read_int : Bytes → ℤ) (max_insert c : ℕ) (cs word : Bytes)
    (words : List Bytes)
    → IsFine server
    → All (λ w. w ≢ []) (word ∷ words)
    → let dict_name : Bytes = c ∷ cs in
      let insert = insert_word_into dict_name in
      (groups : List (List Bytes)) × (flatten groups ≡ map word_item (word ∷ words))
      × (statements server 0 (add_dict_set read_int max_insert dict_name (word ∷ words))
          ≡ statements server 0 (add_dict_table read_int dict_name)
            ++ map (λ g. insert ++ drop_last (join g)) groups)
      × All (λ g. (0 < length g) × IsWithinLimit (max_insert + 5) insert g) groups
unfolding add_dict_set add_dict_table op_dict_manager if_exist
add_dict_set-IsSpread server read_int max_insert c cs word words fine h =
    let insert = insert_word_into (c ∷ cs) in
    let cleaned = fine 0 (codes "drop table if exists " ++ (c ∷ cs)) in
    let created = fine 1 (
      codes "create table "
      ++ ((c ∷ cs)
          ++ codes " (no int unsigned primary key auto_increment,word varchar(768) not null)")) in
    let spread =
      send_items-IsSpread server fine
        (λ item size. ltb max_insert (length item - 5 + size + length insert - 1)) insert 5
        (IsWithinLimit (max_insert + 5) insert) (λ item. inl (omega arith))
        (λ item group longer fits _.
          within_limit (max_insert + 5) insert item group (omega arith) (ground arith))
        4 (map word_item (word ∷ words)) [] tt (word_items-longer (word ∷ words) h)
        (inl (omega arith)) in
    (spread.0, spread.1, rw cleaned (rw created (behind_four spread.2)), spread.3)
