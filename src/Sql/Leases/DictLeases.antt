-- ===== src/Sql/Leases/DictLeases.antt =====
-- The connections that the operations on dictionaries and managers' tables hold.
use amigao.Base.{ℕ, ◌<◌, Bool, List, [], ◌∷◌, refl, arith, Bytes}
use amigao.Info.{ℤ}
use amigao.Sql.Urls.{if_exist}
use amigao.Sql.Dicts.{
  op_dict_manager, add_dict_table, send_items, add_dict_words, add_dict_set, add_dict_file,
  rm_dict_manager, rm_dict_table, op_strategy_manager, rm_strategy_manger, word_set,
}
use amigao.Sql.Leases.{Holds, Holds-bind}

pub op_dict_manager-Holds :
    (read_int : Bytes → ℤ) (held : ℕ) (dict_name status dict_no comments : Bytes)
    → held < 2
    → Holds 3 held held (op_dict_manager read_int dict_name status dict_no comments)
unfolding op_dict_manager if_exist
op_dict_manager-Holds read_int held dict_name status dict_no comments h = ground arith

pub add_dict_table-Holds :
    (read_int : Bytes → ℤ) (dict_name : Bytes) → Holds 3 0 0 (add_dict_table read_int dict_name)
unfolding add_dict_table
add_dict_table-Holds read_int dict_name = ground arith

pub send_items-Holds :
    (is_full : Bytes → ℕ → Bool) (insert : Bytes) (least : ℕ) (items : List Bytes) (value : Bytes)
    → Holds 3 0 1 (send_items is_full insert least items value)
unfolding send_items
send_items-Holds is_full insert least [] value = ground arith
send_items-Holds is_full insert least (item ∷ items) value =
    let next : (v : Bytes) → Holds 3 0 1 (send_items is_full insert least items v) =
      send_items-Holds is_full insert least items in
    grind (arith, next)

pub add_dict_words-Holds :
    (read_int : Bytes → ℤ) (max_insert : ℕ) (dict_name : Bytes) (word_no : List (Bytes × Bytes))
    → Holds 3 0 0 (add_dict_words read_int max_insert dict_name word_no)
unfolding add_dict_words
add_dict_words-Holds read_int max_insert dict_name word_no =
    Holds-bind 3 0 0 0 (add_dict_table read_int dict_name) _
      (add_dict_table-Holds read_int dict_name) λ added. grind (arith, send_items-Holds)

pub add_dict_set-Holds :
    (read_int : Bytes → ℤ) (max_insert : ℕ) (dict_name : Bytes) (words : List Bytes)
    → Holds 3 0 0 (add_dict_set read_int max_insert dict_name words)
unfolding add_dict_set
add_dict_set-Holds read_int max_insert dict_name [] = refl
add_dict_set-Holds read_int max_insert dict_name (word ∷ words) =
    Holds-bind 3 0 0 0 (add_dict_table read_int dict_name) _
      (add_dict_table-Holds read_int dict_name) λ added. grind (arith, send_items-Holds)

pub add_dict_file-Holds :
    (read_int : Bytes → ℤ) (max_insert : ℕ) (dict_name : Bytes) (lines : List Bytes)
    → Holds 3 0 0 (add_dict_file read_int max_insert dict_name lines)
unfolding add_dict_file
add_dict_file-Holds read_int max_insert dict_name lines =
    add_dict_set-Holds read_int max_insert dict_name (word_set lines [])

pub rm_dict_manager-Holds : (dict_name : Bytes) → Holds 3 0 0 (rm_dict_manager dict_name)
unfolding rm_dict_manager if_exist
rm_dict_manager-Holds dict_name = ground arith

pub rm_dict_table-Holds : (dict_name : Bytes) → Holds 3 0 0 (rm_dict_table dict_name)
unfolding rm_dict_table
rm_dict_table-Holds dict_name =
    Holds-bind 3 0 0 0 (rm_dict_manager dict_name) _ (rm_dict_manager-Holds dict_name)
      (λ _. ground arith)

pub op_strategy_manager-Holds :
    (strategy_name status comments : Bytes)
    → Holds 3 0 0 (op_strategy_manager strategy_name status comments)
unfolding op_strategy_manager if_exist
op_strategy_manager-Holds strategy_name status comments = ground arith

pub rm_strategy_manger-Holds :
    (strategy_name : Bytes) → Holds 3 0 0 (rm_strategy_manger strategy_name)
unfolding rm_strategy_manger if_exist
rm_strategy_manger-Holds strategy_name = ground arith
