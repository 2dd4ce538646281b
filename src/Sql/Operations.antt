-- ===== src/Sql/Operations.antt =====
-- A client of `SqlDBOperation`: the calls it makes one after the other, and the connections it holds
-- meanwhile.
use amigao.Base.{ℕ, false, List, [], ◌∷◌, ◌≡◌, ◌≢◌, refl, arith, Bytes}
use amigao.Info.{ℤ}
use amigao.Sql.Program.{no_result, Program, done, ◌>>=◌, ◌>>◌}
use amigao.Sql.Urls.{op_website_nice, op_visited_url, get_url_no, get_website_nice, is_refused}
use amigao.Sql.Dicts.{
  op_dict_manager, add_dict_table, add_dict_words, add_dict_set, add_dict_file, rm_dict_manager,
  rm_dict_table, op_strategy_manager, rm_strategy_manger,
}
use amigao.Sql.Leases.{
  Holds, Holds-bind, op_website_nice-Holds, op_visited_url-Holds, get_url_no-Holds,
  get_website_nice-Holds,
}
use amigao.Sql.Leases.DictLeases.{
  op_dict_manager-Holds, add_dict_table-Holds, add_dict_words-Holds, add_dict_set-Holds,
  add_dict_file-Holds, rm_dict_manager-Holds, rm_dict_table-Holds, op_strategy_manager-Holds,
  rm_strategy_manger-Holds,
}

-- The operations with their arguments; files and sets are the lists of their lines and words.
pub data Operation : Type 0 where
  website_nice : (url nice : Bytes) → Operation
  visited_url : (url title contents html : Bytes) → Operation
  url_no : (url : Bytes) → Operation
  nice_of_website : (url : Bytes) → Operation
  dict_table : (dict_name : Bytes) → Operation
  dict_words : (dict_name : Bytes) → (word_no : List (Bytes × Bytes)) → Operation
  dict_set : (dict_name : Bytes) → (words : List Bytes) → Operation
  dict_file : (dict_name : Bytes) → (lines : List Bytes) → Operation
  rm_dict : (dict_name : Bytes) → Operation
  dict_manager : (dict_name status dict_no comments : Bytes) → Operation
  unmanaged_dict : (dict_name : Bytes) → Operation
  strategy_manager : (strategy_name status comments : Bytes) → Operation
  rm_strategy : (strategy_name : Bytes) → Operation

module _ (extract_unsigned : Bytes → Bytes × ℕ) (extract : Bytes → Bytes × ℤ) (read_int : Bytes → ℤ)
    (rounds max_insert : ℕ) where
  abbrev pub perform : Operation → Program (Unit {0})
  perform (website_nice url nice) = op_website_nice url nice
  perform (visited_url url title contents html) = op_visited_url max_insert url title contents html
  perform (url_no url) = get_url_no extract_unsigned extract rounds url >>= λ _. done tt
  perform (nice_of_website url) = get_website_nice extract_unsigned extract url >>= λ _. done tt
  perform (dict_table dict_name) = add_dict_table read_int dict_name >>= λ _. done tt
  perform (dict_words dict_name word_no) = add_dict_words read_int max_insert dict_name word_no
  perform (dict_set dict_name words) = add_dict_set read_int max_insert dict_name words
  perform (dict_file dict_name lines) = add_dict_file read_int max_insert dict_name lines
  perform (rm_dict dict_name) = rm_dict_table dict_name
  perform (dict_manager dict_name status dict_no comments) =
      op_dict_manager read_int dict_name status dict_no comments
  perform (unmanaged_dict dict_name) = rm_dict_manager dict_name
  perform (strategy_manager strategy_name status comments) =
      op_strategy_manager strategy_name status comments
  perform (rm_strategy strategy_name) = rm_strategy_manger strategy_name

  unfoldable pub perform_all : List Operation → Program (Unit {0})
  perform_all [] = done tt
  perform_all (operation ∷ operations) = perform operation >> perform_all operations

  perform-Holds : (operation : Operation) → Holds 3 0 0 (perform operation)
  perform-Holds (website_nice url nice) = op_website_nice-Holds url nice
  perform-Holds (visited_url url title contents html) =
      op_visited_url-Holds max_insert url title contents html
  perform-Holds (url_no url) =
      Holds-bind 3 0 0 0 _ _ (get_url_no-Holds extract_unsigned extract rounds url) (λ _. refl)
  perform-Holds (nice_of_website url) =
      Holds-bind 3 0 0 0 _ _ (get_website_nice-Holds extract_unsigned extract url) (λ _. refl)
  perform-Holds (dict_table dict_name) =
      Holds-bind 3 0 0 0 _ _ (add_dict_table-Holds read_int dict_name) (λ _. refl)
  perform-Holds (dict_words dict_name word_no) =
      add_dict_words-Holds read_int max_insert dict_name word_no
  perform-Holds (dict_set dict_name words) = add_dict_set-Holds read_int max_insert dict_name words
  perform-Holds (dict_file dict_name lines) =
      add_dict_file-Holds read_int max_insert dict_name lines
  perform-Holds (rm_dict dict_name) = rm_dict_table-Holds dict_name
  perform-Holds (dict_manager dict_name status dict_no comments) =
      op_dict_manager-Holds read_int 0 dict_name status dict_no comments (omega arith)
  perform-Holds (unmanaged_dict dict_name) = rm_dict_manager-Holds dict_name
  perform-Holds (strategy_manager strategy_name status comments) =
      op_strategy_manager-Holds strategy_name status comments
  perform-Holds (rm_strategy strategy_name) = rm_strategy_manger-Holds strategy_name

  -- Operations one after the other, whatever their arguments and whatever the server answers, never hold
  -- more than three connections, send statements and give connections back only while they hold one, and
  -- have given all of them back at the end.
  pub perform_all-Holds : (operations : List Operation) → Holds 3 0 0 (perform_all operations)
  unfolding perform_all
  perform_all-Holds [] = refl
  perform_all-Holds (operation ∷ operations) =
      Holds-bind 3 0 0 0 _ _ (perform-Holds operation) (λ _. perform_all-Holds operations)

-- With one connection in the pool an accepted url can neither be stored nor be rated, and with two no
-- dictionary can be added: the operation leases one more than there are while it holds them all.
pub operations_nested :
    (read_int : Bytes → ℤ) (max_insert : ℕ) (url nice title contents html dict_name : Bytes)
    → is_refused url ≡ false
    → dict_name ≢ []
    → (¬ Holds 1 0 0 (op_website_nice url nice))
      × (¬ Holds 1 0 0 (op_visited_url max_insert url title contents html))
      × (¬ Holds 2 0 0 (add_dict_table read_int dict_name))
unfolding op_website_nice op_visited_url add_dict_table
operations_nested read_int max_insert url nice title contents html [] accepted named =
    absurd (named refl)
operations_nested read_int max_insert url nice title contents html (c ∷ cs) accepted named = (
  rw (accepted, Holds) (λ h. omega (arith, h.1.0)),
  rw (accepted, Holds) (λ h. omega (arith, h.1.0)),
  (λ h. omega (arith, ((h.1.1 no_result).1 no_result).1.0)),
)
