-- ===== src/Sql/Dicts.antt =====
-- The operations on dictionaries and on the managers' tables.
use amigao.Base.{
  map, ℕ, ◌+◌, ◌-◌, Bool, true, false, not, ◌||◌, List, [], ◌∷◌, ◌++◌, ltb, ◌==◌, if◌then◌else◌,
  length, take, Bytes, codes, text_eq,
}
use amigao.Codec.{crypt}
use amigao.Info.{ℤ, pos, less}
use amigao.Sql.Program.{
  Program, done, ◌>>=◌, ◌>>◌, get_db, recycle_db, maria_real_query, send, is_failed,
}
use amigao.Sql.Urls.{if_exist}
use amigao.Url.{is_nil}

-- `text.substr(0, text.size() - 1)`
abbrev pub drop_last : Bytes → Bytes
drop_last text = take (length text - 1) text

abbrev pub or_else : Bytes → Bytes → Bytes
or_else text default = if is_nil text then default else text

abbrev pub insert_dict : Bytes → Bytes → Bytes → Bytes → Bytes
insert_dict dict_name status dict_no comments =
    if is_nil dict_no
    then codes "insert into dictionary.dict_manager (dict_name,status,comments) values ('"
      ++ (dict_name ++ (codes "','" ++ (status ++ (codes "','" ++ (comments ++ codes "')")))))
    else codes "insert into dictionary.dict_manager (dict_name,status,dict_no,comments) values ('"
      ++ (dict_name
          ++ (codes "','"
              ++ (status
                  ++ (codes "','"
                      ++ (crypt dict_no ++ (codes "','" ++ (comments ++ codes "')")))))))

-- The update names no row, so it changes them all.
abbrev pub update_dict : Bytes → Bytes → Bytes → Bytes → Bytes
update_dict dict_name status dict_no comments =
    codes "update dictionary.dict_manager set dict_name='"
    ++ (dict_name
        ++ (codes "',status='"
            ++ (status
                ++ (codes "',comments='"
                    ++ (comments
                        ++ (if is_nil dict_no
                            then codes "'"
                            else codes "',dict_no=" ++ crypt dict_no))))))

-- The loops that send items in statements of at most `max_insert` bytes. `value` holds the items
-- that wait, each with a comma behind; fewer than `least` bytes are none.
unfoldable pub send_items : (Bytes → ℕ → Bool) → Bytes → ℕ → List Bytes → Bytes → Program (Unit {0})
send_items is_full insert least [] value =
    if ltb least (length value)
    then (do send (insert ++ drop_last value); recycle_db)
    else recycle_db
send_items is_full insert least (item ∷ items) value =
    if is_full item (length value)
    then if ltb least (length value)
      then (do
        answer ← maria_real_query (insert ++ drop_last value)
        if is_failed answer then recycle_db else send_items is_full insert least items item)
      else send_items is_full insert least items item
    else send_items is_full insert least items (value ++ item)

abbrev pub word_no_item : Bytes × Bytes → Bytes
word_no_item (word, number) =
    codes "('" ++ (crypt number ++ (codes "','" ++ (crypt word ++ codes "'),")))

abbrev pub word_item : Bytes → Bytes
word_item word = codes "('" ++ (crypt word ++ codes "'),")

-- A line of a dictionary's file without its blanks.
abbrev pub strip : Bytes → Bytes
strip [] = []
strip (c ∷ cs) =
    if c == b' ' || c == b'\t' || c == b'\n' || c == b'\r' then strip cs else c ∷ strip cs

abbrev pub insert_word : Bytes → List Bytes → List Bytes
insert_word w [] = w ∷ []
insert_word w (x ∷ xs) = if text_eq w x then x ∷ xs else x ∷ insert_word w xs

unfoldable pub word_set : List Bytes → List Bytes → List Bytes
word_set [] words = words
word_set (line ∷ lines) words =
    let word = strip line in
    word_set lines (if is_nil word || ltb 256 (length word) then words else insert_word word words)

-- `op_dict_manager`; reading the number of the dictionary is the standard library's.
module _ (read_int : Bytes → ℤ) where
  -- A number out of 1000..9999 is no number of a dictionary.
  abbrev pub dict_no_of : Bytes → Bytes
  dict_no_of dict_no =
      if not (less (read_int dict_no) (pos 10000)) || less (read_int dict_no) (pos 1000)
      then []
      else dict_no

  unfoldable pub op_dict_manager : Bytes → Bytes → Bytes → Bytes → Program (Unit {0})
  unfolding if_exist
  op_dict_manager dict_name status dict_no comments = do
    let status' = or_else status (codes "#default")
    let comments' = crypt (or_else comments (codes "0"))
    let dict_no' = dict_no_of dict_no
    get_db
    known ←
        if_exist (codes "dict_name") (codes "dictionary.dict_manager") (codes "dict_name") dict_name
    send (
        if known
        then update_dict dict_name status' dict_no' comments'
        else insert_dict dict_name status' dict_no' comments')
    recycle_db

  -- `add_dict_table(dict_name)`
  unfoldable pub add_dict_table : Bytes → Program Bool
  unfolding op_dict_manager
  add_dict_table dict_name =
      let add = do
        get_db
        cleaned ← maria_real_query (codes "drop table if exists " ++ dict_name)
        if is_failed cleaned then (do recycle_db; done false) else (do
          created ← maria_real_query (
              codes "create table "
              ++ (dict_name
                  ++ codes
                      " (no int unsigned primary key auto_increment,word varchar(768) not null)"))
          if is_failed created
              then (do recycle_db; done false)
              else (do op_dict_manager dict_name [] [] []; recycle_db; done true))
      in if is_nil dict_name then done false else add

  -- `add_dict_table(dict_name, word_no)`, on the entries of the map in its order. An item is its two
  -- coded words and eight bytes more.
  unfoldable pub add_dict_words : ℕ → Bytes → List (Bytes × Bytes) → Program (Unit {0})
  unfolding add_dict_table send_items
  add_dict_words max_insert dict_name word_no = do
    added ← add_dict_table dict_name
    let insert = codes "insert into " ++ (dict_name ++ codes " (no,word) values ")
    if added
        then (do
          get_db
          send_items (λ item size. ltb max_insert (length insert + size + (length item - 8))) insert
              8 (map word_no_item word_no) [])
        else done tt

  -- `add_dict_table(dict_name, word_set)`, on the words of the set in its order. The test before an item
  -- is put in, `!tmp_str.empty() || tmp_str.size() <= 768`, holds of every word; an item is its coded
  -- word and five bytes more.
  unfoldable pub add_dict_set : ℕ → Bytes → List Bytes → Program (Unit {0})
  unfolding add_dict_table send_items
  add_dict_set max_insert dict_name words =
      let insert = codes "insert into " ++ (dict_name ++ codes " (word) values ") in
      let add = do
        added ← add_dict_table dict_name
        if added
            then (do
              get_db
              send_items (λ item size. ltb max_insert (length item - 5 + size + length insert - 1))
                  insert 5 (map word_item words) [])
            else done tt
      in elim words [ [] ↦ done tt | _ ∷ _ ↦ add ]

  -- `add_dict_table(dict_name, dict_file_path)`, on the lines of the file.
  unfoldable pub add_dict_file : ℕ → Bytes → List Bytes → Program (Unit {0})
  unfolding add_dict_set word_set
  add_dict_file max_insert dict_name lines = add_dict_set max_insert dict_name (word_set lines [])

unfoldable pub rm_dict_manager : Bytes → Program (Unit {0})
unfolding if_exist
rm_dict_manager dict_name = do
  known ←
      if_exist (codes "dict_name") (codes "dictionary.dict_manager") (codes "dict_name") dict_name
  if known
      then (do
        get_db
        send (
            codes "delete from dictionary.dict_manager where dict_name='"
            ++ (dict_name ++ codes "'"))
        recycle_db)
      else done tt

unfoldable pub rm_dict_table : Bytes → Program (Unit {0})
unfolding rm_dict_manager
rm_dict_table dict_name = do
  rm_dict_manager dict_name
  get_db
  send (codes "drop table if exists " ++ dict_name)
  recycle_db

-- Neither `status` nor `comments` is empty once the defaults are in, so the update has both columns, and
-- the comma that is cut off stands behind the second.
unfoldable pub op_strategy_manager : Bytes → Bytes → Bytes → Program (Unit {0})
unfolding if_exist
op_strategy_manager strategy_name status comments = do
  get_db
  let status' = or_else status (codes "#default")
  let comments' = crypt (or_else comments (codes "#default"))
  known ←
      if_exist (codes "strategy_name") (codes "amigao.strategy_manager") (codes "strategy_name")
        strategy_name
  send (
      if known
      then drop_last (
          codes "update amigao.strategy_manager set status='"
          ++ (status' ++ (codes "',comments='" ++ (comments' ++ codes "',"))))
        ++ (codes " where strategy_name='" ++ (strategy_name ++ codes "'"))
      else codes "insert into amigao.strategy_manager (strategy_name,status,comments) values ('"
        ++ (strategy_name
            ++ (codes "','" ++ (status' ++ (codes "','" ++ (comments' ++ codes "')"))))))
  recycle_db

unfoldable pub rm_strategy_manger : Bytes → Program (Unit {0})
unfolding if_exist
rm_strategy_manger strategy_name = do
  known ←
      if_exist (codes "strategy_name") (codes "amigao.strategy_manager") (codes "strategy_name")
        strategy_name
  if known
      then (do
        get_db
        send (
            codes "delete from amigao.strategy_manager where strategy_name='"
            ++ (strategy_name ++ codes "'"))
        recycle_db)
      else done tt
