-- ===== src/Sql/Program.antt =====
-- Code that leases connections of the pool and sends statements over them. What the server answers is
-- open: the code goes on from every answer.
use amigao.Base.{ℕ, zero, suc, Bool, true, false, List, [], ◌∷◌, Bytes}

-- What `maria_real_query` and `mysql_store_result` give: an error of the statement, no result, or rows
-- of columns.
pub data Answer : Type 0 where
  failed no_result : Answer
  rows : List (List Bytes) → Answer

-- How a call ends without a result: by `exit(1)`, by a read behind the end of a string, or not within
-- the rounds that it was given.
pub data Stop : Type 0 where
  exited fault running : Stop

-- `get_db` and `recycle_db` of one connection; every call keeps to its own, so they need no names.
pub data Program (A : Type 0) : Type 0 where
  done : A → Program A
  stop : Stop → Program A
  lease recycle : Program A → Program A
  query : Bytes → (Answer → Program A) → Program A

infixl 5 ◌>>=◌ ◌>>◌
abbrev pub ◌>>=◌ : {A B : Type 0} → Program A → (A → Program B) → Program B
done a >>= f = f a
stop s >>= f = stop s
lease p >>= f = lease (p >>= f)
recycle p >>= f = recycle (p >>= f)
query s k >>= f = query s (λ a. k a >>= f)

abbrev pub ◌>>◌ : {B : Type 0} → Program (Unit {0}) → Program B → Program B
m >> k = m >>= λ _. k

abbrev pub get_db : Program (Unit {0})
get_db = lease (done tt)

abbrev pub recycle_db : Program (Unit {0})
recycle_db = recycle (done tt)

-- `maria_real_query`, and `mysql_store_result` where the code calls it.
abbrev pub maria_real_query : Bytes → Program Answer
maria_real_query statement = query statement done

-- A statement whose answer the code does not look at.
abbrev pub send : Bytes → Program (Unit {0})
send statement = query statement (λ _. done tt)

abbrev pub is_failed : Answer → Bool
is_failed failed = true
is_failed _ = false

-- `row[i]`; the server sends as many columns as are selected.
abbrev pub column : ℕ → List Bytes → Bytes
column i [] = []
column zero (c ∷ cs) = c
column (suc i) (c ∷ cs) = column i cs
