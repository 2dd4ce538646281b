-- ===== src/Info.antt =====
-- `DBInfo` (src/db/db_info.hpp): the settings of a connection pool, read from an ini file.
pub mod Limited
use amigao.Base.{
  ℕ, zero, suc, ◌+◌, ◌-◌, ◌%◌, ◌^◌, Bool, true, false, List, [], ◌∷◌, ◌++◌, Option, none, some, ltb,
  if◌then◌else◌, Bytes, codes,
}
use amigao.Pool.{Limits}
use amigao.Ini.{init_from_file, lookup}

-- `negsuc n` is -(n + 1).
pub data ℤ : Type 0 where
  pos negsuc : ℕ → ℤ

-- A number as a `short`, which keeps its last sixteen bits.
unfoldable pub short : ℕ → ℤ
short n = let bits = n % 2 ^ 16 in if ltb bits 32768 then pos bits else negsuc (65535 - bits)

-- `a < b`
abbrev pub less : ℤ → ℤ → Bool
less (pos a) (pos b) = ltb a b
less (pos a) (negsuc b) = false
less (negsuc a) (pos b) = true
less (negsuc a) (negsuc b) = ltb b a

-- `n + 1` on an `int`; at its largest value that is an overflow, which C++ leaves undefined.
unfoldable pub plus_one : ℤ → Option ℤ
plus_one (pos n) = if ltb n 2147483647 then some (pos (n + 1)) else none
plus_one (negsuc zero) = some (pos 0)
plus_one (negsuc (suc n)) = some (negsuc n)

pub record DbInfo : Type 0 where
  pub max_conn : ℤ
  pub max_idle : ℤ
  pub min_idle : ℤ
  pub sleep : ℤ
  pub host : Bytes
  pub user : Bytes
  pub passwd : Bytes
  pub db_name : Bytes
  pub unix_socket : Bytes
  pub client_flag : ℤ
  pub port : ℤ

abbrev pub defaults : DbInfo
defaults = record {
  max_conn = pos 100;
  max_idle = pos 30;
  min_idle = pos 3;
  sleep = pos 3;
  host = [];
  user = [];
  passwd = [];
  db_name = [];
  unix_socket = [];
  client_flag = pos 0;
  port = pos 3306;
}

-- The last tests: a setting out of its range is replaced.
unfoldable pub corrected : DbInfo → Option DbInfo
unfolding plus_one
corrected i =
    let min_idle = if less i.min_idle (pos 1) then pos 1 else i.min_idle in
    let raised = if less i.max_idle min_idle then plus_one min_idle else some i.max_idle in
    elim raised [
      | none ↦ none
      | some max_idle ↦ some (record i {
        min_idle = min_idle;
        max_idle = max_idle;
        max_conn = if less i.max_conn (pos 1) then pos 1 else i.max_conn;
        sleep = if less i.sleep (pos 0) then pos 3 else i.sleep;
      })
    ]

-- The limits as the pool uses them, once they are corrected and none is negative.
abbrev pub magnitude : ℤ → ℕ
magnitude (pos n) = n
magnitude (negsuc n) = 0

unfoldable pub limits_of : DbInfo → Limits
limits_of i = record {
  max_conn = magnitude i.max_conn;
  max_idle = magnitude i.max_idle;
  min_idle = magnitude i.min_idle;
}

-- A text setting that the file has takes its value.
abbrev text_of : List (Bytes × Bytes) → Bytes → Bytes → Bytes
text_of result key old = elim (lookup key result) [ none ↦ old | some text ↦ text ]

-- Reading a number out of a `stringstream` is the standard library's: from what the stream holds and
-- the variable's value, what the stream holds afterwards and the new value, for a signed and for an
-- unsigned variable.
module _ (extract extract_unsigned : Bytes → ℤ → Bytes × ℤ) where
  -- `ss << result[key]; ss >> variable; ss.clear();` where the file has the key. What the stream still
  -- holds stays in it.
  abbrev read_number :
      (Bytes → ℤ → Bytes × ℤ) → List (Bytes × Bytes) → Bytes → Bytes × ℤ → Bytes × ℤ
  read_number by result key (ss, old) = elim (lookup key result) [
    | none ↦ (ss, old)
    | some text ↦ by (ss ++ text) old
  ]

  unfoldable pub read_settings : List (Bytes × Bytes) → DbInfo → DbInfo
  read_settings r i =
      let max_conn = read_number extract r (codes "MAX_CONN") ([], i.max_conn) in
      let max_idle = read_number extract r (codes "MAX_IDLE") (max_conn.0, i.max_idle) in
      let min_idle = read_number extract r (codes "MIN_IDLE") (max_idle.0, i.min_idle) in
      let sleep = read_number extract r (codes "SLEEP") (min_idle.0, i.sleep) in
      let flag = read_number extract_unsigned r (codes "CLIENT_FLAG") (sleep.0, i.client_flag) in
      let port = read_number extract_unsigned r (codes "PORT") (flag.0, i.port) in
      record {
        max_conn = max_conn.1;
        max_idle = max_idle.1;
        min_idle = min_idle.1;
        sleep = sleep.1;
        host = text_of r (codes "HOST") i.host;
        user = text_of r (codes "USER") i.user;
        passwd = text_of r (codes "PASSWD") i.passwd;
        db_name = text_of r (codes "DB_NAME") i.db_name;
        unix_socket = text_of r (codes "UNIX_SOCKET") i.unix_socket;
        client_flag = flag.1;
        port = port.1;
      }

  -- On the lines of the file; a file that cannot be opened has none.
  unfoldable pub set_db_conf_path : List Bytes → Option DbInfo
  unfolding corrected read_settings
  set_db_conf_path lines = corrected (read_settings (init_from_file lines []) defaults)
