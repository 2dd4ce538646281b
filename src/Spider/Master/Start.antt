-- ===== src/Spider/Master/Start.antt =====
-- The start of `master` (src/spider/master.cc), up to its children, and the arguments that these read.
use amigao.Base.{
  ℕ, zero, suc, ◌+◌, Bool, not, ◌&&◌, ◌||◌, List, [], ◌∷◌, ◌++◌, Option, none, some, ltb, ◌==◌,
  if◌then◌else◌, length, Bytes, codes,
}
use amigao.Spider.Master.{Database, cleared, fill}
use amigao.Spider.Queue.{UrlQueue}
use amigao.Values.{url_nums, html_nums}

-- `argv[i]`; behind the last argument it is a null pointer.
abbrev pub argument : ℕ → List Bytes → Option Bytes
argument i [] = none
argument zero (a ∷ more) = some a
argument (suc i) (a ∷ more) = argument i more

-- A child process: its id, its program and its arguments.
pub record Child : Type 0 where
  pub pid : ℕ
  pub path : Bytes
  pub argv : List Bytes

-- What the system answers: whether the calls for the shared memory and the signals succeed, the lines of a
-- file (`none` where it cannot be opened), and the id that the i-th `vfork` gives (`none` is an error).
pub record System : Type 0 where
  pub shmget : Bool
  pub shmat : Bool
  pub signals : Bool
  pub read_lines : Bytes → Option (List Bytes)
  pub vfork : ℕ → Option ℕ

-- How the start ends: by `exit(1)`, by a read of a null pointer or out of a string, or with the ring of urls
-- and the children.
pub data Start : Type 0 where
  exited fault : Start
  started : UrlQueue → List Child → Start

-- One of the two loops over the workers, from the i-th `vfork` on.
unfoldable pub fork_all : (ℕ → Option ℕ) → ℕ → ℕ → Bytes → List Bytes → Option (List Child)
fork_all vfork i zero path argv = some []
fork_all vfork i (suc n) path argv = elim (vfork i) [
  | none ↦ none
  | some pid ↦ elim (fork_all vfork (i + 1) n path argv) [
    | none ↦ none
    | some children ↦ some (record { pid = pid; path = path; argv = argv } ∷ children)
  ]
]

-- Both loops; the arguments differ in the name of the program.
unfoldable pub fork_workers : (ℕ → Option ℕ) → ℕ → List Bytes → Option (List Child × List Child)
unfolding fork_all
fork_workers vfork workers argv =
    elim (fork_all vfork 0 workers (codes "./crawl_worker") (codes "crawl_worker" ∷ argv)) [
      | none ↦ none
      | some crawlers ↦
          elim (fork_all vfork workers workers (codes "./parse_worker")
            (codes "parse_worker" ∷ argv)) [ none ↦ none | some parsers ↦ some (crawlers, parsers) ]
    ]

-- The filling of the ring, which only seven arguments ask for.
unfoldable pub fill_from : Database → Option (List Bytes) → Option UrlQueue
unfolding fill
fill_from db none = some cleared
fill_from db (some lines) = fill db lines cleared

-- The arguments of a worker; none of them can be null where `argc` is 7.
abbrev pub worker_argv :
    Option Bytes → Option Bytes → Option Bytes → Option Bytes → Option (List Bytes)
worker_argv (some db_conf_path) (some read_url) (some write_url) (some cppjieba_conf_path) =
    some (db_conf_path ∷ read_url ∷ write_url ∷ cppjieba_conf_path ∷ [])
worker_argv _ _ _ _ = none

-- From the shared memory on, where a start file is given.
unfoldable pub launch : System → Database → ℕ → Option (List Bytes) → List Bytes → Start
unfolding fill_from fork_workers
launch sys db workers lines argv =
    if not (sys.shmget && sys.shmat && sys.signals) then exited else elim (fill_from db lines) [
      | none ↦ fault
      | some ring ↦ elim (fork_workers sys.vfork workers argv) [
        | none ↦ exited
        | some (crawlers, parsers) ↦ started ring (crawlers ++ parsers)
      ]
    ]

-- `argc > 6` picks the arguments. The path of the time, `argv[6]`, is read whatever `argc` is.
unfoldable pub start : System → Database → ℕ → List Bytes → Start
unfolding launch
start sys db workers argv =
    let argc = length argv in
    let seven = ltb 6 argc in
    let read_url = argument (if seven then 3 else 2) argv in
    let write_url = argument (if seven then 4 else 3) argv in
    let cppjieba_conf_path = argument (if seven then 5 else 4) argv in
    let start_url = if seven then argument 2 argv else none in
    let lines : Option (List Bytes) = elim start_url [
      | none ↦ none
      | some path ↦ sys.read_lines path
    ] in
    if not (argc == 6) && not (argc == 7)
    then exited
    else if ltb url_nums 2 || ltb html_nums 2
    then exited
    else elim (argument 6 argv) [
      | none ↦ fault
      | some time_path ↦
          elim (worker_argv (argument 1 argv) read_url write_url cppjieba_conf_path) [
            | none ↦ fault
            | some worker_args ↦ launch sys db workers lines worker_args
          ]
    ]

-- What `main` of a worker makes of its arguments; `none` is `exit(1)`.
pub record Settings : Type 0 where
  pub db_conf_path : Bytes
  pub read_url : Bytes
  pub write_url : Bytes
  pub cppjieba_conf_path : Bytes

unfoldable pub worker_settings : List Bytes → Option Settings
worker_settings (name ∷ db_conf_path ∷ read_url ∷ write_url ∷ cppjieba_conf_path ∷ []) =
    some (record {
      db_conf_path = db_conf_path;
      read_url = read_url;
      write_url = write_url;
      cppjieba_conf_path = cppjieba_conf_path;
    })
worker_settings _ = none
