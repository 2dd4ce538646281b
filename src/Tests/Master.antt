-- ===== src/Tests/Master.antt =====
-- `master` with one worker of either kind, and with six arguments.
use amigao.Base.{◌+◌, true, false, List, [], ◌∷◌, some, ◌≡◌, arith, Bytes, codes}
use amigao.Spider.Master.{Database}
use amigao.Spider.Master.Start.{System, start, fault, Settings}
use amigao.Spider.Master.Started.{start_refused}

abbrev sys : System
sys = record {
  shmget = true;
  shmat = true;
  signals = true;
  read_lines = λ path. some (codes "http://A.b/" ∷ []);
  vfork = λ i. some (i + 100);
}

abbrev database : Database
database = record { get_website_nice = λ _. 1; if_visited = λ _. false }

abbrev settings : Settings
settings = record {
  db_conf_path = codes "db.ini";
  read_url = codes "in";
  write_url = codes "out";
  cppjieba_conf_path = codes "jieba.ini";
}

abbrev six : List Bytes
six =
    codes "master"
    ∷ codes "db.ini"
    ∷ codes "in"
    ∷ codes "out"
    ∷ codes "jieba.ini"
    ∷ codes "time"
    ∷ []

refused : start sys database 1 six ≡ fault
refused = start_refused sys database 1 six (omega arith)
