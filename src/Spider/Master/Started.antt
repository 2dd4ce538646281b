-- ===== src/Spider/Master/Started.antt =====
-- What `master` has started.
use amigao.Base.{
  ℕ, zero, suc, false, List, [], ◌∷◌, Option, none, some, ◌≡◌, ◌≢◌, refl, inl, inr, arith, ◌==◌,
  ◌≤◌, if◌then◌else◌, Bool-cases, length, Bytes,
}
use amigao.Spider.Master.{Database}
use amigao.Spider.Master.Start.{
  argument, Child, System, exited, fault, start, Settings, worker_settings,
}

-- The i-th `vfork` gives an id, for every i.
abbrev pub Forks : (ℕ → Option ℕ) → Type 0
Forks vfork = (i : ℕ) → (pid : ℕ) × (vfork i ≡ some pid)

argument-none : (i : ℕ) (argv : List Bytes) → length argv ≤ i → argument i argv ≡ none
argument-none i [] h = refl
argument-none zero (a ∷ more) h = absurd (omega arith)
argument-none (suc i) (a ∷ more) h = argument-none i more (omega arith)

-- `master` starts with seven arguments only: with six, which its own check lets through, it reads a null
-- pointer, and with any other number it exits.
pub start_refused :
    (sys : System) (db : Database) (workers : ℕ) (argv : List Bytes)
    → length argv ≢ 7
    → start sys db workers argv ≡ (if length argv == 6 then fault else exited)
unfolding start
start_refused sys db workers argv other = elim (Bool-cases (length argv == 6)) [
  | inl six ↦ let null = argument-none 6 argv (ground arith) in rw (six, start) (rw null refl)
  | inr many ↦
      let not_seven : (length argv == 7) ≡ false = ground arith in rw (many, start) (rw not_seven)
]

-- The arguments that a child is started with.
abbrev pub argv_of : Bytes → Settings → List Bytes
argv_of name settings =
    name ∷ settings.db_conf_path ∷ settings.read_url ∷ settings.write_url
    ∷ settings.cppjieba_conf_path ∷ []

-- The child is the program at `path`, under the name `name`, and reads the settings out of its arguments.
abbrev pub RunsWith : Bytes → Bytes → Settings → Child → Type 0
RunsWith path name settings c =
    (c.path ≡ path) × (c.argv ≡ argv_of name settings) × (worker_settings c.argv ≡ some settings)
