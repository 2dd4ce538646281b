-- ===== src/Sql/Answered.antt =====
-- Runs of a program over the database against a server.
use amigao.Base.{ℕ, suc, List, [], ◌∷◌, Option, none, some, ◌≡◌, refl, Bytes}
use amigao.Sql.Program.{Answer, rows, Program, done, stop, lease, recycle, query}

abbrev pub Row : Type 0
Row = List Bytes

-- The rows that the server has sent, the latest first.
abbrev pub onto : List Row → List Row → List Row
onto [] seen = seen
onto (row ∷ more) seen = onto more (row ∷ seen)

abbrev pub rows_in : Answer → List Row
rows_in (rows more) = more
rows_in _ = []

-- A run against a server whose answers may depend on how many statements it has answered: the rows that it
-- has sent, and the result.
abbrev pub run :
    {A : Type 0} → (ℕ → Bytes → Answer) → ℕ → List Row → Program A → Option (List Row × A)
run server i seen (done a) = some (seen, a)
run server i seen (stop s) = none
run server i seen (lease p) = run server i seen p
run server i seen (recycle p) = run server i seen p
run server i seen (query s k) =
    run server (suc i) (onto (rows_in (server i s)) seen) (k (server i s))

-- Under honest answers the program comes to a result, and what holds of it and of the rows.
abbrev pub Ends :
    {A : Type 0} → (List Row → A → Type 0) → (Answer → Type 0) → List Row → Program A → Type 0
Ends P Honest seen (done a) = P seen a
Ends P Honest seen (stop s) = ⊥
Ends P Honest seen (lease p) = Ends P Honest seen p
Ends P Honest seen (recycle p) = Ends P Honest seen p
Ends P Honest seen (query s k) =
    (a : Answer) → Honest a → Ends P Honest (onto (rows_in a) seen) (k a)

pub Ends-run :
    {A : Type 0} (P : List Row → A → Type 0) (Honest : Answer → Type 0)
    (server : ℕ → Bytes → Answer) (i : ℕ) (seen : List Row) (p : Program A)
    → ((j : ℕ) (s : Bytes) → Honest (server j s))
    → Ends P Honest seen p
    → (sent : List Row) × (a : A) × (run server i seen p ≡ some (sent, a)) × P sent a
Ends-run P Honest server i seen (done a) h e = (seen, a, refl, e)
Ends-run P Honest server i seen (stop s) h e = elim e [ ]
Ends-run P Honest server i seen (lease p) h e = Ends-run P Honest server i seen p h e
Ends-run P Honest server i seen (recycle p) h e = Ends-run P Honest server i seen p h e
Ends-run P Honest server i seen (query s k) h e =
    Ends-run P Honest server (suc i) (onto (rows_in (server i s)) seen) (k (server i s)) h
      (e (server i s) (h i s))
