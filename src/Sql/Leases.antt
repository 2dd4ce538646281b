-- ===== src/Sql/Leases.antt =====
-- The connections that the operations hold.
pub mod DictLeases
use amigao.Base.{
  ℕ, zero, suc, ◌+◌, ◌-◌, ◌<◌, Bool, true, false, ◌||◌, List, [], ◌∷◌, Option, none, some, ◌≡◌,
  refl, arith, inl, inr, ltb, if◌then◌else◌, Bool-cases, Option-cases, length, Bytes,
}
use amigao.Codec.{crypt, decrypt}
use amigao.Info.{ℤ, pos}
use amigao.Sql.Program.{
  Answer, failed, no_result, rows, Stop, Program, done, stop, lease, recycle, query, ◌>>=◌, ◌>>◌,
  is_failed, column,
}
use amigao.Sql.Urls
use amigao.Sql.Urls.{
  is_refused, send_within, if_exist, op_website_nice, op_visited_url, find_url_no, get_url_no,
  get_website_nice, init_max_insert, least_nice,
}

-- Started with `held` connections, the program leases none while it holds `limit`, queries and gives back
-- only while it holds one, and ends with `end` of them, whatever the server answers.
abbrev pub Holds : {A : Type 0} → ℕ → ℕ → ℕ → Program A → Type 0
Holds limit end held (done a) = held ≡ end
Holds limit end held (stop s) = Unit
Holds limit end held (lease p) = (held < limit) × Holds limit end (suc held) p
Holds limit end held (recycle p) = (0 < held) × Holds limit end (held - 1) p
Holds limit end held (query s k) = (0 < held) × ((a : Answer) → Holds limit end held (k a))

pub Holds-bind :
    {A B : Type 0} (limit mid end held : ℕ) (p : Program A) (f : A → Program B)
    → Holds limit mid held p
    → ((a : A) → Holds limit end mid (f a))
    → Holds limit end held (p >>= f)
Holds-bind limit mid end held (done a) f h k = rw h (k a)
Holds-bind limit mid end held (stop s) f h k = tt
Holds-bind limit mid end held (lease p) f h k = (h.0, Holds-bind limit mid end (suc held) p f h.1 k)
Holds-bind limit mid end held (recycle p) f h k =
    (h.0, Holds-bind limit mid end (held - 1) p f h.1 k)
Holds-bind limit mid end held (query s g) f h k =
    (h.0, λ a. Holds-bind limit mid end held (g a) f (h.1 a) k)

pub guarded :
    {A : Type 0} (b : Bool) (a : A) (p : Program A)
    → Holds 3 0 0 p
    → Holds 3 0 0 (if b then done a else p)
guarded true a p h = refl
guarded false a p h = h

pub if_exist-Holds :
    (held : ℕ) (select from column value : Bytes)
    → held < 3
    → Holds 3 held held (if_exist select from column value)
unfolding if_exist
if_exist-Holds held select from column value h = (h, (omega arith, λ a. (omega arith, omega arith)))

pub op_website_nice-Holds : (url nice : Bytes) → Holds 3 0 0 (op_website_nice url nice)
unfolding op_website_nice
op_website_nice-Holds url nice = ground arith

pub init_max_insert-Holds :
    (atol : Bytes → ℕ) (workers : ℕ) → Holds 3 0 0 (init_max_insert atol workers)
unfolding init_max_insert
init_max_insert-Holds atol workers = ground arith

pub op_visited_url-Holds :
    (max_insert : ℕ) (url title contents html : Bytes)
    → Holds 3 0 0 (op_visited_url max_insert url title contents html)
unfolding op_visited_url
op_visited_url-Holds max_insert url title contents html = ground arith

module _ (extract_unsigned : Bytes → Bytes × ℕ) (extract : Bytes → Bytes × ℤ) where
  pub first_no-Holds : (a : Answer) → Holds 3 0 1 (Urls.first_no extract_unsigned extract a)
  first_no-Holds failed = (omega arith, refl)
  first_no-Holds no_result = (omega arith, refl)
  first_no-Holds (rows []) = (omega arith, refl)
  first_no-Holds (rows (row ∷ more)) = elim (Option-cases (decrypt (column 0 row))) [
    | inl fault ↦ rw (fault, Holds) tt
    | inr (text, got) ↦ rw (got, Holds) (omega arith, refl)
  ]

  pub find_url_no-Holds :
      (rounds : ℕ) (url : Bytes) → Holds 3 0 1 (find_url_no extract_unsigned extract rounds url)
  unfolding find_url_no
  find_url_no-Holds zero url = tt
  find_url_no-Holds (suc rounds) url =
      let next : Holds 3 0 1 (find_url_no extract_unsigned extract rounds url) =
        find_url_no-Holds rounds url in
      grind (arith, first_no-Holds)

  pub get_url_no-Holds :
      (rounds : ℕ) (url : Bytes) → Holds 3 0 0 (get_url_no extract_unsigned extract rounds url)
  unfolding get_url_no
  get_url_no-Holds rounds url = ground (arith, find_url_no-Holds rounds (crypt url))

  pub nice_of-Holds : (a : Answer) → Holds 3 0 1 (Urls.nice_of extract_unsigned extract a)
  nice_of-Holds failed = (omega arith, refl)
  nice_of-Holds no_result = (omega arith, refl)
  nice_of-Holds (rows more) =
      elim (Option-cases (least_nice extract_unsigned extract [] (pos 10) more)) [
        | inl fault ↦ rw (fault, Holds) tt
        | inr (ret, got) ↦ rw (got, Holds) (omega arith, refl)
      ]

  pub get_website_nice-Holds :
      (url : Bytes) → Holds 3 0 0 (get_website_nice extract_unsigned extract url)
  unfolding get_website_nice
  get_website_nice-Holds url = grind (arith, nice_of-Holds)
