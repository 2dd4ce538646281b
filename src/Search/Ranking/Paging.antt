-- ===== src/Search/Ranking/Paging.antt =====
-- The places of a page.
use mathlib.Core.Option.{some-injective}
use amigao.Base.{
  ℕ, ◌+◌, ◌-◌, ◌*◌, ◌≤◌, ◌<◌, false, ◌||◌, some, ◌≡◌, ◌⊎◌, ap, inl, inr, arith, ltb, ◌==◌,
  if◌then◌else◌, Bool-cases,
}
use amigao.Search.Ranking.{paging, max_results_per_page, default_results_per_page}

abbrev results_of : ℕ → ℕ
results_of r = if ltb r 1 || ltb max_results_per_page r then default_results_per_page else r

abbrev end_of : ℕ → ℕ → ℕ → ℕ
end_of total start results =
    if ltb (total - 1) (start + results - 1) then total - 1 else start + results - 1

results_of_within : (r : ℕ) → (0 < results_of r) × (results_of r ≤ max_results_per_page)
results_of_within r = (ground arith, ground arith)

end_of_within :
    (total start results : ℕ)
    → 0 < total
    → start ≤ end_of total start results
    → (end_of total start results < total)
      × (end_of total start results < start + results ⊎ (results ≡ 0))
end_of_within total start results h k = (ground arith, ground arith)

spread :
    (a b total n : ℕ)
    → ltb b a ≡ false
    → b < total
    → b < a + n ⊎ (n ≡ 0)
    → 0 < n
    → n ≤ max_results_per_page
    → (a ≤ b) × (b < total) × (b - a < max_results_per_page)
spread a b total n h less (inl near) pos le = (ground arith, less, ground arith)
spread a b total n h less (inr none_left) pos le = absurd (omega arith)

-- Whatever page is asked for, with however many results, a page that is not refused has at least one
-- place, at most `MAX_RESULTS_PER_PAGE` places, and all of them among the urls that were found.
pub paging_within :
    (total start_page results_per_page : ℕ) {start_sub end_sub pages : ℕ}
    → paging total start_page results_per_page ≡ some (start_sub, end_sub, pages)
    → (start_sub ≤ end_sub) × (end_sub < total) × (end_sub - start_sub < max_results_per_page)
unfolding paging
paging_within total start_page results_per_page {start_sub} {end_sub} e =
    elim (Bool-cases (total == 0)) [
      | inl nothing ↦ cc (rw nothing at e)
      | inr found ↦ elim (Bool-cases (ltb last first)) [
        | inl over ↦ cc (rw over at (rw found at e))
        | inr on ↦
            let same = some-injective _ _ (rw on at (rw found at e)) in
            let first_is : first ≡ start_sub = ap (λ x. x.0) same in
            let last_is : last ≡ end_sub = ap (λ x. x.1) same in
            let r = results_of_within results_per_page in
            let h =
              end_of_within total first (results_of results_per_page) (ground arith)
                (ground arith) in
            rw (← first_is, ← last_is)
              (spread first last total (results_of results_per_page) on h.0 h.1 r.0 r.1)
      ]
    ]
  where
    first : ℕ
    first = ((if ltb start_page 1 then 1 else start_page) - 1) * results_of results_per_page

    last : ℕ
    last = end_of total first (results_of results_per_page)
