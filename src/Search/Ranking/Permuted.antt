-- ===== src/Search/Ranking/Permuted.antt =====
-- Ranking the urls loses and repeats none.
use amigao.Base.{
  ℕ, zero, suc, ◌+◌, ◌-◌, ◌*◌, ◌/◌, ◌≤◌, ◌<◌, not, ◌&&◌, ◌||◌, ◌≡◌, refl, ap, ◌∙◌, inl, inr, arith,
  ltb, ◌==◌, if◌then◌else◌, Bool-cases,
}
use amigao.Search.Ranking.{swap, heavier, sink, create_heap, heap_sort1, sort_from, rank}

-- `g` holds the entries of `f` in another order, those below `size` among themselves.
pub record IsPermuted (size : ℕ) (f g : ℕ → ℕ) : Type 0 where
  pub place : ℕ → ℕ
  pub back : ℕ → ℕ
  pub same : (k : ℕ) → g k ≡ f (place k)
  pub back-place : (k : ℕ) → back (place k) ≡ k
  pub place-back : (k : ℕ) → place (back k) ≡ k
  pub within : (k : ℕ) → k < size → place k < size

IsPermuted-refl : (size : ℕ) (f : ℕ → ℕ) → IsPermuted size f f
IsPermuted-refl size f = record {
  place = λ k. k;
  back = λ k. k;
  same = λ k. refl;
  back-place = λ k. refl;
  place-back = λ k. refl;
  within = λ k h. h;
}

IsPermuted-trans :
    {size : ℕ} {f g h : ℕ → ℕ} → IsPermuted size f g → IsPermuted size g h → IsPermuted size f h
IsPermuted-trans p q = record {
  place = λ k. p.place (q.place k);
  back = λ k. q.back (p.back k);
  same = λ k. q.same k ∙ p.same (q.place k);
  back-place = λ k. ap q.back (p.back-place (q.place k)) ∙ q.back-place k;
  place-back = λ k. ap p.place (q.place-back (p.back k)) ∙ p.place-back k;
  within = λ k h. p.within (q.place k) (q.within k h);
}

-- Where an entry comes from in an exchange.
abbrev exchange : ℕ → ℕ → ℕ → ℕ
exchange i j k = if k == i then j else if k == j then i else k

exchange-exchange : (i j k : ℕ) → exchange i j (exchange i j k) ≡ k
exchange-exchange i j k = ground arith

exchange_within : (i j size k : ℕ) → i < size → j < size → k < size → exchange i j k < size
exchange_within i j size k hi hj hk = ground arith

swap-exchange : (i j : ℕ) (f : ℕ → ℕ) (k : ℕ) → swap i j f k ≡ f (exchange i j k)
swap-exchange i j f k = elim (Bool-cases (k == i)) [
  | inl hit ↦ rw hit
  | inr miss ↦ elim (Bool-cases (k == j)) [
    | inl hit ↦ rw (miss, hit)
    | inr miss' ↦ rw (miss, miss')
  ]
]

swap-IsPermuted : (size i j : ℕ) (f : ℕ → ℕ) → i < size → j < size → IsPermuted size f (swap i j f)
swap-IsPermuted size i j f hi hj = record {
  place = exchange i j;
  back = exchange i j;
  same = swap-exchange i j f;
  back-place = exchange-exchange i j;
  place-back = exchange-exchange i j;
  within = λ k h. exchange_within i j size k hi hj h;
}

module _ (weight : ℕ → ℕ) where
  heavier_within :
      (limit next rival : ℕ) (f : ℕ → ℕ) → next < limit → heavier weight limit f next rival < limit
  heavier_within limit next rival f h =
      elim (Bool-cases (ltb rival limit && ltb (weight (f next)) (weight (f rival)))) [
        | inl hit ↦ rw hit (ground arith)
        | inr miss ↦ rw miss h
      ]

  sink-IsPermuted :
      (size n limit q : ℕ) (f : ℕ → ℕ) → limit ≤ size → IsPermuted size f (sink weight n limit q f)
  unfolding sink
  sink-IsPermuted size zero limit q f h = IsPermuted-refl size f
  sink-IsPermuted size (suc n) limit q f h =
      let next = heavier weight limit f (heavier weight limit f q (q * 2 + 1)) (q * 2 + 2) in
      elim (Bool-cases (not (ltb q limit) || next == q)) [
        | inl stop ↦ rw stop (IsPermuted-refl size f)
        | inr on ↦
            let inside : q < limit = ground arith in
            let below =
              heavier_within limit (heavier weight limit f q (q * 2 + 1)) (q * 2 + 2) f
                (heavier_within limit q (q * 2 + 1) f inside) in
            rw on (
              IsPermuted-trans (swap-IsPermuted size q next f (omega arith) (omega arith))
                (sink-IsPermuted size n limit next (swap q next f) h))
      ]

  create_heap-IsPermuted :
      (p end : ℕ) (f : ℕ → ℕ) → IsPermuted (end + 1) f (create_heap weight p end f)
  unfolding create_heap
  create_heap-IsPermuted zero end f =
      sink-IsPermuted (end + 1) (end + 1) (end + 1) 0 f (omega arith)
  create_heap-IsPermuted (suc p) end f =
      IsPermuted-trans (sink-IsPermuted (end + 1) (end + 1) (end + 1) (suc p) f (omega arith))
        (create_heap-IsPermuted p end (sink weight (end + 1) (end + 1) (suc p) f))

  pub heap_sort1-IsPermuted :
      (size tail : ℕ) (f : ℕ → ℕ) → tail < size → IsPermuted size f (heap_sort1 weight tail f)
  unfolding heap_sort1
  heap_sort1-IsPermuted size tail f h = elim (Bool-cases (tail == 0)) [
    | inl done ↦ rw done (IsPermuted-refl size f)
    | inr on ↦ rw on (
        IsPermuted-trans (swap-IsPermuted size tail 0 f h (omega arith))
          (sink-IsPermuted size tail tail 0 (swap tail 0 f) (omega arith)))
  ]

  sort_from-IsPermuted :
      (n i end : ℕ) (f : ℕ → ℕ) → IsPermuted (end + 1) f (sort_from weight n i end f)
  unfolding sort_from
  sort_from-IsPermuted zero i end f = IsPermuted-refl (end + 1) f
  sort_from-IsPermuted (suc n) i end f =
      IsPermuted-trans (heap_sort1-IsPermuted (end + 1) (end - i) f (omega arith))
        (sort_from-IsPermuted n (i + 1) end (heap_sort1 weight (end - i) f))

  -- The heap sort of the search, whatever the weights and as far as it goes, only exchanges the urls of
  -- the array among themselves: none is lost, none is repeated, and none comes from outside.
  pub rank-IsPermuted :
      (end end_sub : ℕ) (urlno_arr : ℕ → ℕ)
      → IsPermuted (end + 1) urlno_arr (rank weight end end_sub urlno_arr)
  unfolding rank
  rank-IsPermuted end end_sub urlno_arr =
      IsPermuted-trans (create_heap-IsPermuted (end / 2) end urlno_arr)
        (sort_from-IsPermuted (end_sub + 1) 0 end (create_heap weight (end / 2) end urlno_arr))
