-- ===== src/Search/Ranking/Sorted.antt =====
-- The order of the urls that are ranked.
use mathlib.Core.Path.{subst}
use amigao.Base.{
  ℕ, zero, suc, ◌+◌, ◌-◌, ◌/◌, ◌≤◌, ◌<◌, ◌≡◌, refl, ap, sym, ◌∙◌, inl, inr, arith, false, ltb, ◌==◌,
  Bool-cases,
}
use amigao.Search.Ranking.{swap, sink, create_heap, heap_sort1, sort_from, rank}
use amigao.Search.Ranking.Permuted.{IsPermuted, heap_sort1-IsPermuted, rank-IsPermuted}
use amigao.Search.Ranking.Heap.{
  by_values, same_or, parent, IsHeapFrom, sink-IsHeapFrom, sink_outside, IsHeapFrom-less,
  create_heap-IsHeapFrom, root_heaviest, swap-first, swap-other,
}

module _ (weight : ℕ → ℕ) where
  -- From `start` on, every entry is at least as heavy as all in front of it.
  abbrev pub IsSortedFrom : ℕ → ℕ → (ℕ → ℕ) → Type 0
  IsSortedFrom start end arr =
      (j k : ℕ) → j ≤ k → start ≤ k → k ≤ end → weight (arr j) ≤ weight (arr k)

  heap_sort1-suc :
      (t : ℕ) (arr : ℕ → ℕ)
      → heap_sort1 weight (suc t) arr ≡ sink weight (suc t) (suc t) 0 (swap (suc t) 0 arr)
  unfolding heap_sort1
  heap_sort1-suc t arr = let more : (suc t == 0) ≡ false = ground arith in rw (heap_sort1, more)

  heap_sort1-last : (tail : ℕ) (arr : ℕ → ℕ) → heap_sort1 weight tail arr tail ≡ arr 0
  unfolding heap_sort1
  heap_sort1-last zero arr = refl
  heap_sort1-last (suc t) arr =
      ap (λ f. f (suc t)) (heap_sort1-suc t arr)
      ∙ sink_outside weight (suc t) (suc t) 0 (swap (suc t) 0 arr) (suc t) (omega arith)
      ∙ swap-first (suc t) 0 arr

  heap_sort1_outside :
      (tail : ℕ) (arr : ℕ → ℕ) (k : ℕ) → tail < k → heap_sort1 weight tail arr k ≡ arr k
  unfolding heap_sort1
  heap_sort1_outside zero arr k h = refl
  heap_sort1_outside (suc t) arr k h =
      ap (λ f. f k) (heap_sort1-suc t arr)
      ∙ sink_outside weight (suc t) (suc t) 0 (swap (suc t) 0 arr) k (omega arith)
      ∙ swap-other (suc t) 0 k arr (ground arith) (ground arith)

  heap_sort1-IsHeapFrom :
      (tail : ℕ) (arr : ℕ → ℕ)
      → IsHeapFrom weight 0 (tail + 1) arr
      → IsHeapFrom weight 0 tail (heap_sort1 weight tail arr)
  heap_sort1-IsHeapFrom zero arr h = λ c p i l. absurd (omega arith)
  heap_sort1-IsHeapFrom (suc t) arr h =
      subst (IsHeapFrom weight 0 (suc t)) (sym (heap_sort1-suc t arr)) (
        sink-IsHeapFrom weight (suc t) 0 (suc t) 0 (swap (suc t) 0 arr) (omega arith) (
          IsHeapFrom-less weight 0 (suc t) (swap (suc t) 0 arr) λ c p i l.
            by_values weight (swap-other (suc t) 0 c arr (ground arith) (ground arith))
              (swap-other (suc t) 0 (parent c) arr (ground arith) (ground arith))
              (h c p (omega arith) (omega arith))))

  heap_sort1-IsSortedFrom :
      (tail end : ℕ) (arr : ℕ → ℕ)
      → IsHeapFrom weight 0 (tail + 1) arr
      → IsSortedFrom (tail + 1) end arr
      → IsSortedFrom tail end (heap_sort1 weight tail arr)
  heap_sort1-IsSortedFrom tail end arr h s j k l t e =
      let p = heap_sort1-IsPermuted weight (tail + 1) tail arr (omega arith) in
      elim (same_or k tail) [
        | inl last ↦
            by_values weight (p.same j)
              (ap (heap_sort1 weight tail arr) last ∙ heap_sort1-last tail arr)
              (root_heaviest weight (tail + 1) (tail + 1) arr h (p.place j)
                (omega (arith, p.within j)) (omega (arith, p.within j)))
        | inr behind ↦ elim (Bool-cases (ltb tail j)) [
          | inl above ↦
              by_values weight (heap_sort1_outside tail arr j (ground arith))
                (heap_sort1_outside tail arr k (ground arith)) (s j k l (ground arith) e)
          | inr below ↦
              let inside : p.place j < tail + 1 = p.within j (ground arith) in
              let over : tail < k = ground arith in
              by_values weight (p.same j) (heap_sort1_outside tail arr k over)
                (s (p.place j) k (omega arith) (omega arith) e)
        ]
      ]

  sort_from-IsSortedFrom :
      (n i end : ℕ) (arr : ℕ → ℕ)
      → i + n ≤ end + 1
      → IsHeapFrom weight 0 (end + 1 - i) arr
      → IsSortedFrom (end + 1 - i) end arr
      → IsSortedFrom (end + 1 - (i + n)) end (sort_from weight n i end arr)
  unfolding sort_from
  sort_from-IsSortedFrom zero i end arr b h s = λ j k l t e. s j k l (omega arith) e
  sort_from-IsSortedFrom (suc n) i end arr b h s =
      let heap : IsHeapFrom weight 0 (end - i + 1) arr = λ c p m l. h c p (omega arith) l in
      let sorted : IsSortedFrom (end - i + 1) end arr = λ j k l t e. s j k l (omega arith) e in
      let heap' = heap_sort1-IsHeapFrom (end - i) arr heap in
      let sorted' = heap_sort1-IsSortedFrom (end - i) end arr heap sorted in
      λ j k l t e.
        sort_from-IsSortedFrom n (i + 1) end (heap_sort1 weight (end - i) arr) (omega arith)
          (λ c p m o. heap' c p (omega arith) o) (λ j k l t e. sorted' j k l (omega arith) e) j k l
          (omega arith) e

  -- The heap sort of the search, whatever the weights, only exchanges the urls of the array among
  -- themselves, and every url from the place `end - end_sub` on, where the pages up to the wanted one are
  -- taken from, is at least as heavy as all in front of it.
  pub rank-IsSortedFrom :
      (end end_sub : ℕ) (urlno_arr : ℕ → ℕ)
      → end_sub ≤ end
      → IsPermuted (end + 1) urlno_arr (rank weight end end_sub urlno_arr)
        × IsSortedFrom (end - end_sub) end (rank weight end end_sub urlno_arr)
  unfolding rank
  rank-IsSortedFrom end end_sub urlno_arr h = (
    rank-IsPermuted weight end end_sub urlno_arr,
    λ j k l t e.
        let heap =
          create_heap-IsHeapFrom weight (end / 2) end urlno_arr (λ c p i o. absurd (omega arith)) in
        sort_from-IsSortedFrom (end_sub + 1) 0 end (create_heap weight (end / 2) end urlno_arr)
          (omega arith) (λ c p i o. heap c p (omega arith) o) (λ j k l t e. absurd (omega arith)) j
          k l (omega arith) e,
  )
