-- ===== src/Search/Ranking/Heap.antt =====
-- The order of the heap, in the inner loops of the ranking.
use mathlib.Core.Path.{subst}
use amigao.Base.{
  sym, ℕ, zero, suc, ◌+◌, ◌-◌, ◌*◌, ◌/◌, ◌≤◌, ◌<◌, not, ◌||◌, ◌≡◌, ◌≢◌, ◌⊎◌, refl, ap, ◌∙◌, inl,
  inr, arith, true, false, ltb, ◌==◌, Bool-cases,
}
use amigao.Search.Ranking.{swap, heavier, sink, create_heap}

abbrev pub parent : ℕ → ℕ
parent c = (c - 1) / 2

child_cases : (c q : ℕ) → 0 < c → parent c ≡ q → (c ≡ q * 2 + 1) ⊎ (c ≡ q * 2 + 2)
child_cases c q p e = ground arith

pub same_or : (a b : ℕ) → (a ≡ b) ⊎ (a ≢ b)
same_or a b = ground arith

pub swap-first : (i j : ℕ) (f : ℕ → ℕ) → swap i j f i ≡ f j
swap-first i j f = let hit : (i == i) ≡ true = ground arith in rw hit

swap-second : (i j : ℕ) (f : ℕ → ℕ) → j ≢ i → swap i j f j ≡ f i
swap-second i j f h =
    let miss : (j == i) ≡ false = ground arith in
    let hit : (j == j) ≡ true = ground arith in rw (miss, hit)

pub swap-other : (i j k : ℕ) (f : ℕ → ℕ) → k ≢ i → k ≢ j → swap i j f k ≡ f k
swap-other i j k f h g =
    let miss : (k == i) ≡ false = ground arith in
    let miss' : (k == j) ≡ false = ground arith in rw (miss, miss')

module _ (weight : ℕ → ℕ) where
  -- From `lo` on, no entry among the first `size` is heavier than its parent.
  abbrev pub IsHeapFrom : ℕ → ℕ → (ℕ → ℕ) → Type 0
  IsHeapFrom lo size arr =
      (c : ℕ) → 0 < c → c < size → lo ≤ parent c → weight (arr c) ≤ weight (arr (parent c))

  -- The same but for the children of `q`, which are not heavier than its parent.
  pub record IsSinking (lo size q : ℕ) (arr : ℕ → ℕ) : Type 0 where
    edges :
        (c : ℕ)
        → 0 < c
        → c < size
        → lo ≤ parent c
        → parent c ≢ q
        → weight (arr c) ≤ weight (arr (parent c))
    bridged :
        (c : ℕ)
        → 0 < c
        → c < size
        → parent c ≡ q
        → 0 < q
        → lo ≤ parent q
        → weight (arr c) ≤ weight (arr (parent q))

  -- `next` is the heaviest of `q` and its children.
  pub record IsNext (size q : ℕ) (arr : ℕ → ℕ) (next : ℕ) : Type 0 where
    place :
        (next ≡ q)
        ⊎ ((next < size) × (0 < next) × (parent next ≡ q) × (weight (arr q) < weight (arr next)))
    heaviest : (c : ℕ) → 0 < c → c < size → parent c ≡ q → weight (arr c) ≤ weight (arr next)

  heavier_cases :
      (size next rival : ℕ) (arr : ℕ → ℕ)
      → ((heavier weight size arr next rival ≡ rival)
          × (rival < size)
          × (weight (arr next) < weight (arr rival)))
        ⊎ ((heavier weight size arr next rival ≡ next)
            × (rival < size → weight (arr rival) ≤ weight (arr next)))
  heavier_cases size next rival arr = ground arith

  -- Only the children of `q` have to be looked at.
  children :
      (size q m : ℕ) (arr : ℕ → ℕ)
      → (q * 2 + 1 < size → weight (arr (q * 2 + 1)) ≤ m)
      → (q * 2 + 2 < size → weight (arr (q * 2 + 2)) ≤ m)
      → (c : ℕ) → 0 < c
      → c < size
      → parent c ≡ q
      → weight (arr c) ≤ m
  children size q m arr left right c p h e = elim (child_cases c q p e) [
    | inl is_left ↦ rw is_left (left (omega arith))
    | inr is_right ↦ rw is_right (right (omega arith))
  ]

  heavier-IsNext :
      (size q : ℕ) (arr : ℕ → ℕ)
      → IsNext size q arr
          (heavier weight size arr (heavier weight size arr q (q * 2 + 1)) (q * 2 + 2))
  heavier-IsNext size q arr =
      let first = heavier weight size arr q (q * 2 + 1) in
      elim (heavier_cases size q (q * 2 + 1) arr) [
        | inl (e, inside, more) ↦ elim (heavier_cases size first (q * 2 + 2) arr) [
          | inl (f, within, above) ↦
              let over : weight (arr (q * 2 + 1)) < weight (arr (q * 2 + 2)) =
                subst (λ k. weight (arr k) < weight (arr (q * 2 + 2))) e above in
              subst (IsNext size q arr) (sym f) (record {
                place = inr (within, omega arith, omega arith, omega arith);
                heaviest =
                    children size q (weight (arr (q * 2 + 2))) arr (λ i. omega arith)
                      (λ i. omega arith);
              })
          | inr (f, less) ↦
              let under : q * 2 + 2 < size → weight (arr (q * 2 + 2)) ≤ weight (arr (q * 2 + 1)) =
                subst (λ k. q * 2 + 2 < size → weight (arr (q * 2 + 2)) ≤ weight (arr k)) e less in
              subst (IsNext size q arr) (sym (f ∙ e)) (record {
                place = inr (inside, omega arith, omega arith, more);
                heaviest = children size q (weight (arr (q * 2 + 1))) arr (λ i. omega arith) under;
              })
        ]
        | inr (e, smaller) ↦ elim (heavier_cases size first (q * 2 + 2) arr) [
          | inl (f, within, above) ↦
              let over : weight (arr q) < weight (arr (q * 2 + 2)) =
                subst (λ k. weight (arr k) < weight (arr (q * 2 + 2))) e above in
              subst (IsNext size q arr) (sym f) (record {
                place = inr (within, omega arith, omega arith, over);
                heaviest =
                    children size q (weight (arr (q * 2 + 2))) arr (λ i. ground arith)
                      (λ i. omega arith);
              })
          | inr (f, less) ↦
              let under : q * 2 + 2 < size → weight (arr (q * 2 + 2)) ≤ weight (arr q) =
                subst (λ k. q * 2 + 2 < size → weight (arr (q * 2 + 2)) ≤ weight (arr k)) e less in
              subst (IsNext size q arr) (sym (f ∙ e)) (record {
                place = inl refl;
                heaviest = children size q (weight (arr q)) arr smaller under;
              })
        ]
      ]

  pub by_values : {x y u v : ℕ} → x ≡ u → y ≡ v → weight u ≤ weight v → weight x ≤ weight y
  by_values e f h = rw (e, f) h

  swap-IsSinking :
      (lo size q next : ℕ) (arr : ℕ → ℕ)
      → q < size
      → IsSinking lo size q arr
      → IsNext size q arr next
      → next ≢ q
      → IsSinking lo size next (swap q next arr)
  swap-IsSinking lo size q next arr h s n moved = elim n.place [
    | inl same ↦ absurd (moved same)
    | inr (inside, positive, child, more) ↦ record {
      edges = λ c p i l t. elim (same_or c q) [
        | inl e ↦
            let above : parent c ≢ q = ground arith in
            by_values (ap (swap q next arr) e ∙ swap-first q next arr)
              (swap-other q next (parent c) arr above t)
              (subst (λ k. weight (arr next) ≤ weight (arr (parent k))) (sym e)
                (s.bridged next positive inside child (omega arith)
                  (subst (λ k. lo ≤ parent k) e l)))
        | inr other ↦ elim (same_or c next) [
          | inl e ↦
              by_values (ap (swap q next arr) e ∙ swap-second q next arr moved)
                (ap (swap q next arr) (ap parent e ∙ child) ∙ swap-first q next arr) (omega arith)
          | inr apart ↦ elim (same_or (parent c) q) [
            | inl e ↦
                by_values (swap-other q next c arr other apart)
                  (ap (swap q next arr) e ∙ swap-first q next arr) (n.heaviest c p i e)
            | inr above ↦
                by_values (swap-other q next c arr other apart)
                  (swap-other q next (parent c) arr above t) (s.edges c p i l above)
          ]
        ]
      ];
      bridged = λ c p i e t l.
          by_values (swap-other q next c arr (ground arith) (ground arith))
            (ap (swap q next arr) child ∙ swap-first q next arr)
            (subst (λ k. weight (arr c) ≤ weight (arr k)) e
              (s.edges c p i (ground arith) (λ f. moved (sym e ∙ f))));
    }
  ]

  further : (size q next : ℕ) (arr : ℕ → ℕ) → IsNext size q arr next → next ≢ q → q < next
  further size q next arr n moved = elim n.place [
    | inl same ↦ absurd (moved same)
    | inr (inside, positive, child, more) ↦ omega arith
  ]

  fuel_left : (n size q next : ℕ) → size ≤ suc n + q → q < next → size ≤ n + next
  fuel_left n size q next f m = omega arith

  settled : (size q next : ℕ) → (not (ltb q size) || next == q) ≡ true → (size ≤ q) ⊎ (next ≡ q)
  settled size q next stop = ground arith

  stopped :
      (lo size q next : ℕ) (arr : ℕ → ℕ)
      → IsSinking lo size q arr
      → IsNext size q arr next
      → (size ≤ q) ⊎ (next ≡ q)
      → IsHeapFrom lo size arr
  stopped lo size q next arr s n (inl out) c p i l = s.edges c p i l (ground arith)
  stopped lo size q next arr s n (inr same) c p i l = elim (same_or (parent c) q) [
    | inl e ↦ subst (λ k. weight (arr c) ≤ weight (arr k)) (same ∙ sym e) (n.heaviest c p i e)
    | inr other ↦ s.edges c p i l other
  ]

  -- The fuel reaches the end of the heap.
  pub sink-IsHeapFrom :
      (n lo size q : ℕ) (arr : ℕ → ℕ)
      → size ≤ n + q
      → IsSinking lo size q arr
      → IsHeapFrom lo size (sink weight n size q arr)
  unfolding sink
  sink-IsHeapFrom zero lo size q arr f s = λ c p i l. s.edges c p i l (ground arith)
  sink-IsHeapFrom (suc n) lo size q arr f s =
      let next = heavier weight size arr (heavier weight size arr q (q * 2 + 1)) (q * 2 + 2) in
      let heir = heavier-IsNext size q arr in
      elim (Bool-cases (not (ltb q size) || next == q)) [
        | inl stop ↦ rw stop (stopped lo size q next arr s heir (settled size q next (stop)))
        | inr on ↦
            let inside : q < size = ground arith in
            let moved : next ≢ q = ground arith in
            rw on (
              sink-IsHeapFrom n lo size next (swap q next arr)
                (fuel_left n size q next f (further size q next arr heir moved))
                (swap-IsSinking lo size q next arr inside s heir moved))
      ]

  beyond :
      (size q next k : ℕ) (arr : ℕ → ℕ) → IsNext size q arr next → next ≢ q → size ≤ k → k ≢ next
  beyond size q next k arr n moved h = elim n.place [
    | inl same ↦ absurd (moved same)
    | inr (inside, positive, child, more) ↦ ground arith
  ]

  -- Only the entries of the heap are moved.
  pub sink_outside :
      (n size q : ℕ) (arr : ℕ → ℕ) (k : ℕ) → size ≤ k → sink weight n size q arr k ≡ arr k
  unfolding sink
  sink_outside zero size q arr k h = refl
  sink_outside (suc n) size q arr k h =
      let next = heavier weight size arr (heavier weight size arr q (q * 2 + 1)) (q * 2 + 2) in
      let heir = heavier-IsNext size q arr in
      elim (Bool-cases (not (ltb q size) || next == q)) [
        | inl stop ↦ rw stop
        | inr on ↦
            let inside : q < size = ground arith in
            let moved : next ≢ q = ground arith in
            rw on (
              sink_outside n size next (swap q next arr) k h
              ∙ swap-other q next k arr (ground arith) (beyond size q next k arr heir moved h))
      ]

  pub IsHeapFrom-less :
      (lo size : ℕ) (arr : ℕ → ℕ) → IsHeapFrom (suc lo) size arr → IsSinking lo size lo arr
  IsHeapFrom-less lo size arr h = record {
    edges = λ c p i l t. h c p i (ground arith);
    bridged = λ c p i e t l. absurd (ground arith);
  }

  pub create_heap-IsHeapFrom :
      (p end : ℕ) (arr : ℕ → ℕ)
      → IsHeapFrom (suc p) (end + 1) arr
      → IsHeapFrom 0 (end + 1) (create_heap weight p end arr)
  unfolding create_heap
  create_heap-IsHeapFrom zero end arr h =
      sink-IsHeapFrom (end + 1) 0 (end + 1) 0 arr (omega arith) (IsHeapFrom-less 0 (end + 1) arr h)
  create_heap-IsHeapFrom (suc p) end arr h =
      create_heap-IsHeapFrom p end (sink weight (end + 1) (end + 1) (suc p) arr) (
        sink-IsHeapFrom (end + 1) (suc p) (end + 1) (suc p) arr (omega arith)
          (IsHeapFrom-less (suc p) (end + 1) arr h))

  -- The first entry of a heap is its heaviest.
  pub root_heaviest :
      (n size : ℕ) (arr : ℕ → ℕ)
      → IsHeapFrom 0 size arr
      → (k : ℕ) → k ≤ n
      → k < size
      → weight (arr k) ≤ weight (arr 0)
  root_heaviest zero size arr h zero l i = omega arith
  root_heaviest zero size arr h (suc k) l i = absurd (omega arith)
  root_heaviest (suc n) size arr h zero l i = omega arith
  root_heaviest (suc n) size arr h (suc k) l i =
      let edge = h (suc k) (omega arith) i (omega arith) in
      let above = root_heaviest n size arr h (parent (suc k)) (omega arith) (omega arith) in
      omega arith
