-- ===== src/Spider/Copies.antt =====
-- What is read back from a slot.
use amigao.Base.{
  ℕ, zero, suc, ◌+◌, ◌≤◌, ◌<◌, true, false, [], ◌∷◌, ◌≡◌, ◌≢◌, refl, ap, ◌∙◌, inl, inr, arith, ltb,
  ◌==◌, ==_iff, Bool-cases, length, take, All, Bytes,
}
use amigao.Spider.Slots.{set, write_from, read_from}

-- A byte that ends no string.
abbrev pub IsChar : ℕ → Type 0
IsChar c = c ≢ 0

-- Bytes below the start stay.
pub write_from-below :
    (size i j : ℕ) (s : Bytes) (slot : ℕ → ℕ) → j < i → write_from size i s slot j ≡ slot j
unfolding write_from
write_from-below size i j [] slot h = ground arith
write_from-below size i j (c ∷ cs) slot h = elim (Bool-cases (ltb i size)) [
  | inl room ↦
      let e = write_from-below size (i + 1) j cs (set i c slot) (omega arith) in
      let other : (j == i) ≡ false = ground arith in rw room (rw e (rw other))
  | inr full ↦ rw full
]

write_from-nil : (size i : ℕ) (slot : ℕ → ℕ) → i < size → write_from size i [] slot ≡ set i 0 slot
unfolding write_from
write_from-nil size i slot h = let room : ltb i size ≡ true = ground arith in rw room

write_from-cons :
    (size i c : ℕ) (cs : Bytes) (slot : ℕ → ℕ)
    → i < size
    → write_from size i (c ∷ cs) slot ≡ write_from size (i + 1) cs (set i c slot)
unfolding write_from
write_from-cons size i c cs slot h =
    let room : ltb i size ≡ true = ground arith in rw (room, write_from)

read_from-end : (n i : ℕ) (slot : ℕ → ℕ) → slot i ≡ 0 → read_from (suc n) i slot ≡ []
unfolding read_from
read_from-end n i slot e = rw e

read_from-char :
    (n i c : ℕ) (slot : ℕ → ℕ)
    → slot i ≡ c
    → IsChar c
    → read_from (suc n) i slot ≡ c ∷ read_from n (i + 1) slot
unfolding read_from
read_from-char n i c slot e h =
    let more : (c == 0) ≡ false = ground arith in rw e (rw (more, read_from))

set-same : (i c : ℕ) (slot : ℕ → ℕ) → set i c slot i ≡ c
set-same i c slot = rw ((==_iff i i).1 refl)

-- Reading a slot gives the text that was written, as far as the slot reaches.
pub read_from-write_from :
    (n i size : ℕ) (s : Bytes) (slot : ℕ → ℕ)
    → size ≡ i + n
    → All IsChar s
    → read_from n i (write_from size i s slot) ≡ take n s
read_from-write_from zero i size s slot e h = unfold read_from in refl
read_from-write_from (suc n) i size [] slot e h =
    rw (write_from-nil size i slot (omega arith))
      (read_from-end n i (set i 0 slot) (set-same i 0 slot))
read_from-write_from (suc n) i size (c ∷ cs) slot e h =
    let kept =
      write_from-below size (i + 1) i cs (set i c slot) (omega arith) ∙ set-same i c slot in
    rw (write_from-cons size i c cs slot (omega arith)) (
      read_from-char n i c (write_from size (i + 1) cs (set i c slot)) kept h.0
      ∙ ap (◌∷◌ c) (read_from-write_from n (i + 1) size cs (set i c slot) (omega arith) h.1))

pub take-all : (n : ℕ) (s : Bytes) → length s ≤ n → take n s ≡ s
take-all zero [] h = refl
take-all zero (c ∷ cs) h = absurd (omega arith)
take-all (suc n) [] h = refl
take-all (suc n) (c ∷ cs) h = ap (◌∷◌ c) (take-all n cs (omega arith))

-- What is read in front of a text is not changed by it.
pub read_from-below :
    (n i start size : ℕ) (s : Bytes) (slot : ℕ → ℕ)
    → i + n ≤ start
    → read_from n i (write_from size start s slot) ≡ read_from n i slot
unfolding read_from
read_from-below zero i start size s slot h = refl
read_from-below (suc n) i start size s slot h =
    rw (write_from-below size start i s slot (omega arith))
      (rw (read_from-below n (i + 1) start size s slot (omega arith)))
