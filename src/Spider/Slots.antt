-- ===== src/Spider/Slots.antt =====
-- The character arrays of `shmctrl`: a slot is an array, and its bytes are copied in and out one by one.
use amigao.Base.{ℕ, zero, suc, ◌+◌, [], ◌∷◌, ltb, ◌==◌, if◌then◌else◌, Bytes}

-- `slot[i] = c`
abbrev pub set : ℕ → ℕ → (ℕ → ℕ) → ℕ → ℕ
set i c slot j = if j == i then c else slot j

-- `for (; i < text.size() && i < size; ++i) slot[i] = text[i]; if (i < size) slot[i] = '\0';`, with
-- what is left of the text from `i` on.
unfoldable pub write_from : ℕ → ℕ → Bytes → (ℕ → ℕ) → ℕ → ℕ
write_from size i [] slot = if ltb i size then set i 0 slot else slot
write_from size i (c ∷ cs) slot =
    let rest = write_from size (i + 1) cs (set i c slot) in if ltb i size then rest else slot

-- `for (; i < size && slot[i] != '\0'; ++i)`, with the number of bytes left to `size`.
unfoldable pub read_from : ℕ → ℕ → (ℕ → ℕ) → Bytes
read_from zero i slot = []
read_from (suc n) i slot =
    let rest = read_from n (i + 1) slot in if slot i == 0 then [] else slot i ∷ rest
