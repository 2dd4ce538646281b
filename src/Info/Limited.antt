-- ===== src/Info/Limited.antt =====
-- The settings that a pool can rely on.
use amigao.Base.{
  ℕ, ◌+◌, ◌≤◌, ◌⊎◌, ap, inl, inr, ltb, refl, Bool-cases, true, false, List, [], ◌≡◌, arith,
  if◌then◌else◌, Bytes, Option, none, some,
}
use amigao.Info.{
  magnitude, ℤ, pos, negsuc, less, plus_one, defaults, DbInfo, corrected, read_settings,
  set_db_conf_path,
}
use amigao.Ini.{init_from_file}

-- At least one connection is kept idle, at most as many as may be idle; at least one may be leased,
-- and the time to sleep is not negative.
pub record IsLimited (i : DbInfo) : Type 0 where
  pub conn : less i.max_conn (pos 1) ≡ false
  pub idle : less i.max_idle i.min_idle ≡ false
  pub least : less i.min_idle (pos 1) ≡ false
  pub pause : less i.sleep (pos 0) ≡ false

at_least : (a : ℤ) (n : ℕ) → less (if less a (pos n) then pos n else a) (pos n) ≡ false
at_least (pos a) n = ground arith
at_least (negsuc a) n = ground arith

pause_lem : (a : ℤ) → less (if less a (pos 0) then pos 3 else a) (pos 0) ≡ false
pause_lem (pos a) = ground arith
pause_lem (negsuc a) = ground arith

-- `MIN_IDLE` is not below the largest `int`, and `MAX_IDLE` is below it.
abbrev pub Overflows : DbInfo → Type 0
Overflows i =
    (m : ℕ) × (i.min_idle ≡ pos m) × (2147483647 ≤ m) × (less i.max_idle i.min_idle ≡ true)

-- What `corrected` makes of the settings `i`.
abbrev pub Corrects : DbInfo → Option DbInfo → Type 0
Corrects i r = ((r ≡ none) × Overflows i) ⊎ ((s : DbInfo) × (r ≡ some s) × IsLimited s)

least_idle : ℤ → ℤ
least_idle a = if less a (pos 1) then pos 1 else a

-- The settings with their limits on idle connections.
with_idle : DbInfo → ℤ → ℤ → DbInfo
with_idle i min_idle max_idle = record i {
  min_idle = min_idle;
  max_idle = max_idle;
  max_conn = if less i.max_conn (pos 1) then pos 1 else i.max_conn;
  sleep = if less i.sleep (pos 0) then pos 3 else i.sleep;
}

abbrev finished : DbInfo → ℤ → Option ℤ → Option DbInfo
finished i m none = none
finished i m (some n) = some (with_idle i m n)

with_idle-IsLimited :
    (i : DbInfo) (m n : ℤ) → less m (pos 1) ≡ false → less n m ≡ false → IsLimited (with_idle i m n)
unfolding with_idle
with_idle-IsLimited i m n h k = record {
  conn = at_least i.max_conn 1;
  idle = k;
  least = h;
  pause = pause_lem i.sleep;
}

less-plus_one : (m : ℕ) → less (pos (m + 1)) (pos m) ≡ false
less-plus_one m = ground arith

large : (a : ℤ) (m : ℕ) → 2147483647 ≤ m → least_idle a ≡ pos m → a ≡ pos m
unfolding least_idle
large a m h e = elim (Bool-cases (less a (pos 1))) [
  | inl small ↦ let one : 1 ≡ m = ap magnitude (rw small at e) in absurd (omega arith)
  | inr same ↦ rw same at e
]

raised_cases :
    (i : DbInfo) (m : ℤ)
    → least_idle i.min_idle ≡ m
    → less m (pos 1) ≡ false
    → Corrects i (finished i m (if less i.max_idle m then plus_one m else some i.max_idle))
unfolding plus_one
raised_cases i (negsuc n) e h = cc h
raised_cases i (pos m) e h = elim (Bool-cases (less i.max_idle (pos m))) [
  | inr enough ↦
      rw (enough, finished)
        (inr
          (with_idle i (pos m) i.max_idle, refl, with_idle-IsLimited i (pos m) i.max_idle h enough))
  | inl few ↦ elim (Bool-cases (ltb m 2147483647)) [
    | inl fits ↦
        rw (few, fits, finished)
          (inr (
            with_idle i (pos m) (pos (m + 1)),
            refl,
            with_idle-IsLimited i (pos m) (pos (m + 1)) h (less-plus_one m),
          ))
    | inr over ↦
        let same = large i.min_idle m (ground arith) e in
        rw (few, over, finished) (inl (refl, (m, same, ground arith, rw same few)))
  ]
]

corrected-Corrects : (i : DbInfo) → Corrects i (corrected i)
unfolding corrected least_idle with_idle
corrected-Corrects i = raised_cases i (least_idle i.min_idle) refl (at_least i.min_idle 1)

-- Whatever the file holds, and however numbers are read: either `MIN_IDLE` is not below the largest `int`,
-- and `MAX_IDLE` is below it, so that raising it overflows; or the settings are in their ranges: at least one
-- connection is kept idle, at most as many as may be idle, at least one may be leased, and the time to
-- sleep is not negative.
pub set_db_conf_path-IsLimited :
    (extract extract_unsigned : Bytes → ℤ → Bytes × ℤ) (lines : List Bytes)
    → Corrects
        (read_settings extract extract_unsigned (init_from_file lines []) defaults)
        (set_db_conf_path extract extract_unsigned lines)
unfolding set_db_conf_path
set_db_conf_path-IsLimited extract extract_unsigned lines =
    corrected-Corrects (read_settings extract extract_unsigned (init_from_file lines []) defaults)
