-- ===== src/Feed/Time.antt =====
-- `days_from_civil` and `parse_rfc3339_ns` of src/feed/feed_normalizer.h.
use trade_feed.Prelude.{
  ℕ, zero, suc, ◌+◌, ◌-◌, ◌*◌, ◌/◌, ◌%◌, ◌^◌, ◌<◌, ◌≡◌, Bool, not, ◌&&◌, ◌||◌, [], ◌∷◌, length, ltb,
  leb, ◌==◌, if◌then◌else◌, arith,
}
use trade_feed.Prelude.Int.{ℤ, pos, negsuc, ◌+ℤ◌, ◌-ℤ◌, ◌*ℤ◌, sub_ℕ}
use trade_feed.Types.{u32_mod, u64_mod, add32, sub32}
use trade_feed.Feed.{Text}

-- `(y >= 0 ? y : y - 399) / 400`, which C++ rounds to zero.
unfoldable pub era_of : ℤ → ℤ
era_of (pos y) = pos (y / 400)
era_of (negsuc n) = negsuc ((n + 400) / 400 - 1)

-- The conversion of an integer to `unsigned` and to `uint64_t`.
unfoldable pub wrap : ℕ → ℤ → ℕ
wrap m (pos n) = n % m
wrap m (negsuc n) = m - 1 - n % m

unfoldable pub days_from_civil : ℤ → ℕ → ℕ → ℤ
unfolding era_of wrap ◌+ℤ◌ ◌-ℤ◌ ◌*ℤ◌
days_from_civil year m d =
    let y = if leb m 2 then year -ℤ pos 1 else year in
    let era = era_of y in
    let yoe = wrap u32_mod (y -ℤ era *ℤ pos 400) in
    let shifted = if ltb 2 m then sub32 m 3 else add32 m 9 in
    let doy = sub32 (add32 ((153 * shifted + 2) % u32_mod / 5) d) 1 in
    let doe = (yoe * 365 + yoe / 4 + u32_mod - yoe / 100 + doy) % u32_mod in
    era *ℤ pos 146_097 +ℤ pos doe -ℤ pos 719_468

abbrev pub is_digit : ℕ → Bool
is_digit c = leb 48 c && leb c 57

-- `num`, over the text from the offset on.
unfoldable pub digits : ℕ → Text → ℕ → ℕ
digits zero s v = v
digits (suc n) [] v = v
digits (suc n) (c ∷ s) v =
    let rest = digits n s (v * 10 + (c - 48)) in if is_digit c then rest else v

abbrev pub skip : ℕ → Text → Text
skip zero s = s
skip (suc n) [] = []
skip (suc n) (c ∷ s) = skip n s

-- The two loops over the fraction, with the digits that are still wanted.
unfoldable pub fraction : ℕ → Text → ℕ → ℕ
fraction zero s v = v
fraction (suc n) [] v = v * 10 ^ suc n
fraction (suc n) (c ∷ s) v =
    let rest = fraction n s (v * 10 + (c - 48)) in if is_digit c then rest else v * 10 ^ suc n

abbrev pub nanos_of : Text → ℕ
nanos_of [] = 0
nanos_of (c ∷ s) = if c == 46 then fraction 9 s 0 else 0

unfoldable pub parse_rfc3339_ns : Text → ℕ
unfolding days_from_civil digits fraction wrap ◌+ℤ◌ ◌*ℤ◌
parse_rfc3339_ns s =
    if ltb (length s) 20
    then 0
    else (let days =
          days_from_civil (pos (digits 4 s 0)) (digits 2 (skip 5 s) 0) (digits 2 (skip 8 s) 0) in
        let secs =
          days *ℤ pos 86_400
          +ℤ pos (
              digits 2 (skip 11 s) 0 * 3_600
              + digits 2 (skip 14 s) 0 * 60
              + digits 2 (skip 17 s) 0) in
        let nanos = if ltb 20 (length s) then nanos_of (skip 19 s) else 0 in
        (wrap u64_mod secs * 1_000_000_000 + nanos) % u64_mod)

-- The calendar's rule, on its own.
abbrev pub is_leap : ℕ → Bool
is_leap y = y % 4 == 0 && (not (y % 100 == 0) || y % 400 == 0)

-- The days from the era's start to the first of March of the year.
abbrev march_first : ℕ → ℕ
march_first y = y / 400 * 146_097 + (y % 400 * 365 + y % 400 / 4 - y % 400 / 100)

year_of_era : (y : ℕ) → y < 10_000 → wrap u32_mod (pos y -ℤ pos (y / 400) *ℤ pos 400) ≡ y % 400
unfolding wrap ◌-ℤ◌ ◌*ℤ◌
year_of_era y small = ground arith

era_days :
    (a b : ℕ) → pos a *ℤ pos 146_097 +ℤ pos b -ℤ pos 719_468 ≡ sub_ℕ (a * 146_097 + b) 719_468
unfolding ◌+ℤ◌ ◌-ℤ◌ ◌*ℤ◌
era_days a b = ground arith

day_of_era :
    (e : ℕ)
    → e < 400
    → (e * 365 + e / 4 + u32_mod - e / 100 + 0) % u32_mod ≡ e * 365 + e / 4 - e / 100
day_of_era e small = omega arith

days_from_civil-march :
    (y : ℕ) → y < 10_000 → days_from_civil (pos y) 3 1 ≡ sub_ℕ (march_first y) 719_468
unfolding days_from_civil era_of
days_from_civil-march y small =
    rw (year_of_era y small, day_of_era (y % 400) (omega arith)) (era_days (y / 400) _)

march_first-suc :
    (y : ℕ) → march_first (y + 1) ≡ march_first y + (if is_leap (y + 1) then 366 else 365)
march_first-suc y = ground arith

add_days : (a n : ℕ) → sub_ℕ (a + n) 719_468 ≡ sub_ℕ a 719_468 +ℤ pos n
unfolding ◌+ℤ◌
add_days a n = ground arith

-- For a year of at most four digits, the next first of March comes 366 days after the first of
-- March if the February between is in a leap year, else 365: `days_from_civil` follows the
-- calendar's rule across centuries and eras.
pub days_from_civil-year :
    (y : ℕ)
    → y + 1 < 10_000
    → days_from_civil (pos (y + 1)) 3 1
      ≡ days_from_civil (pos y) 3 1 +ℤ pos (if is_leap (y + 1) then 366 else 365)
days_from_civil-year y small =
    rw
      (
        days_from_civil-march (y + 1) small,
        days_from_civil-march y (omega arith),
        march_first-suc y,
      )
      (add_days (march_first y) _)
