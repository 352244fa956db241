-- ===== src/Ntp/Civil.antt =====
-- `mn_ntp_civil` of src/net/mn_ntp.c: seconds since 1900 to a calendar date.
pub mod Laws
use mega_net.Base.{
  get_or, ltb, ◌==◌, if◌then◌else◌, u8, u16, u32, ℕ, zero, suc, ◌+◌, ◌-◌, ◌*◌, ◌/◌, ◌%◌, ◌^◌, Bool,
  not, ◌&&◌, ◌||◌, List, [], ◌∷◌,
}

-- `mn_civil`
pub record Civil : Type 0 where
  pub year : ℕ
  pub month : ℕ
  pub day : ℕ
  pub hour : ℕ
  pub minute : ℕ
  pub second : ℕ
  pub weekday : ℕ

unfoldable pub leap : ℕ → Bool
leap y = (y % 4 == 0 && not (y % 100 == 0)) || y % 400 == 0

abbrev pub mdays : List ℕ
mdays = 31 ∷ 28 ∷ 31 ∷ 30 ∷ 31 ∷ 30 ∷ 31 ∷ 31 ∷ 30 ∷ 31 ∷ 30 ∷ 31 ∷ []

abbrev pub year_days : ℕ → ℕ
year_days y = if leap y then 366 else 365

-- `dy` in the loop over the months; `m` counts from 0.
abbrev pub month_days : ℕ → ℕ → ℕ
month_days y m = if m == 1 && leap y then 29 else get_or mdays m 0

-- The loop over the years, on fuel: the year, and the days left in it. Each round takes off 365 days
-- at least, so as many rounds as there are days are more than enough.
unfoldable pub year_from : ℕ → ℕ → ℕ → ℕ × ℕ
year_from zero days y = (y, days)
year_from (suc f) days y =
    let rest = year_from f (days - year_days y) (u16 (y + 1)) in
    if ltb days (year_days y) then (y, days) else rest

-- The loop over the months, with `n` rounds left at `m`.
unfoldable pub month_from : ℕ → ℕ → ℕ → ℕ → ℕ × ℕ
month_from zero m days y = (m, days)
month_from (suc n) m days y =
    let rest = month_from n (m + 1) (days - month_days y m) y in
    if ltb days (month_days y m) then (m, days) else rest

-- `(uint32_t)((int32_t)seconds_1900 + (int32_t)offset_min * 60)`, the offset as the 16 bits of its
-- `int16_t`.
unfoldable pub local_seconds : ℕ → ℕ → ℕ
local_seconds seconds offset_min = u32 (
    seconds
    + (if ltb offset_min (2 ^ 15) then offset_min * 60 else 2 ^ 32 - (2 ^ 16 - offset_min) * 60))

-- Days since 1900 and seconds of the day; a value below the pivot is of the era that begins in 2036.
unfoldable pub days_rem : ℕ → ℕ × ℕ
days_rem s =
    if ltb s 0x80000000
    then (49710 + u32 (s + 23296) / 86400, u32 (s + 23296) % 86400)
    else (s / 86400, s % 86400)

unfoldable pub ntp_civil : ℕ → ℕ → Civil
ntp_civil seconds offset_min =
    let (days, rem) = days_rem (local_seconds seconds offset_min) in
    let (y, left) = year_from days days 1900 in
    let (m, d) = month_from 12 0 left y in
    record {
      year = y;
      month = u8 (m + 1);
      day = u8 (d + 1);
      hour = u8 (rem / 3600);
      minute = u8 (rem % 3600 / 60);
      second = u8 (rem % 3600 % 60);
      weekday = u8 ((days + 1) % 7);
    }
