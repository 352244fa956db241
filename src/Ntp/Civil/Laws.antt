-- ===== src/Ntp/Civil/Laws.antt =====
-- The date of `mn_ntp_civil` in src/net/mn_ntp.c, against a count of the days of the calendar.
use mega_net.Base.{ℕ, zero, suc, ◌+◌, ◌-◌, ◌*◌, ◌≤◌, ◌<◌, ◌≡◌}
use mega_net.Ntp.Civil.{Civil, year_days, month_days}

-- The days from 1900 to the first of January, `n` years on, and from there to the first of a month.
unfoldable pub years_before : ℕ → ℕ
years_before zero = 0
years_before (suc n) = years_before n + year_days (1900 + n)

unfoldable pub months_before : ℕ → ℕ → ℕ
months_before y zero = 0
months_before y (suc m) = months_before y m + month_days y m

-- The year is found, with the day in it.
YearFound : ℕ → ℕ → ℕ × ℕ → Type 0
YearFound k days (y, left) =
    (1900 ≤ y) × (years_before (y - 1900) + left ≡ years_before k + days) × (left < year_days y)

-- The month is found, with the day in it.
MonthFound : ℕ → ℕ → ℕ → ℕ → ℕ × ℕ → Type 0
MonthFound y n m days (p, left) =
    (p < n) × (months_before y p + left ≡ months_before y m + days) × (left < month_days y p)

-- The date and the time of day, put together again.
abbrev pub civil_days : Civil → ℕ
civil_days c = years_before (c.year - 1900) + months_before c.year (c.month - 1) + (c.day - 1)

abbrev pub civil_seconds : Civil → ℕ
civil_seconds c = c.hour * 3600 + c.minute * 60 + c.second
