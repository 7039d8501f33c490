-- ===== src/Time.antt =====
-- What the program uses of Go's package time: instants, months and archive timestamps. An instant
-- is the number of nanoseconds since the start of the year 0, in UTC.
pub mod Parse
use google_cloud_storage.Base.{
  ℕ, zero, suc, ◌+◌, ◌-◌, ◌*◌, ◌/◌, ◌%◌, ◌^◌, ◌≤◌, Bytes, List, [], ◌∷◌, ◌++◌, Bool, true, false,
  ◌&&◌, ◌||◌, not, ◌==◌, ltb, leb, if◌then◌else◌,
}

abbrev pub second : ℕ
second = 10 ^ 9

abbrev pub minute : ℕ
minute = 60 * second

abbrev pub day : ℕ
day = 24 * 60 * minute

unfoldable pub is_leap : ℕ → Bool
is_leap y = (y % 4 == 0) && (not (y % 100 == 0) || (y % 400 == 0))

-- The days of the years before `y`, of which the year 0 is the first.
unfoldable pub days_before_year : ℕ → ℕ
days_before_year y = 365 * y + (y + 3) / 4 - (y + 99) / 100 + (y + 399) / 400

-- The lengths of the months of a year.
unfoldable pub month_lengths : ℕ → List ℕ
unfolding is_leap
month_lengths y =
    31 ∷ (if is_leap y then 29 else 28) ∷ 31 ∷ 30 ∷ 31 ∷ 30 ∷ 31 ∷ 31 ∷ 30 ∷ 31 ∷ 30 ∷ 31 ∷ []

-- The days of the first months of a list.
unfoldable pub days_before_month : ℕ → List ℕ → ℕ
days_before_month zero ls = 0
days_before_month (suc m) [] = 0
days_before_month (suc m) (l ∷ ls) = l + days_before_month m ls

-- The first year, from `y` on, that does not end before a day.
unfoldable pub year_from : ℕ → ℕ → ℕ → ℕ
unfolding days_before_year
year_from zero y d = y
year_from (suc fuel) y d =
    let later = year_from fuel (y + 1) d in if leb (days_before_year (y + 1)) d then later else y

-- The year of a day. There are at most 366 days in a year and at least 365, so that `d / 366` is
-- no later than the year and `d / 365` no earlier.
unfoldable pub year_of : ℕ → ℕ
unfolding year_from
year_of d = year_from (d / 365 - d / 366) (d / 366) d

-- The month, from 1, of the day `d` of a year, from 0.
unfoldable pub month_from : ℕ → ℕ → List ℕ → ℕ
month_from m d [] = m
month_from m d (l ∷ ls) = let later = month_from (m + 1) (d - l) ls in if ltb d l then m else later

unfoldable pub month_of : ℕ → ℕ
unfolding year_of month_from month_lengths
month_of d = let y = year_of d in month_from 1 (d - days_before_year y) (month_lengths y)

-- A number with leading zeros, to the given number of digits.
unfoldable pub padded : ℕ → ℕ → Bytes
padded zero n = []
padded (suc k) n = padded k (n / 10) ++ ((b'0' + n % 10) ∷ [])

-- `rvMonth` of pkg/synchronizer/synchronizer.go: `now.Format("2006.01")`, for years below 10000.
unfoldable pub rv_month : ℕ → Bytes
unfolding year_of month_of padded
rv_month now = padded 4 (year_of (now / day)) ++ (b'.' ∷ padded 2 (month_of (now / day)))
