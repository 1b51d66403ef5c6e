-- ===== src/Dates.antt =====
-- UTC days (src/loyalty/utils/utc-local-date.util.ts), and what these functions use of `Date`:
-- the days of the months, `Date.UTC` with its overflow, and the order of days. A `Date` at
-- midnight UTC is its calendar day; months count from 1. The year 0 is the first one.
pub mod Order
pub mod Parse
use cinema_loyalty_service.Prelude.{
  ℕ, zero, suc, ◌+◌, ◌-◌, ◌*◌, ◌/◌, ◌%◌, Bool, true, false, not, ◌&&◌, ◌||◌, Option, none, some,
  ltb, leb, ◌==◌, if◌then◌else◌, List, [], ◌∷◌, ◌++◌, Text, trim,
}
use cinema_loyalty_service.Store.Types.{LocalDate}

abbrev pub local_date : ℕ → ℕ → ℕ → LocalDate
local_date y m d = record { year = y; month = m; day = d }

unfoldable pub is_leap : ℕ → Bool
is_leap y = y % 4 == 0 && (not (y % 100 == 0) || y % 400 == 0)

unfoldable pub days_in_month : ℕ → ℕ → ℕ
unfolding is_leap
days_in_month y m =
    if m == 2
    then (if is_leap y then 29 else 28)
    else if m == 4 || (m == 6 || (m == 9 || m == 11))
    then 30
    else 31

-- the days of the first months of a year
unfoldable pub days_in_months : ℕ → ℕ → ℕ
days_in_months y zero = 0
days_in_months y (suc m) = days_in_months y m + days_in_month y (suc m)

unfoldable pub days_before_year : ℕ → ℕ
days_before_year y = y * 365 + (y + 3) / 4 + (y + 399) / 400 - (y + 99) / 100

-- The days from the first one; a day past the end of its month counts on into the next, as in
-- `Date.UTC` and `setUTCFullYear`.
unfoldable pub day_number : ℕ → ℕ → ℕ → ℕ
day_number y m d = days_before_year y + days_in_months y (m - 1) + d

unfoldable pub next_day : LocalDate → LocalDate
next_day t =
    if ltb t.day (days_in_month t.year t.month)
    then local_date t.year t.month (t.day + 1)
    else if ltb t.month 12
    then local_date t.year (t.month + 1) 1
    else local_date (t.year + 1) 1 1

unfoldable pub days_later : ℕ → LocalDate → LocalDate
unfolding next_day
days_later zero t = t
days_later (suc n) t = next_day (days_later n t)

-- the last day of the month before
abbrev pub day_before_month : ℕ → ℕ → LocalDate
day_before_month y m =
    if m == 1 then local_date (y - 1) 12 31 else local_date y (m - 1) (days_in_month y (m - 1))

-- day `d` of month `m` of a year of four digits; day 0 is the last of the month before
abbrev pub from_month_start : ℕ → ℕ → ℕ → LocalDate
from_month_start y m zero = day_before_month y m
from_month_start y m (suc d) = days_later d (local_date y m 1)

-- `Date.UTC(year, month - 1, day)`: the years 0 to 99 are 1900 to 1999, month 0 is December of the
-- year before, and months and days past the end overflow
unfoldable pub utc_date : ℕ → ℕ → ℕ → LocalDate
unfolding days_later days_in_month
utc_date y m d =
    let century = if ltb y 100 then y + 1900 else y in
    let months = century * 12 + m - 1 in from_month_start (months / 12) (months % 12 + 1) d

-- \d
abbrev pub is_digit : ℕ → Bool
is_digit c = leb 48 c && leb c 57

-- `Number` of two digits
abbrev pub two_digits : ℕ → ℕ → ℕ
two_digits a b = (a - 48) * 10 + (b - 48)

-- the year, month and day of a text that matches DATE_ONLY_PATTERN
unfoldable pub date_only : Text → Option LocalDate
date_only (a ∷ b ∷ c ∷ d ∷ h ∷ e ∷ f ∷ i ∷ j ∷ k ∷ []) =
    if is_digit a
      && (is_digit b
          && (is_digit c
              && (is_digit d
                  && (h == 45
                      && (is_digit e && (is_digit f && (i == 45 && (is_digit j && is_digit k))))))))
    then some (local_date (two_digits a b * 100 + two_digits c d) (two_digits e f) (two_digits j k))
    else none
date_only _ = none

abbrev pub same_date : LocalDate → LocalDate → Bool
same_date a b = a.year == b.year && (a.month == b.month && a.day == b.day)

-- the checks of a date that matched
unfoldable pub checked_date : LocalDate → Option LocalDate
checked_date t = let e = utc_date t.year t.month t.day in if same_date e t then some e else none

-- `new_date t` is the UTC day of `new Date(t)`, if that is a time
unfoldable pub parse_utc_local_date : (Text → Option LocalDate) → Text → Option LocalDate
unfolding date_only
parse_utc_local_date new_date t = elim (date_only (trim t)) [
  | none ↦ new_date (trim t)
  | some matched ↦ checked_date matched
]

unfoldable pub is_same_utc_month_day : LocalDate → LocalDate → Bool
is_same_utc_month_day a b = a.month == b.month && a.day == b.day

-- the order of the instants at which two UTC days begin
unfoldable pub is_future_utc_local_date : LocalDate → LocalDate → Bool
unfolding day_number
is_future_utc_local_date d reference =
    ltb (day_number reference.year reference.month reference.day) (day_number d.year d.month d.day)
