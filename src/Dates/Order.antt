-- ===== src/Dates/Order.antt =====
-- Calendar dates, and their order by day numbers.
use native.Mathlib.Numerals.{unary_clauses}
use cinema_loyalty_service.Prelude.{
  ℕ, zero, suc, ◌+◌, ◌-◌, ◌≤◌, ◌<◌, ◌≡◌, refl, inl, inr, Bool, true, ◌&&◌, ◌||◌, arith, ltb, ◌==◌,
  if◌then◌else◌, Bool-cases,
}
use cinema_loyalty_service.Dates.{
  is_leap, days_in_month, days_in_months, days_before_year, day_number, next_day,
  is_future_utc_local_date,
}
use cinema_loyalty_service.Store.Types.{LocalDate}

-- A date of the Gregorian calendar.
abbrev pub IsCalendarDate : LocalDate → Type 0
IsCalendarDate t =
    (1 ≤ t.month) × (t.month ≤ 12) × (1 ≤ t.day) × (t.day ≤ days_in_month t.year t.month)

pub days_in_month-bounds : (y m : ℕ) → (28 ≤ days_in_month y m) × (days_in_month y m ≤ 31)
unfolding days_in_month
days_in_month-bounds y m = ground arith

pub next_day-IsCalendarDate : (t : LocalDate) → IsCalendarDate t → IsCalendarDate (next_day t)
unfolding next_day
next_day-IsCalendarDate t h =
    ground (arith, days_in_month-bounds t.year (t.month + 1), days_in_month-bounds (t.year + 1) 1)

days_in_year : (y : ℕ) → days_in_months y 12 ≡ (if is_leap y then 366 else 365)
unfolding days_in_months days_in_month
days_in_year y = elim (Bool-cases (is_leap y)) [ inl e ↦ rw e refl | inr e ↦ rw e refl ]

pub days_before_year-step :
    (y : ℕ) → days_before_year (y + 1) ≡ days_before_year y + (if is_leap y then 366 else 365)
unfolding days_before_year is_leap
days_before_year-step y = ground arith

abbrev pub number : LocalDate → ℕ
number t = day_number t.year t.month t.day

-- The days of the months up to one, and of the year.
days_in_months-next :
    (y m : ℕ) → 1 ≤ m → days_in_months y m ≡ days_in_months y (m - 1) + days_in_month y m
unfolding days_in_months
days_in_months-next y zero h = omega (arith, h)
days_in_months-next y (suc k) h = simp unary_clauses refl

days_in_months-first : (y : ℕ) → days_in_months y (1 - 1) ≡ 0
unfolding days_in_months
days_in_months-first y = refl

-- The next day has the next number.
pub day_number-next_day : (t : LocalDate) → IsCalendarDate t → number (next_day t) ≡ number t + 1
unfolding day_number next_day
day_number-next_day t h =
    let year = days_in_year t.year in
    let step = days_before_year-step t.year in
    let months = days_in_months-next t.year t.month h.0 in
    elim (Bool-cases (ltb t.day (days_in_month t.year t.month))) [
      | inl e ↦ rw e (omega arith)
      | inr e ↦ rw e (elim (Bool-cases (ltb t.month 12)) [
        | inl f ↦ rw f (ground (arith, months, h, e))
        | inr f ↦
            rw f (ground (arith, year, step, months, h, e, f, days_in_months-first (t.year + 1)))
      ])
    ]

days_in_months_mono : (y m n : ℕ) → m ≤ n → days_in_months y m ≤ days_in_months y n
unfolding days_in_months
days_in_months_mono y m zero h = ground (arith, h)
days_in_months_mono y m (suc n) h = ground (arith, h, days_in_months_mono y m n)

days_before_year_mono : (y z : ℕ) → y < z → days_before_year (y + 1) ≤ days_before_year z
unfolding days_before_year
days_before_year_mono y z h = omega (arith, h)

-- the day of the year of a calendar date
day_of_year-bounds :
    (t : LocalDate)
    → IsCalendarDate t
    → (1 ≤ days_in_months t.year (t.month - 1) + t.day)
      × (days_in_months t.year (t.month - 1) + t.day ≤ (if is_leap t.year then 366 else 365))
day_of_year-bounds t h = ground (
  arith,
  days_in_months-next t.year t.month h.0,
  days_in_months_mono t.year t.month 12 h.1,
  days_in_year t.year,
  h,
)

pub is_before : LocalDate → LocalDate → Bool
is_before a b =
    ltb a.year b.year
    || (a.year == b.year && (ltb a.month b.month || (a.month == b.month && ltb a.day b.day)))

is_before-number :
    (a b : LocalDate)
    → IsCalendarDate a
    → IsCalendarDate b
    → is_before a b ≡ true
    → number a < number b
unfolding day_number is_before
is_before-number a b ha hb h =
    let last = day_of_year-bounds a ha in
    let next = days_before_year-step a.year in
    let years = days_before_year_mono a.year b.year in
    let month = days_in_months-next a.year a.month ha.0 in
    let months = days_in_months_mono a.year a.month (b.month - 1) in
    ground (arith, last, next, years, month, months, ha, hb, h)

-- Later in the calendar is the same as later by the count of days.
pub is_future_utc_local_date-order :
    (d reference : LocalDate)
    → IsCalendarDate d
    → IsCalendarDate reference
    → is_future_utc_local_date d reference ≡ is_before reference d
unfolding is_future_utc_local_date is_before day_number
is_future_utc_local_date-order d r hd hr =
    ground (arith, is_before-number r d hr hd, is_before-number d r hd hr)
