-- ===== src/Dates/Parse.antt =====
-- Texts of days: what `parseUtcLocalDate` accepts.
use cinema_loyalty_service.Prelude.{
  Text, trim, ℕ, zero, suc, ◌+◌, ◌-◌, ◌*◌, ◌/◌, ◌%◌, ◌≤◌, ◌<◌, ◌≡◌, refl, sym, ap, ◌∙◌, subst, ◌↔◌,
  inl, inr, Bool, true, false, ◌&&◌, Option, none, some, [], ◌∷◌, arith, ltb, ◌==◌, if◌then◌else◌,
  lt→ltb, Bool-cases,
}
use cinema_loyalty_service.Dates.{
  local_date, days_in_month, next_day, days_later, from_month_start, utc_date, is_digit, two_digits,
  date_only, same_date, checked_date, parse_utc_local_date,
}
use cinema_loyalty_service.Dates.Order.{
  IsCalendarDate, days_in_month-bounds, next_day-IsCalendarDate,
}
use cinema_loyalty_service.Store.Profiles.{fits}
use cinema_loyalty_service.Store.Types.{LocalDate}

-- YYYY-MM-DD
abbrev pub two_figures : ℕ → Text
two_figures n = (48 + n / 10) ∷ (48 + n % 10) ∷ []

abbrev pub iso_date : LocalDate → Text
iso_date d =
    (48 + d.year / 1000)
    ∷ (48 + d.year / 100 % 10)
    ∷ (48 + d.year / 10 % 10)
    ∷ (48 + d.year % 10)
    ∷ 45
    ∷ (48 + d.month / 10)
    ∷ (48 + d.month % 10)
    ∷ 45
    ∷ (48 + d.day / 10)
    ∷ (48 + d.day % 10)
    ∷ []

days_later-IsCalendarDate :
    (n : ℕ) (t : LocalDate) → IsCalendarDate t → IsCalendarDate (days_later n t)
unfolding days_later
days_later-IsCalendarDate zero t h = h
days_later-IsCalendarDate (suc n) t h = next_day-IsCalendarDate _ (days_later-IsCalendarDate n t h)

december : (z : ℕ) → days_in_month z 12 ≡ 31
unfolding days_in_month
december z = refl

from_month_start-IsCalendarDate :
    (y m d : ℕ) → 1 ≤ m → m ≤ 12 → IsCalendarDate (from_month_start y m d)
from_month_start-IsCalendarDate y m zero lo hi = elim (Bool-cases (m == 1)) [
  | inl e ↦ rw e (omega arith, omega arith, omega arith, omega (arith, december (y - 1)))
  | inr e ↦ rw e (
    ground (arith, lo, e),
    omega (arith, hi),
    omega (arith, days_in_month-bounds y (m - 1)),
    omega arith,
  )
]
from_month_start-IsCalendarDate y m (suc d) lo hi =
    days_later-IsCalendarDate d (local_date y m 1)
      (lo, hi, omega arith, omega (arith, days_in_month-bounds y m))

utc_date-IsCalendarDate : (y m d : ℕ) → IsCalendarDate (utc_date y m d)
unfolding utc_date
utc_date-IsCalendarDate y m d =
    let months = (if ltb y 100 then y + 1900 else y) * 12 + m - 1 in
    from_month_start-IsCalendarDate (months / 12) (months % 12 + 1) d (omega arith) (omega arith)

-- Inside a month the days count up.
days_later-within :
    (y m n : ℕ) → n < days_in_month y m → days_later n (local_date y m 1) ≡ local_date y m (n + 1)
unfolding days_later next_day
days_later-within y m zero h = refl
days_later-within y m (suc n) h =
    rw (days_later-within y m n (omega (arith, h))) (
      rw (lt→ltb (n + 1) (days_in_month y m) (omega (arith, h)))
        (ap (local_date y m) (omega arith)))

from_month_start-within :
    (y m d : ℕ) → 1 ≤ d → d ≤ days_in_month y m → from_month_start y m d ≡ local_date y m d
from_month_start-within y m zero lo h = ground (arith, lo)
from_month_start-within y m (suc d) lo h =
    days_later-within y m d (omega (arith, h)) ∙ ap (local_date y m) (omega arith)

-- A calendar date comes back from `Date.UTC`, unless its year has less than three digits.
utc_date-within :
    (t : LocalDate) → IsCalendarDate t → 100 ≤ t.year → utc_date t.year t.month t.day ≡ t
unfolding utc_date
utc_date-within t h late =
    let year : (t.year * 12 + t.month - 1) / 12 ≡ t.year = omega (arith, h) in
    let month : (t.year * 12 + t.month - 1) % 12 + 1 ≡ t.month = omega (arith, h) in
    let century : ltb t.year 100 ≡ false = ground (arith, late) in
    rw century (rw year (rw month (from_month_start-within _ _ t.day h.2 h.3)))

days_later-year : (n : ℕ) (t : LocalDate) → t.year ≤ (days_later n t).year
unfolding days_later next_day
days_later-year zero t = omega arith
days_later-year (suc n) t = ground (arith, days_later-year n t)

from_month_start-year : (y m d : ℕ) → y - 1 ≤ (from_month_start y m d).year
from_month_start-year y m zero = ground arith
from_month_start-year y m (suc d) = omega (arith, days_later-year d (local_date y m 1))

-- The years 0 to 99 are moved.
utc_date-year : (y m d : ℕ) → y < 100 → 100 ≤ (utc_date y m d).year
unfolding utc_date
utc_date-year y m d h = rw (lt→ltb y 100 h) (
    omega (
      arith,
      from_month_start-year (((y + 1900) * 12 + m - 1) / 12) (((y + 1900) * 12 + m - 1) % 12 + 1) d,
    ))

same_date→eq : (a b : LocalDate) → same_date a b ≡ true → a ≡ b
same_date→eq a b h = ground (arith, h)

same_date_refl : (a : LocalDate) → same_date a a ≡ true
same_date_refl a = ground arith

-- The checks pass for the dates of the calendar whose year has three digits or more.
pub checked_date-exact :
    (t d : LocalDate) → (checked_date t ≡ some d) ↔ ((t ≡ d) × IsCalendarDate d × (100 ≤ d.year))
unfolding checked_date
checked_date-exact t d =
    let e = utc_date t.year t.month t.day in
    let cal = utc_date-IsCalendarDate t.year t.month t.day in
    (
      λ h. elim (Bool-cases (same_date e t)) [
        | inl same ↦
            let is_t = same_date→eq e t same in
            let is_d : e ≡ d = ground (arith, h, same) in
            (
              sym is_t ∙ is_d,
              subst IsCalendarDate is_d cal,
              subst (λ x. 100 ≤ x.year) is_d
                  (ground (arith, same, utc_date-year t.year t.month t.day)),
            )
        | inr other ↦ ground (arith, h, other)
      ],
      λ (q, cal, late).
          subst (λ x. checked_date x ≡ some d) (sym q)
            (rw (utc_date-within d cal late, same_date_refl d) refl),
    )

-- What matches the pattern is the date's ten figures and dashes.
abbrev FitsPattern : LocalDate → Type 0
FitsPattern d = (d.year ≤ 9999) × (d.month ≤ 99) × (d.day ≤ 99)

date_only-iso_date : (d : LocalDate) → FitsPattern d → date_only (iso_date d) ≡ some d
unfolding date_only
date_only-iso_date d h = ground (arith, h)

calendar_fits : (d : LocalDate) → IsCalendarDate d → d.year ≤ 9999 → FitsPattern d
calendar_fits d cal early =
    (early, ground (arith, cal), ground (arith, cal, days_in_month-bounds d.year d.month))

when_some :
    {A : Type 0} (b : Bool) (x d : A) → (if b then some x else none) ≡ some d → (b ≡ true) × (x ≡ d)
when_some true x d h = (refl, ground (arith, h))
when_some false x d h = cc

figures :
    (a b : ℕ)
    → is_digit a ≡ true
    → is_digit b ≡ true
    → (a ≡ 48 + two_digits a b / 10) × (b ≡ 48 + two_digits a b % 10) × (two_digits a b ≤ 99)
figures a b ha hb = ground (arith, ha, hb)

year_figures :
    (p q : ℕ)
    → p ≤ 99
    → q ≤ 99
    → ((p * 100 + q) / 1000 ≡ p / 10)
      × ((p * 100 + q) / 100 % 10 ≡ p % 10)
      × ((p * 100 + q) / 10 % 10 ≡ q / 10)
      × ((p * 100 + q) % 10 ≡ q % 10)
      × (p * 100 + q ≤ 9999)
year_figures p q hp hq = omega (arith, hp, hq)

all_true :
    (a b c e i f g j k l : Bool)
    → (a && (b && (c && (e && (i && (f && (g && (j && (k && l))))))))) ≡ true
    → ((a ≡ true) × (b ≡ true) × (c ≡ true) × (e ≡ true) × (i ≡ true))
      × ((f ≡ true) × (g ≡ true) × (j ≡ true) × (k ≡ true) × (l ≡ true))
all_true a b c e i f g j k l h = ground (arith, h)

date_only→iso_date :
    (s : Text) (d : LocalDate) → date_only s ≡ some d → (s ≡ iso_date d) × FitsPattern d
unfolding date_only
date_only→iso_date (a ∷ b ∷ c ∷ e ∷ i ∷ f ∷ g ∷ j ∷ k ∷ l ∷ []) d h =
    let (test, is_d) =
      when_some _
        (local_date (two_digits a b * 100 + two_digits c e) (two_digits f g) (two_digits k l)) d
        h in
    let ((ha, hb, hc, he, hi), (hf, hg, hj, hk, hl)) =
      all_true (is_digit a) (is_digit b) (is_digit c) (is_digit e) (i == 45) (is_digit f)
        (is_digit g) (j == 45) (is_digit k) (is_digit l) test in
    let (a', b', century) = figures a b ha hb in
    let (c', e', rest) = figures c e hc he in
    let (f', g', month) = figures f g hf hg in
    let (k', l', day) = figures k l hk hl in
    let (y1, y2, y3, y4, top) = year_figures (two_digits a b) (two_digits c e) century rest in
    let dash1 : i ≡ 45 = ground (arith, hi) in
    let dash2 : j ≡ 45 = ground (arith, hj) in
    subst (λ x. (a ∷ b ∷ c ∷ e ∷ i ∷ f ∷ g ∷ j ∷ k ∷ l ∷ [] ≡ iso_date x) × FitsPattern x) is_d
      (cc, (top, month, day))
date_only→iso_date _ d h = cc

same_day :
    (t : Text) (m d : LocalDate) → date_only t ≡ some m → t ≡ iso_date d → FitsPattern d → m ≡ d
same_day t m d h same fits = let read = date_only-iso_date d fits in cc

-- A text is read as a day without the runtime's parser exactly if, trimmed, it is the year, month
-- and day in four, two and two figures; and it then gives a day exactly if it names a date of the
-- Gregorian calendar in the years 100 to 9999, which is the day that it gives.
pub parse_utc_local_date-exact :
    (new_date : Text → Option LocalDate) (t : Text) (m d : LocalDate)
    → date_only (trim t) ≡ some m
    → (parse_utc_local_date new_date t ≡ some d)
      ↔ ((trim t ≡ iso_date d) × IsCalendarDate d × (100 ≤ d.year) × (d.year ≤ 9999))
unfolding parse_utc_local_date
parse_utc_local_date-exact new_date t m d h =
    let (written, fits) = date_only→iso_date (trim t) m h in
    let (there, back) = checked_date-exact m d in
    rw (h, parse_utc_local_date)
      (
        λ q.
            let (is_d, cal, late) = there q in
            (written ∙ ap iso_date is_d, cal, late, subst (λ x. x.year ≤ 9999) is_d fits.0),
        λ (same, cal, late, early).
            back (same_day (trim t) m d h same (calendar_fits d cal early), cal, late),
      )

-- A calendar date of the years 100 to 9999 that is written in figures is read back, with white
-- space around it or not.
pub parse_utc_local_date-iso_date :
    (new_date : Text → Option LocalDate) (t : Text) (d : LocalDate)
    → IsCalendarDate d
    → 100 ≤ d.year
    → d.year ≤ 9999
    → trim t ≡ iso_date d
    → parse_utc_local_date new_date t ≡ some d
unfolding parse_utc_local_date
parse_utc_local_date-iso_date new_date t d cal late early h =
    let fits = calendar_fits d cal early in
    let read : date_only (trim t) ≡ some d = rw h (date_only-iso_date d fits) in
    rw (read, parse_utc_local_date) ((checked_date-exact d d).1 (refl, cal, late))
