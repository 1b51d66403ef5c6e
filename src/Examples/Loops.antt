-- ===== src/Examples/Loops.antt =====
-- The properties of days, of readers and of whole loops at concrete inputs.
use cinema_loyalty_service.Prelude.{
  Text, text_eq, trim, pos, ◌≤ℤ◌, ◌+ℤ◌, ◌-ℤ◌, is_int32, ℕ, ◌≤◌, ◌≡◌, refl, ◌↔◌, true, false, Option,
  none, some, [], ◌∷◌, arith, select, find_first,
}
use cinema_loyalty_service.Dates.{
  local_date, days_in_month, date_only, parse_utc_local_date, is_future_utc_local_date,
}
use cinema_loyalty_service.Dates.Order.{IsCalendarDate, is_before, is_future_utc_local_date-order}
use cinema_loyalty_service.Dates.Parse.{iso_date, parse_utc_local_date-exact}
use cinema_loyalty_service.Examples.{
  attempts, user, order, key, clock, empty, rich, one_profile, history,
}
use cinema_loyalty_service.Expiration.{
  next_batch, scan, passes, is_expired, expire_body, expire_one,
}
use cinema_loyalty_service.Expiration.Scan.{Scanned, scan-Scanned}
use cinema_loyalty_service.Points.Acceptance.{after_deduction, IsCovered, deduct_body-accepted}
use cinema_loyalty_service.Points.Command.{PointCommand, accepted, find_processed}
use cinema_loyalty_service.Points.Compensation.{refund_of, IsFirstCheckout, refund_body-restores}
use cinema_loyalty_service.Points.Deduct.{deduct_body}
use cinema_loyalty_service.Points.Refund.{refund_body}
use cinema_loyalty_service.Reads.{worth, discount_of, calculate_discount}
use cinema_loyalty_service.Reads.Discount.{calculate_discount-bounds, calculate_discount-accepted}
use cinema_loyalty_service.Service.{serve_all}
use cinema_loyalty_service.Service.Refinement.{
  AccountRun, stay, accounts_of, Refines, serve_all-refines,
}
use cinema_loyalty_service.Store.Profiles.{
  replace_profile, new_profile, find_profile, balance_of, fits,
}
use cinema_loyalty_service.Store.Tx.{with_transaction_retry, returned, done}
use cinema_loyalty_service.Store.Types.{Profile, Uuid, deduct_points_op, LocalDate, Db}

abbrev leap_day : LocalDate
leap_day = local_date 2024 2 29

-- 2024-02-29
abbrev leap_text : Text
leap_text = b'2' ∷ b'0' ∷ b'2' ∷ b'4' ∷ b'-' ∷ b'0' ∷ b'2' ∷ b'-' ∷ b'2' ∷ b'9' ∷ []

abbrev none_parsed : Text → Option LocalDate
none_parsed t = none

leap_day-IsCalendarDate : IsCalendarDate leap_day
unfolding days_in_month
leap_day-IsCalendarDate = (omega arith, omega arith, omega arith, omega arith)

leap_trim : trim leap_text ≡ leap_text
unfolding trim
leap_trim = refl

leap_read : date_only (trim leap_text) ≡ some leap_day
unfolding trim date_only
leap_read = refl

parse_utc_local_date-exact_example :
    (parse_utc_local_date none_parsed leap_text ≡ some leap_day) ↔ (
      (trim leap_text ≡ iso_date leap_day) × IsCalendarDate leap_day × (100 ≤ 2024) × (2024 ≤ 9999))
parse_utc_local_date-exact_example =
    parse_utc_local_date-exact none_parsed leap_text leap_day leap_day leap_read

today-IsCalendarDate : IsCalendarDate clock.today
unfolding days_in_month
today-IsCalendarDate = (omega arith, omega arith, omega arith, omega arith)

is_future_utc_local_date-order_example :
    is_future_utc_local_date leap_day clock.today ≡ is_before clock.today leap_day
is_future_utc_local_date-order_example =
    is_future_utc_local_date-order leap_day clock.today leap_day-IsCalendarDate today-IsCalendarDate

abbrev discounted : Db
discounted = record one_profile { profiles = record rich { balance = pos 100 } ∷ [] }

calculate_discount-bounds_example :
    (worth (calculate_discount user (pos 30000) discounted).points_to_deduct
        +ℤ (calculate_discount user (pos 30000) discounted).amount_to_pay
      ≡ pos 30000)
    × ((calculate_discount user (pos 30000) discounted).is_allowed ≡ true
        → (pos 75 ≤ℤ (calculate_discount user (pos 30000) discounted).points_to_deduct)
          × ((calculate_discount user (pos 30000) discounted).points_to_deduct
              ≤ℤ balance_of user discounted.profiles)
          × (worth (calculate_discount user (pos 30000) discounted).points_to_deduct
              ≤ℤ (calculate_discount user (pos 30000) discounted).amount_to_pay))
    × ((calculate_discount user (pos 30000) discounted).is_allowed ≡ false
        → (calculate_discount user (pos 30000) discounted).points_to_deduct ≡ pos 0)
calculate_discount-bounds_example = calculate_discount-bounds user (pos 30000) discounted

abbrev order_command : PointCommand
order_command = record {
  operation = deduct_points_op;
  user_id = user;
  order_id = order;
  amount = pos 100;
  idempotency_key = key;
}

abbrev other_key : Text
other_key = b'k' ∷ b'2' ∷ []

calculate_discount-accepted_example :
    (d : Db) × (deduct_body clock order_command [] discounted
      ≡ done (accepted (pos 100 -ℤ pos 100)) d)
unfolding calculate_discount discount_of find_profile balance_of find_processed fits is_int32
calculate_discount-accepted_example =
    calculate_discount-accepted clock (pos 30000) order_command rich discounted refl refl refl refl
      refl

order_command-IsCovered : IsCovered order_command rich discounted
unfolding find_profile find_processed fits is_int32
order_command-IsCovered = (refl, refl, refl, omega arith, omega arith)

order_command-IsFirstCheckout : IsFirstCheckout order_command other_key discounted
unfolding find_processed text_eq select find_first
order_command-IsFirstCheckout = (refl, refl, refl, refl, refl)

deduct_body-accepted_example :
    deduct_body clock order_command [] discounted
    ≡ done (accepted (pos 100 -ℤ pos 100)) (after_deduction clock order_command rich discounted)
deduct_body-accepted_example =
    deduct_body-accepted clock order_command rich discounted order_command-IsCovered

refund_body-restores_example :
    (d : Db) × (d' : Db) × (deduct_body clock order_command [] discounted
      ≡ done (accepted (pos 100 -ℤ pos 100)) d)
    × (refund_body (refund_of order_command other_key) [] d ≡ done (accepted (pos 100)) d')
    × ((v : Uuid) → balance_of v d'.profiles ≡ balance_of v discounted.profiles)
refund_body-restores_example =
    refund_body-restores clock order_command rich discounted other_key order_command-IsCovered
      order_command-IsFirstCheckout

calm-Refines : (u : Uuid) (n : ℕ) (db : Db) → Refines (accounts_of db) db
calm-Refines u n db = stay

serve_all-refines_example : AccountRun (accounts_of empty) (accounts_of (serve_all history empty))
serve_all-refines_example =
    serve_all-refines history empty
      (calm-Refines, (calm-Refines, (calm-Refines, (calm-Refines, (calm-Refines, tt)))))

abbrev expired : Uuid → Profile
expired u = record (new_profile u u) { balance = pos 70; balance_expires_at = some 900 }

abbrev two_expired : Db
two_expired = record empty { profiles = expired 9 ∷ rich ∷ expired 1 ∷ []; next_id = 10 }

scan-Scanned_example :
    Scanned (is_expired 1000) (expire_one (λ u. attempts) 1000) none 0 two_expired (
      scan
        (is_expired 1000)
        (expire_one (λ u. attempts) 1000)
        (passes (is_expired 1000) two_expired)
        none
        0
        two_expired)
scan-Scanned_example =
    scan-Scanned (is_expired 1000) (expire_one (λ u. attempts) 1000) 0 two_expired

-- both profiles are counted, after a retry each
two_expired_count :
    (scan
      (is_expired 1000)
      (expire_one (λ u. attempts) 1000)
      (passes (is_expired 1000) two_expired)
      none
      0
      two_expired).0
    ≡ returned 2
unfolding scan next_batch expire_body select with_transaction_retry find_profile fits is_int32
    replace_profile
two_expired_count = refl
