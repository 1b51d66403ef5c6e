-- ===== src/Birthday.antt =====
-- Birthday bonuses: `processUserDateOfBirthSet`, `grantBirthdayBonuses` and their helpers
-- (src/loyalty/loyalty.service.ts).
pub mod Conservation
pub mod Yearly
pub mod Saved
use cinema_loyalty_service.Prelude.{
  Text, ℤ, pos, ◌+ℤ◌, ℕ, Bool, true, false, ◌&&◌, Option, none, some, ◌∷◌, ◌==◌, if◌then◌else◌,
  is_some, find_first,
}
use cinema_loyalty_service.Calculator.{Clock, resolve_new_tier}
use cinema_loyalty_service.Dates.{
  parse_utc_local_date, is_same_utc_month_day, is_future_utc_local_date,
}
use cinema_loyalty_service.Store.Profiles.{
  record_tier_change, find_profile, lock_loyalty_profile, update_profile, find_profile_or_throw,
  create_transaction,
}
use cinema_loyalty_service.Store.Tx.{
  ◌>>=◌, ◌>>◌, p2002, invalid_date_of_birth, Failure, permanent_message, known_request, done,
  thrown, Tx, pure, Attempt, Answer, returned, raised, with_transaction_retry,
}
use cinema_loyalty_service.Store.Types.{Uuid, earn_birthday, LocalDate, Profile, BonusGrant, Db}

pub data BirthdayResult : Type 0 where
  saved already_granted not_birthday profile_missing : BirthdayResult
  bonus_granted : ℤ → ℤ → BirthdayResult

abbrev pub birthday_bonus_points : ℕ
birthday_bonus_points = 100

abbrev pub is_grant_of : Uuid → ℕ → BonusGrant → Bool
is_grant_of u y g = g.user_id == u && g.grant_year == y

-- INSERT INTO user_bonus_grants, under the unique (userId, type, grantYear)
unfoldable pub create_grant : BonusGrant → Tx (Unit {0})
create_grant g db =
    if is_some (find_first (is_grant_of g.user_id g.grant_year) db.grants)
    then thrown (known_request p2002 none)
    else done tt (record db { grants = g ∷ db.grants })

-- the profile after the bonus
unfoldable pub with_bonus : Clock → Profile → Profile
with_bonus clock p = record p {
  balance = p.balance +ℤ pos birthday_bonus_points;
  lifetime_points = p.lifetime_points +ℤ pos birthday_bonus_points;
  year_points = p.year_points +ℤ pos birthday_bonus_points;
  tier = resolve_new_tier p.tier p.year_visits (p.year_points +ℤ pos birthday_bonus_points);
  last_activity_at = some clock.now;
  balance_expires_at = some (clock.one_year_later clock.now);
}

-- the writes of a grant
unfoldable pub book_bonus : Clock → Uuid → Profile → Tx BirthdayResult
unfolding with_bonus update_profile create_transaction create_grant record_tier_change
book_bonus clock u p = do
  let q = with_bonus clock p
  update_profile q
  entry ← create_transaction u earn_birthday (pos birthday_bonus_points) q.balance none
  create_grant (record {
    user_id = u;
    grant_year = clock.today.year;
    points = pos birthday_bonus_points;
    points_transaction_id = entry;
    granted_at = clock.now;
  })
  record_tier_change u p.tier q.tier clock.now
  pure (bonus_granted (pos birthday_bonus_points) q.balance)

abbrev pub has_birthday : Clock → Option LocalDate → Bool
has_birthday clock none = false
has_birthday clock (some b) = is_same_utc_month_day b clock.today

unfoldable pub grant_birthday_bonus_in_transaction : Clock → Uuid → Tx BirthdayResult
unfolding book_bonus is_same_utc_month_day
grant_birthday_bonus_in_transaction clock u db =
    if is_some (find_first (is_grant_of u clock.today.year) db.grants)
    then done already_granted db
    else elim (find_profile u db.profiles) [
      | none ↦ done profile_missing db
      | some p ↦
          if has_birthday clock p.birthday_date
          then book_bonus clock u p db
          else done not_birthday db
    ]

unfoldable pub grant_for_user_body : Clock → Uuid → Tx BirthdayResult
unfolding grant_birthday_bonus_in_transaction lock_loyalty_profile
grant_for_user_body clock u = do
  locked ← lock_loyalty_profile u false
  (λ db. if locked then grant_birthday_bonus_in_transaction clock u db else done profile_missing db)

abbrev pub is_unique_constraint_error : Failure → Bool
is_unique_constraint_error (known_request p2002 _) = true
is_unique_constraint_error _ = false

abbrev pub catch_grant : Answer BirthdayResult → Answer BirthdayResult
catch_grant (returned r) = returned r
catch_grant (raised e) = if is_unique_constraint_error e then returned already_granted else raised e

unfoldable pub grant_birthday_bonus_for_user :
    (ℕ → Attempt) → Clock → Uuid → Db → Answer BirthdayResult × Db
unfolding grant_for_user_body
grant_birthday_bonus_for_user env clock u db =
    let (r, db') = with_transaction_retry env (λ raced. grant_for_user_body clock u) db in
    (catch_grant r, db')

-- the date is stored, and a birthday today is rewarded
unfoldable pub store_birthday : Clock → Uuid → LocalDate → Profile → Tx BirthdayResult
unfolding grant_birthday_bonus_in_transaction update_profile
store_birthday clock u birthday p = do
  update_profile (record p { birthday_date = some birthday })
  (λ db.
      if is_same_utc_month_day birthday clock.today
      then grant_birthday_bonus_in_transaction clock u db
      else done saved db)

-- the transaction of a date of birth
unfoldable pub date_of_birth_body : Clock → Uuid → LocalDate → Tx BirthdayResult
unfolding store_birthday lock_loyalty_profile find_profile_or_throw
date_of_birth_body clock u birthday = do
  lock_loyalty_profile u true
  p ← find_profile_or_throw u
  store_birthday clock u birthday p

abbrev swallow_duplicate : Answer BirthdayResult → Answer (Unit {0})
swallow_duplicate (returned r) = returned tt
swallow_duplicate (raised e) = if is_unique_constraint_error e then returned tt else raised e

-- `new_date` is that of `parseUtcLocalDate`
unfoldable pub process_user_date_of_birth_set :
    (Text → Option LocalDate) → (ℕ → Attempt) → Clock → Uuid → Text → Db → Answer (Unit {0}) × Db
unfolding date_of_birth_body
process_user_date_of_birth_set new_date env clock u date_of_birth db =
    elim (parse_utc_local_date new_date date_of_birth) [
      | none ↦ (raised (permanent_message invalid_date_of_birth), db)
      | some b ↦
          if is_future_utc_local_date b clock.today
          then (raised (permanent_message invalid_date_of_birth), db)
          else let (r, db') =
              with_transaction_retry env (λ raced. date_of_birth_body clock u b) db in
            (swallow_duplicate r, db')
    ]
