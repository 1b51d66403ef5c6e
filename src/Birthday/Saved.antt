-- ===== src/Birthday/Saved.antt =====
-- A date of birth after the bonus of the year.
use cinema_loyalty_service.Prelude.{
  Text, ℕ, ◌≡◌, refl, inl, inr, true, false, Option, some, Bool-cases, is_some, find_first,
}
use cinema_loyalty_service.Birthday.{
  is_grant_of, BirthdayResult, saved, already_granted, store_birthday, date_of_birth_body,
  grant_birthday_bonus_in_transaction, process_user_date_of_birth_set,
}
use cinema_loyalty_service.Calculator.{Clock}
use cinema_loyalty_service.Dates.{
  parse_utc_local_date, is_same_utc_month_day, is_future_utc_local_date,
}
use cinema_loyalty_service.Store.Profiles.{
  find_profile, find_profile_or_throw, lock_loyalty_profile, update_profile, fits, replace_profile,
}
use cinema_loyalty_service.Store.Retry.{IsUndisturbed, with_transaction_retry-undisturbed}
use cinema_loyalty_service.Store.Tx.{Attempt, returned, done}
use cinema_loyalty_service.Store.Types.{Db, Uuid, Profile, LocalDate}

-- the database with a member's date of birth
abbrev pub with_birthday : Profile → LocalDate → Db → Db
with_birthday p b db = record db {
  profiles = replace_profile (record p { birthday_date = some b }) db.profiles;
}

store_birthday-again :
    (clock : Clock) (u : Uuid) (b : LocalDate) (p : Profile) (db : Db)
    → fits (record p { birthday_date = some b }) ≡ true
    → is_some (find_first (is_grant_of u clock.today.year) db.grants) ≡ true
    → (r : BirthdayResult) × (store_birthday clock u b p db ≡ done r (with_birthday p b db))
unfolding store_birthday update_profile grant_birthday_bonus_in_transaction
store_birthday-again clock u b p db ok old =
    elim (Bool-cases (is_same_utc_month_day b clock.today)) [
      | inl today ↦ (already_granted, rw ok (rw today (rw old refl)))
      | inr other ↦ (saved, rw ok (rw other refl))
    ]

date_of_birth_body-again :
    (clock : Clock) (u : Uuid) (b : LocalDate) (p : Profile) (db : Db)
    → find_profile u db.profiles ≡ some p
    → fits (record p { birthday_date = some b }) ≡ true
    → is_some (find_first (is_grant_of u clock.today.year) db.grants) ≡ true
    → (r : BirthdayResult) × (date_of_birth_body clock u b db ≡ done r (with_birthday p b db))
unfolding date_of_birth_body lock_loyalty_profile find_profile_or_throw
date_of_birth_body-again clock u b p db found ok old =
    let (r, e) = store_birthday-again clock u b p db ok old in
    (r, rw found (rw (found, find_profile_or_throw) e))

-- A date of birth is saved, even for a member who has the bonus of the year and whose birthday is
-- today: the date is written, and no balance, ledger entry or bonus changes. The text is a day that is
-- not to come, the accounts fit the columns, and no other session disturbs the first attempt.
pub process_user_date_of_birth_set-again :
    (new_date : Text → Option LocalDate) (env : ℕ → Attempt) (clock : Clock) (u : Uuid)
    (text : Text) (b : LocalDate) (p : Profile) (db : Db)
    → IsUndisturbed (env 2)
    → parse_utc_local_date new_date text ≡ some b
    → is_future_utc_local_date b clock.today ≡ false
    → find_profile u db.profiles ≡ some p
    → fits p ≡ true
    → is_some (find_first (is_grant_of u clock.today.year) db.grants) ≡ true
    → process_user_date_of_birth_set new_date env clock u text db
      ≡ (returned tt, with_birthday p b db)
unfolding process_user_date_of_birth_set fits
process_user_date_of_birth_set-again new_date env clock u text b p db calm parsed past found ok
      old =
    let (r, e) = date_of_birth_body-again clock u b p db found ok old in
    rw (parsed, process_user_date_of_birth_set)
      (rw past (
        rw
          (with_transaction_retry-undisturbed (λ raced. date_of_birth_body clock u b) env db _ r
            calm e)
          refl))
