-- ===== src/Examples/Birthdays.antt =====
-- The job of the birthday bonuses at a concrete input.
use cinema_loyalty_service.Prelude.{
  trim, pos, true, is_some, ◌+ℤ◌, is_int32, select, find_first, ◌≡◌, refl, ◌∙◌, sym, inl, inr,
  false, some, none, [], ◌∷◌, ℕ, ◌==◌, Bool-cases,
}
use cinema_loyalty_service.Birthday.{
  is_grant_of, process_user_date_of_birth_set, grant_birthday_bonus_for_user, with_bonus,
  is_unique_constraint_error,
}
use cinema_loyalty_service.Birthday.Saved.{with_birthday, process_user_date_of_birth_set-again}
use cinema_loyalty_service.Dates.{
  days_in_month, days_in_months, days_before_year, parse_utc_local_date, is_future_utc_local_date,
  is_same_utc_month_day,
}
use cinema_loyalty_service.Examples.{user, key, calm, clock, attempts, rich, one_profile}
use cinema_loyalty_service.Expiration.{grant_birthday_bonuses}
use cinema_loyalty_service.Expiration.Birthdays.{grant_birthday_bonuses_complete}
use cinema_loyalty_service.Expiration.Grants.{is_owed}
use cinema_loyalty_service.Expiration.Work.{Has, AreUnique}
use cinema_loyalty_service.Store.Profiles.{find_profile, replace_profile, fits}
use cinema_loyalty_service.Store.Tx.{
  with_transaction_retry, Failure, returned, known_request, p2034,
}
use cinema_loyalty_service.Store.Types.{Profile, Db, Uuid}

-- a member whose birthday is today
abbrev member : Profile
member = record rich { birthday_date = some (record { year = 1990; month = 5; day = 4 }) }

abbrev members : Db
members = record one_profile { profiles = member ∷ [] }

members-AreUnique : AreUnique members.profiles
members-AreUnique r s (inl h) (inl k) e = h ∙ sym k
members-AreUnique r s (inl h) (inr x) e = elim x [ ]
members-AreUnique r s (inr x) k e = elim x [ ]

conflicts_only :
    (u : Uuid) (m : ℕ) (e : Failure)
    → (attempts m).fault ≡ some e
    → is_unique_constraint_error e ≡ false
conflicts_only u m e h = elim (Bool-cases (m == 2)) [
  | inl first ↦
      let x = rw first at h in let same : e ≡ known_request p2034 none = cc in rw same refl
  | inr no_first ↦ let x = rw no_first at h in cc
]

members_won : (grant_birthday_bonuses (λ u. attempts) clock members).0 ≡ returned 1
unfolding grant_birthday_bonuses select is_same_utc_month_day grant_birthday_bonus_for_user
    with_transaction_retry find_profile find_first fits is_int32 ◌+ℤ◌ replace_profile
members_won = refl

member_left :
    Has (with_bonus clock member) (grant_birthday_bonuses (λ u. attempts) clock members).1.profiles
unfolding grant_birthday_bonuses select is_same_utc_month_day grant_birthday_bonus_for_user
    with_transaction_retry find_profile find_first fits is_int32 ◌+ℤ◌ replace_profile
member_left = inl refl

grant_birthday_bonuses_complete_example :
    is_owed clock (grant_birthday_bonuses (λ u. attempts) clock members).1 (with_bonus clock member)
    ≡ false
grant_birthday_bonuses_complete_example =
    grant_birthday_bonuses_complete (λ u. attempts) clock members 1 (λ u m d. refl) (λ u m d. refl)
      conflicts_only members-AreUnique (tt, tt) members_won (with_bonus clock member) member_left

-- the member with the bonus of the year
abbrev rewarded_members : Db
rewarded_members = record members {
  grants =
      record {
        user_id = user;
        grant_year = 2026;
        points = pos 100;
        points_transaction_id = 1;
        granted_at = 900;
      }
      ∷ [];
}

process_user_date_of_birth_set-again_example :
    process_user_date_of_birth_set
      (λ t. some clock.today)
      (λ n. calm)
      clock
      user
      key
      rewarded_members
    ≡ (returned tt, with_birthday member clock.today rewarded_members)
unfolding parse_utc_local_date trim is_future_utc_local_date days_before_year days_in_months
    days_in_month find_profile fits is_int32 find_first
process_user_date_of_birth_set-again_example =
    process_user_date_of_birth_set-again (λ t. some clock.today) (λ n. calm) clock user key
      clock.today member rewarded_members (λ d. refl, refl) parses in_the_past member_found
      member_fits bonus_there
  where
    parses : parse_utc_local_date (λ t. some clock.today) key ≡ some clock.today
    parses = refl

    in_the_past : is_future_utc_local_date clock.today clock.today ≡ false
    in_the_past = refl

    member_found : find_profile user rewarded_members.profiles ≡ some member
    member_found = refl

    member_fits : fits member ≡ true
    member_fits = refl

    bonus_there :
        is_some (find_first (is_grant_of user clock.today.year) rewarded_members.grants) ≡ true
    bonus_there = refl
