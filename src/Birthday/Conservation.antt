-- ===== src/Birthday/Conservation.antt =====
-- Birthday bonuses keep the ledger.
use cinema_loyalty_service.Prelude.{
  Bool-cases, Option-cases, inl, inr, ◌≡◌, refl, some, int_laws, is_some, find_first, ◌∷◌,
}
use cinema_loyalty_service.Birthday.{
  store_birthday, is_grant_of, create_grant, with_bonus, book_bonus, has_birthday,
  grant_birthday_bonus_in_transaction, grant_for_user_body, date_of_birth_body,
}
use cinema_loyalty_service.Calculator.{Clock}
use cinema_loyalty_service.Dates.{is_same_utc_month_day}
use cinema_loyalty_service.Ledger.Steps.{
  LedgerStep, LedgerStep_same, ensured-LedgerStep, replace_profile-posted, replace_profile-unposted,
  replace_profile-balances, LedgerMove-after,
}
use cinema_loyalty_service.Store.Profiles.{
  replace_profile, find_profile, ensure_profile, lock_loyalty_profile, update_profile-Keeps,
}
use cinema_loyalty_service.Store.Rules.{find_profile_or_throw-Keeps, Keeps-mono}
use cinema_loyalty_service.Store.Tx.{Keeps, Tx, ◌>>◌}
use cinema_loyalty_service.Store.Types.{Db, Uuid, Profile, LocalDate, BonusGrant}

create_grant-Keeps :
    {A : Type 0} (P : Db → Type 0) (g : BonusGrant) (k : Tx A) (db : Db)
    → Keeps P (k (record db { grants = g ∷ db.grants }))
    → Keeps P ((create_grant g >> k) db)
unfolding create_grant
create_grant-Keeps P g k db h =
    elim (Bool-cases (is_some (find_first (is_grant_of g.user_id g.grant_year) db.grants))) [
      | inl taken ↦ rw taken tt
      | inr free ↦ rw free h
    ]

book_bonus-LedgerStep :
    (clock : Clock) (u : Uuid) (p : Profile) (db : Db)
    → find_profile u db.profiles ≡ some p
    → Keeps (LedgerStep db) (book_bonus clock u p db)
unfolding book_bonus with_bonus
book_bonus-LedgerStep clock u p db found =
    update_profile-Keeps (LedgerStep db) (with_bonus clock p) _ db (λ ok.
      create_grant-Keeps (LedgerStep db) _ _ _ (
        replace_profile-posted u p (with_bonus clock p) _ _ _ found refl refl refl
          (λ h. omega int_laws)))

-- A grant that commits is a step of the ledger.
pub grant_birthday_bonus_in_transaction-LedgerStep :
    (clock : Clock) (u : Uuid) (db : Db)
    → Keeps (LedgerStep db) (grant_birthday_bonus_in_transaction clock u db)
unfolding grant_birthday_bonus_in_transaction
grant_birthday_bonus_in_transaction-LedgerStep clock u db =
    elim (Bool-cases (is_some (find_first (is_grant_of u clock.today.year) db.grants))) [
      | inl old ↦ rw old LedgerStep_same
      | inr new ↦ elim (Option-cases (find_profile u db.profiles)) [
        | inl missing ↦ rw (new, missing) LedgerStep_same
        | inr (p, found) ↦ elim (Bool-cases (has_birthday clock p.birthday_date)) [
          | inl today ↦ rw (new, found, today) (book_bonus-LedgerStep clock u p db found)
          | inr other ↦ rw (new, found, other) LedgerStep_same
        ]
      ]
    ]

pub grant_for_user_body-LedgerStep :
    (clock : Clock) (u : Uuid) (db : Db) → Keeps (LedgerStep db) (grant_for_user_body clock u db)
unfolding grant_for_user_body lock_loyalty_profile
grant_for_user_body-LedgerStep clock u db =
    elim (Bool-cases (is_some (find_profile u db.profiles))) [
      | inl locked ↦ rw locked (grant_birthday_bonus_in_transaction-LedgerStep clock u db)
      | inr missing ↦ rw missing LedgerStep_same
    ]

stored-LedgerStep :
    (clock : Clock) (u : Uuid) (b : LocalDate) (p : Profile) (db : Db)
    → find_profile u db.profiles ≡ some p
    → Keeps (LedgerStep db) (store_birthday clock u b p db)
unfolding store_birthday
stored-LedgerStep clock u b p db found =
    let q : Profile = record p { birthday_date = some b } in
    let later : Db = record db { profiles = replace_profile q db.profiles } in
    update_profile-Keeps (LedgerStep db) q _ db (λ ok.
      elim (Bool-cases (is_same_utc_month_day b clock.today)) [
        | inr other ↦ rw other (replace_profile-unposted u p q _ _ found refl refl)
        | inl today ↦ rw today (
            Keeps-mono (LedgerStep later) (LedgerStep db) _
              (λ d m.
                LedgerMove-after (replace_profile-balances u p q db.profiles found refl refl) m)
              (grant_birthday_bonus_in_transaction-LedgerStep clock u later))
      ])

-- Storing a date of birth, with its bonus if it is today, is a step of the ledger.
pub date_of_birth_body-LedgerStep :
    (clock : Clock) (u : Uuid) (b : LocalDate) (db : Db)
    → Keeps (LedgerStep db) (date_of_birth_body clock u b db)
unfolding date_of_birth_body lock_loyalty_profile
date_of_birth_body-LedgerStep clock u b db =
    let opened = ensure_profile u db in
    ensured-LedgerStep u db _ (
      find_profile_or_throw-Keeps (LedgerStep opened) u (store_birthday clock u b) opened
        (λ p found. stored-LedgerStep clock u b p opened found))
