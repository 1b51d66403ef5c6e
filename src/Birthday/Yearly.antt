-- ===== src/Birthday/Yearly.antt =====
-- One birthday bonus for a user and a year.
use cinema_loyalty_service.Prelude.{
  Bool, false, ◌&&◌, ◌==◌, ℕ, Text, sym, subst, ◌≡◌, ◌≤◌, refl, true, some, none, inl, inr,
  Bool-cases, Option-cases, Option, List, ◌∷◌, arith, is_some, find_first, count_where,
  find_first-count_where,
}
use cinema_loyalty_service.Birthday.{
  is_grant_of, grant_birthday_bonus_for_user, process_user_date_of_birth_set, with_bonus,
  create_grant, book_bonus, has_birthday, grant_birthday_bonus_in_transaction, grant_for_user_body,
  date_of_birth_body, BirthdayResult, store_birthday,
}
use cinema_loyalty_service.Calculator.{Clock}
use cinema_loyalty_service.Dates.{
  parse_utc_local_date, is_same_utc_month_day, is_future_utc_local_date,
}
use cinema_loyalty_service.Store.Profiles.{
  find_profile, ensure_profile, lock_loyalty_profile, update_profile-Keeps,
}
use cinema_loyalty_service.Store.Rules.{find_profile_or_throw-Keeps, Keeps-mono}
use cinema_loyalty_service.Store.Tx.{
  Keeps, Attempt, retry_from_inv, with_transaction_retry, ◌>>◌, Tx,
}
use cinema_loyalty_service.Store.Types.{
  TransactionType, earn_birthday, PointsTransaction, Db, Uuid, Profile, BonusGrant, LocalDate,
}

-- A user has at most one bonus of a year.
abbrev pub IsYearly : List BonusGrant → Type 0
IsYearly gs = (u : Uuid) (y : ℕ) → count_where (is_grant_of u y) gs ≤ 1

granted-IsYearly :
    (g : BonusGrant) (gs : List BonusGrant)
    → find_first (is_grant_of g.user_id g.grant_year) gs ≡ none
    → IsYearly gs
    → IsYearly (g ∷ gs)
unfolding count_where
granted-IsYearly g gs free h u y =
    let none_yet = find_first-count_where (is_grant_of g.user_id g.grant_year) gs free in
    elim (Bool-cases (is_grant_of u y g)) [
      | inl same ↦
          let (own, at) = grant_of g u y same in
          let none_here : count_where (is_grant_of u y) gs ≡ 0 =
            subst (λ v. count_where (is_grant_of v y) gs ≡ 0) (sym own)
              (subst (λ n. count_where (is_grant_of g.user_id n) gs ≡ 0) (sym at) none_yet) in
          rw same (omega (arith, none_here))
      | inr other ↦ rw other (omega (arith, h u y))
    ]
  where
    grant_of :
        (g : BonusGrant) (u : Uuid) (y : ℕ)
        → is_grant_of u y g ≡ true
        → (u ≡ g.user_id) × (y ≡ g.grant_year)
    grant_of g u y h = ground arith

abbrev is_birthday : TransactionType → Bool
is_birthday earn_birthday = true
is_birthday _ = false

-- a bonus in the ledger, and a row of user_bonus_grants
abbrev pub is_bonus_entry : Uuid → PointsTransaction → Bool
is_bonus_entry u t = t.user_id == u && is_birthday t.type

abbrev pub is_bonus_of : Uuid → BonusGrant → Bool
is_bonus_of u g = g.user_id == u

-- A user has at most one bonus of a year, and as many bonuses in the ledger as rows of bonuses.
pub record ArePaidOnce (ts : List PointsTransaction) (gs : List BonusGrant) : Type 0 where
  pub yearly : IsYearly gs
  pub paid : (u : Uuid) → count_where (is_bonus_entry u) ts ≡ count_where (is_bonus_of u) gs

granted-ArePaidOnce :
    (t : PointsTransaction) (g : BonusGrant) (ts : List PointsTransaction) (gs : List BonusGrant)
    → find_first (is_grant_of g.user_id g.grant_year) gs ≡ none
    → t.user_id ≡ g.user_id
    → is_birthday t.type ≡ true
    → ArePaidOnce ts gs
    → ArePaidOnce (t ∷ ts) (g ∷ gs)
unfolding count_where
granted-ArePaidOnce t g ts gs free own bonus h = record {
  yearly = granted-IsYearly g gs free h.yearly;
  paid = λ u. let e = h.paid u in rw (own, bonus) (ground (arith, e));
}

abbrev pub IsPaidOnce : Db → Type 0
IsPaidOnce d = ArePaidOnce d.transactions d.grants

-- what a bonus keeps
abbrev KeepsPaid : Db → Db → Type 0
KeepsPaid db d = IsPaidOnce db → IsPaidOnce d

create_grant-free-Keeps :
    (t : PointsTransaction) (g : BonusGrant) (k : Tx BirthdayResult) (start db : Db)
    → db.grants ≡ start.grants
    → db.transactions ≡ t ∷ start.transactions
    → t.user_id ≡ g.user_id
    → is_birthday t.type ≡ true
    → ((ArePaidOnce start.transactions start.grants
          → ArePaidOnce (t ∷ start.transactions) (g ∷ start.grants))
        → Keeps (KeepsPaid start) (k (record db { grants = g ∷ db.grants })))
    → Keeps (KeepsPaid start) ((create_grant g >> k) db)
unfolding create_grant
create_grant-free-Keeps t g k start db same entry own bonus h =
    elim (Option-cases (find_first (is_grant_of g.user_id g.grant_year) db.grants)) [
      | inr (e, taken) ↦ rw taken tt
      | inl free ↦ rw free (
          h (λ y.
            granted-ArePaidOnce t g start.transactions start.grants (rw same at free) own bonus y))
    ]

book_bonus-IsPaidOnce :
    (clock : Clock) (u : Uuid) (p : Profile) (db : Db)
    → Keeps (KeepsPaid db) (book_bonus clock u p db)
unfolding book_bonus with_bonus
book_bonus-IsPaidOnce clock u p db =
    update_profile-Keeps (KeepsPaid db) (with_bonus clock p) _ db
      (λ ok. create_grant-free-Keeps _ _ _ db _ refl refl refl refl (λ kept. kept))

grant_birthday_bonus_in_transaction-IsPaidOnce :
    (clock : Clock) (u : Uuid) (db : Db)
    → Keeps (KeepsPaid db) (grant_birthday_bonus_in_transaction clock u db)
unfolding grant_birthday_bonus_in_transaction
grant_birthday_bonus_in_transaction-IsPaidOnce clock u db =
    elim (Bool-cases (is_some (find_first (is_grant_of u clock.today.year) db.grants))) [
      | inl old ↦ rw old (λ h. h)
      | inr new ↦ elim (Option-cases (find_profile u db.profiles)) [
        | inl missing ↦ rw (new, missing) (λ h. h)
        | inr (p, found) ↦ elim (Bool-cases (has_birthday clock p.birthday_date)) [
          | inl today ↦ rw (new, found, today) (book_bonus-IsPaidOnce clock u p db)
          | inr other ↦ rw (new, found, other) (λ h. h)
        ]
      ]
    ]

stored-IsPaidOnce :
    (clock : Clock) (u : Uuid) (b : LocalDate) (p : Profile) (db : Db)
    → Keeps (KeepsPaid db) (store_birthday clock u b p db)
unfolding store_birthday
stored-IsPaidOnce clock u b p db =
    let q : Profile = record p { birthday_date = some b } in
    update_profile-Keeps (KeepsPaid db) q _ db (λ ok.
      elim (Bool-cases (is_same_utc_month_day b clock.today)) [
        | inr other ↦ rw other (λ h. h)
        | inl today ↦ rw today (grant_birthday_bonus_in_transaction-IsPaidOnce clock u _)
      ])

grant_for_user_body-IsPaidOnce :
    (clock : Clock) (u : Uuid) (db : Db) → Keeps (KeepsPaid db) (grant_for_user_body clock u db)
unfolding grant_for_user_body lock_loyalty_profile
grant_for_user_body-IsPaidOnce clock u db =
    elim (Bool-cases (is_some (find_profile u db.profiles))) [
      | inl locked ↦ rw locked (grant_birthday_bonus_in_transaction-IsPaidOnce clock u db)
      | inr missing ↦ rw missing (λ h. h)
    ]

date_of_birth_body-IsPaidOnce :
    (clock : Clock) (u : Uuid) (b : LocalDate) (db : Db)
    → Keeps (KeepsPaid db) (date_of_birth_body clock u b db)
unfolding date_of_birth_body lock_loyalty_profile
date_of_birth_body-IsPaidOnce clock u b db =
    find_profile_or_throw-Keeps (KeepsPaid db) u (store_birthday clock u b) (ensure_profile u db)
      (λ p found. stored-IsPaidOnce clock u b p (ensure_profile u db))

module _ (env : ℕ → Attempt)
    (fair : (n : ℕ) (d : Db) → IsPaidOnce d → IsPaidOnce ((env n).before d)) where
  transaction-IsPaidOnce :
      {A : Type 0} (body : Tx A)
      → ((d : Db) → Keeps (KeepsPaid d) (body d))
      → (db : Db) → IsPaidOnce db
      → IsPaidOnce (with_transaction_retry env (λ raced. body) db).1
  unfolding with_transaction_retry
  transaction-IsPaidOnce body keeps db h =
      retry_from_inv IsPaidOnce env (λ raced. body) fair (λ n d k. k)
        (λ n d k. Keeps-mono (KeepsPaid d) IsPaidOnce _ (λ e keep. keep k) (keeps d)) 2 db h

  date_of_birth-IsPaidOnce :
      (new_date : Text → Option LocalDate) (clock : Clock) (u : Uuid) (text : Text) (db : Db)
      → IsPaidOnce db
      → IsPaidOnce (process_user_date_of_birth_set new_date env clock u text db).1
  unfolding process_user_date_of_birth_set
  date_of_birth-IsPaidOnce new_date clock u text db h =
      elim (Option-cases (parse_utc_local_date new_date text)) [
        | inl wrong ↦ rw (wrong, process_user_date_of_birth_set) h
        | inr (b, parsed) ↦ elim (Bool-cases (is_future_utc_local_date b clock.today)) [
          | inl future ↦ rw (parsed, process_user_date_of_birth_set, future) h
          | inr past ↦
              rw (parsed, process_user_date_of_birth_set, past)
                (transaction-IsPaidOnce _ (date_of_birth_body-IsPaidOnce clock u b) db h)
        ]
      ]

-- If no user has two birthday bonuses of a year, and each user as many in the ledger as rows of
-- bonuses, and the other sessions keep it so, then the birthday job's grant and a message with a date
-- of birth keep it so, too, however often their transactions fail and are retried: no bonus is paid
-- that is not counted, and none a second time in a year.
pub birthday_requests-IsPaidOnce :
    (new_date : Text → Option LocalDate) (env : ℕ → Attempt) (clock : Clock) (u : Uuid)
    (text : Text) (db : Db)
    → ((n : ℕ) (d : Db) → IsPaidOnce d → IsPaidOnce ((env n).before d))
    → IsPaidOnce db
    → IsPaidOnce (grant_birthday_bonus_for_user env clock u db).1
      × IsPaidOnce (process_user_date_of_birth_set new_date env clock u text db).1
unfolding grant_birthday_bonus_for_user
birthday_requests-IsPaidOnce new_date env clock u text db fair h = (
  transaction-IsPaidOnce env fair _ (grant_for_user_body-IsPaidOnce clock u) db h,
  date_of_birth-IsPaidOnce env fair new_date clock u text db h,
)
