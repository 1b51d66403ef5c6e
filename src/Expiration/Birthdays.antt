-- ===== src/Expiration/Birthdays.antt =====
-- What the job of the birthday bonuses leaves to be done.
use cinema_loyalty_service.Prelude.{
  ℕ, none, [], ap, subst, sym, arith, ◌≡◌, refl, ◌∙◌, inl, inr, true, false, Option, some, List,
  Bool-cases, Option-cases,
}
use cinema_loyalty_service.Birthday.{
  BirthdayResult, grant_birthday_bonus_for_user, has_birthday, grant_for_user_body,
  is_unique_constraint_error,
}
use cinema_loyalty_service.Calculator.{Clock}
use cinema_loyalty_service.Expiration.{grant_today, has_birthday_date, grant_birthday_bonuses}
use cinema_loyalty_service.Expiration.Scan.{scan-Scanned}
use cinema_loyalty_service.Expiration.Batches.{Descends}
use cinema_loyalty_service.Expiration.Visits.{Scanned-visits, Spares}
use cinema_loyalty_service.Expiration.Work.{ids, find_profile-Has, Has-find_profile, Has, AreUnique}
use cinema_loyalty_service.Store.Profiles.{find_profile-user_id, find_profile}
use cinema_loyalty_service.Store.Retry.{
  with_transaction_retry-committed, with_transaction_retry-raised,
}
use cinema_loyalty_service.Store.Rules.{Keeps-mono}
use cinema_loyalty_service.Store.Tx.{
  Tx, Attempt, returned, raised, with_transaction_retry, Answer, Answer-cases, Failure,
}
use cinema_loyalty_service.Store.Types.{ProcessedEvent, Uuid, Profile, LocalDate, Db}
use cinema_loyalty_service.Expiration.Grants.{
  is_owed, Settled, Dated, grant_for_user_body-fails, grant_for_user_body-Settled, Settled-same,
  and_not, left_alone-Spares, Settled-Spares,
}

module _ (env : Uuid → ℕ → Attempt) (clock : Clock) (born : Uuid → Option LocalDate)
    (same_rows : (u : Uuid) (n : ℕ) (d : Db) → ((env u n).before d).profiles ≡ d.profiles)
    (same_grants : (u : Uuid) (n : ℕ) (d : Db) → ((env u n).before d).grants ≡ d.grants)
    (faults : (u : Uuid) (n : ℕ) (e : Failure)
      → (env u n).fault ≡ some e
      → is_unique_constraint_error e ≡ false) where
  -- the transaction of a user whose birthday is today
  paid_today :
      (u : Uuid) (d : Db) (n : ℕ)
      → ((r : Profile) → Has r d.profiles → Dated born r)
      → AreUnique d.profiles
      → (elim (grant_birthday_bonus_for_user (env u) clock u d).0 as (λ x. Answer ℕ) [
        | returned _ ↦ returned 1
        | raised e ↦ raised e
      ])
        ≡ returned n
      → Spares (Dated born) (is_owed clock) u d (grant_birthday_bonus_for_user (env u) clock u d).1
  unfolding grant_birthday_bonus_for_user
  paid_today u d n rows unique won =
      let body : List ProcessedEvent → Tx BirthdayResult = λ raced. grant_for_user_body clock u in
      elim (Answer-cases (with_transaction_retry (env u) body d).0) [
        | inl (e, q) ↦
            let real =
              with_transaction_retry-raised is_unique_constraint_error body (env u)
                (λ m x f h. grant_for_user_body-fails clock u x f h) (faults u) d e q in
            let x = rw (q, real) at won in absurd (ground (arith, x))
        | inr (r, q) ↦ Settled-Spares clock born u d _ unique rows (
            with_transaction_retry-committed
              (λ x. (x.profiles ≡ d.profiles) × (x.grants ≡ d.grants)) (Settled clock u d) body
              (env u) (λ m x h. (same_rows u m x ∙ h.0, same_grants u m x ∙ h.1)) (λ m x h. h)
              (λ m x h.
                Keeps-mono (Settled clock u x) (Settled clock u d) (body [] x)
                  (λ y. Settled-same clock u x d y h.0 h.1)
                  (grant_for_user_body-Settled clock u x (subst AreUnique (sym h.0) unique)))
              d r (refl, refl) q)
      ]

  grant_today-Spares :
      (p : Profile) (d : Db) (n : ℕ)
      → Dated born p
      → ((r : Profile) → Has r d.profiles → Dated born r)
      → AreUnique d.profiles
      → (grant_today env clock p d).0 ≡ returned n
      → Spares (Dated born) (is_owed clock) p.user_id d (grant_today env clock p d).1
  grant_today-Spares p d n dated rows unique won =
      elim (Bool-cases (has_birthday clock p.birthday_date)) [
        | inl today ↦ rw today (paid_today p.user_id d n rows unique (rw today at won))
        | inr other ↦ rw other (
            left_alone-Spares clock born p.user_id d d unique rows refl refl (λ r h own.
              let same : r.birthday_date ≡ p.birthday_date = rows r h ∙ ap born own ∙ sym dated in
              rw (same, other) refl))
      ]

abbrev born_in : List Profile → Uuid → Option LocalDate
born_in rows u = elim (find_profile u rows) [ none ↦ none | some p ↦ p.birthday_date ]

born_in-Dated :
    (rows : List Profile) → AreUnique rows → (r : Profile) → Has r rows → Dated (born_in rows) r
born_in-Dated rows unique r h = elim (Option-cases (find_profile r.user_id rows)) [
  | inl nobody ↦ let x = rw nobody at (Has-find_profile r rows h) in cc
  | inr (p, found) ↦
      let same : r ≡ p =
        unique r p h (find_profile-Has r.user_id rows p found)
          (sym (find_profile-user_id r.user_id rows p found)) in
      rw (found, born_in) (ap Profile.birthday_date same)
]

-- A run of the birthday job that ends without a failure leaves no birthday of today without a bonus of
-- the year. The rows are stored by descending id with one row for each user, and meanwhile no other
-- session changes a profile or a bonus, nor does the database report a bonus that is there twice.
pub grant_birthday_bonuses_complete :
    (env : Uuid → ℕ → Attempt) (clock : Clock) (db : Db) (n : ℕ)
    → ((u : Uuid) (m : ℕ) (d : Db) → ((env u m).before d).profiles ≡ d.profiles)
    → ((u : Uuid) (m : ℕ) (d : Db) → ((env u m).before d).grants ≡ d.grants)
    → ((u : Uuid) (m : ℕ) (e : Failure)
        → (env u m).fault ≡ some e
        → is_unique_constraint_error e ≡ false)
    → AreUnique db.profiles
    → Descends (ids db.profiles)
    → (grant_birthday_bonuses env clock db).0 ≡ returned n
    → (r : Profile) → Has r (grant_birthday_bonuses env clock db).1.profiles
    → is_owed clock (grant_birthday_bonuses env clock db).1 r ≡ false
unfolding grant_birthday_bonuses
grant_birthday_bonuses_complete env clock db n same_rows same_grants faults unique descends won =
    let born = born_in db.profiles in
    Scanned-visits has_birthday_date (grant_today env clock) (is_owed clock) (Dated born)
      (λ d r w. has_date r (and_not _ _ w).0)
      (grant_today-Spares env clock born same_rows same_grants faults) none 0 n db _
      (scan-Scanned has_birthday_date (grant_today env clock) 0 db)
      (record {
        rows = born_in-Dated db.profiles unique;
        unique = unique;
        descends = descends;
        left = λ r h w. refl;
      })
      won
  where
    has_date :
        (r : Profile) → has_birthday clock r.birthday_date ≡ true → has_birthday_date r ≡ true
    has_date r h = elim (Option-cases r.birthday_date) [
      | inl no_date ↦ let x = rw no_date at h in cc
      | inr (b, known) ↦ rw known refl
    ]
