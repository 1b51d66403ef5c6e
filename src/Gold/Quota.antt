-- ===== src/Gold/Quota.antt =====
-- One Gold upgrade for a user and a month.
use cinema_loyalty_service.Prelude.{
  refl, ◌∙◌, ==-refl, ℕ, sym, subst, ◌≡◌, ◌≤◌, true, some, none, inl, inr, Bool-cases, Option-cases,
  Option, List, [], ◌∷◌, arith, is_some, find_first, count_where, update_where,
  find_first-count_where, not,
}
use cinema_loyalty_service.Calculator.{Clock}
use cinema_loyalty_service.Gold.{
  rollback_found, rollback_gold_upgrade_body, use_gold_upgrade, rollback_gold_upgrade, is_active_in,
  used_in, reserve_month, use_fresh, existing_reservation, use_gold_upgrade_body, release,
  is_reservation_of, granted,
}
use cinema_loyalty_service.Store.Profiles.{
  replace_profile, find_profile-replace_profile, find_profile-user_id, find_profile_or_throw,
  find_profile, lock_loyalty_profile, update_profile, update_profile-Keeps,
}
use cinema_loyalty_service.Store.Rules.{find_profile_or_throw-Keeps, throw_if-Keeps, Keeps-mono}
use cinema_loyalty_service.Store.Tx.{Keeps, Attempt, retry_from_inv, with_transaction_retry, done}
use cinema_loyalty_service.Store.Types.{Db, Uuid, Profile, GoldReservation, MonthKey, tier_eq, gold}

-- At most one reservation of a user and a month is not released.
abbrev pub IsWithinQuota : List GoldReservation → Type 0
IsWithinQuota rs = (u : Uuid) (m : MonthKey) → count_where (is_active_in u m) rs ≤ 1

reserved-IsWithinQuota :
    (r : GoldReservation) (rs : List GoldReservation)
    → find_first (is_active_in r.user_id r.month) rs ≡ none
    → IsWithinQuota rs
    → IsWithinQuota (r ∷ rs)
unfolding count_where
reserved-IsWithinQuota r rs free h u m =
    let none_yet = find_first-count_where (is_active_in r.user_id r.month) rs free in
    elim (Bool-cases (is_active_in u m r)) [
      | inl same ↦
          let (own, at) = active_of r u m same in
          let none_here : count_where (is_active_in u m) rs ≡ 0 =
            subst (λ v. count_where (is_active_in v m) rs ≡ 0) (sym own)
              (subst (λ n. count_where (is_active_in r.user_id n) rs ≡ 0) (sym at) none_yet) in
          rw same (omega (arith, none_here))
      | inr other ↦ rw other (omega (arith, h u m))
    ]
  where
    active_of :
        (r : GoldReservation) (u : Uuid) (m : MonthKey)
        → is_active_in u m r ≡ true
        → (u ≡ r.user_id) × (m ≡ r.month)
    active_of r u m h = ground arith

release-count_where :
    (clock : Clock) (n : ℕ) (u : Uuid) (m : MonthKey) (rs : List GoldReservation)
    → count_where (is_active_in u m) (release clock n rs) ≤ count_where (is_active_in u m) rs
unfolding count_where update_where
release-count_where clock n u m [] = omega arith
release-count_where clock n u m (r ∷ rs) = ground (arith, release-count_where clock n u m rs)

-- what the upgrades keep
abbrev KeepsQuota : Db → Db → Type 0
KeepsQuota db d = IsWithinQuota db.reservations → IsWithinQuota d.reservations

reserve_month-IsWithinQuota :
    (clock : Clock) (u o : Uuid) (p : Profile) (db : Db)
    → find_first (is_active_in u clock.month_key) db.reservations ≡ none
    → Keeps (KeepsQuota db) (reserve_month clock u o p db)
unfolding reserve_month
reserve_month-IsWithinQuota clock u o p db free =
    update_profile-Keeps (KeepsQuota db) _ _ _ (λ ok. λ h. reserved-IsWithinQuota _ _ free h)

use_fresh-IsWithinQuota :
    (clock : Clock) (u o : Uuid) (p : Profile) (db : Db)
    → Keeps (KeepsQuota db) (use_fresh clock u o p db)
unfolding use_fresh
use_fresh-IsWithinQuota clock u o p db = elim (Bool-cases (tier_eq p.tier gold)) [
  | inr low ↦ rw low (λ h. h)
  | inl high ↦ elim (Option-cases (find_first (is_active_in u clock.month_key) db.reservations)) [
    | inr (r, taken) ↦ rw (high, taken) (λ h. h)
    | inl free ↦ elim (Bool-cases (used_in p.gold_upgrade_used_month clock.month_key)) [
      | inl used ↦ rw (high, free, used) (λ h. h)
      | inr unused ↦ rw (high, free, unused) (reserve_month-IsWithinQuota clock u o p db free)
    ]
  ]
]

existing_reservation-IsWithinQuota :
    (clock : Clock) (u o : Uuid) (p : Profile) (r : Option GoldReservation) (db : Db)
    → Keeps (KeepsQuota db) (existing_reservation clock u o p r db)
unfolding existing_reservation
existing_reservation-IsWithinQuota clock u o p none db = use_fresh-IsWithinQuota clock u o p db
existing_reservation-IsWithinQuota clock u o p (some r) db =
    elim (Bool-cases (is_some r.released_at)) [
      | inl gone ↦ rw gone (λ h. h)
      | inr live ↦ rw live (λ h. h)
    ]

use_gold_upgrade_body-IsWithinQuota :
    (clock : Clock) (u o : Uuid) (db : Db)
    → Keeps (KeepsQuota db) (use_gold_upgrade_body clock u o db)
unfolding use_gold_upgrade_body lock_loyalty_profile
use_gold_upgrade_body-IsWithinQuota clock u o db =
    throw_if-Keeps (KeepsQuota db) (not (is_some (find_profile u db.profiles))) _ _ db (λ locked.
      find_profile_or_throw-Keeps (KeepsQuota db) u _ db
        (λ p found. existing_reservation-IsWithinQuota clock u o p _ db))

rollback_found-IsWithinQuota :
    (clock : Clock) (u : Uuid) (r : Option GoldReservation) (db : Db)
    → Keeps (KeepsQuota db) (rollback_found clock u r db)
unfolding rollback_found
rollback_found-IsWithinQuota clock u none db = λ h. h
rollback_found-IsWithinQuota clock u (some r) db = elim (Bool-cases (is_some r.released_at)) [
  | inl gone ↦ rw gone (λ h. h)
  | inr live ↦
      rw live (λ h v m. omega (arith, h v m, release-count_where clock r.id v m db.reservations))
]

rollback_gold_upgrade_body-IsWithinQuota :
    (clock : Clock) (u o : Uuid) (db : Db)
    → Keeps (KeepsQuota db) (rollback_gold_upgrade_body clock u o db)
unfolding rollback_gold_upgrade_body lock_loyalty_profile
rollback_gold_upgrade_body-IsWithinQuota clock u o db =
    elim (Bool-cases (is_some (find_profile u db.profiles))) [
      | inl locked ↦ rw locked (rollback_found-IsWithinQuota clock u _ db)
      | inr missing ↦ rw missing (λ h. h)
    ]

-- If no user has two active reservations of a month, and the other sessions keep it so, then
-- neither a Gold upgrade nor its rollback makes two, however often their transactions fail and
-- are retried.
pub gold_requests-IsWithinQuota :
    (env : ℕ → Attempt) (clock : Clock) (u o : Uuid) (db : Db)
    → ((n : ℕ) (d : Db)
        → IsWithinQuota d.reservations
        → IsWithinQuota ((env n).before d).reservations)
    → IsWithinQuota db.reservations
    → IsWithinQuota (use_gold_upgrade env clock u o db).1.reservations
      × IsWithinQuota (rollback_gold_upgrade env clock u o db).1.reservations
unfolding use_gold_upgrade rollback_gold_upgrade with_transaction_retry
gold_requests-IsWithinQuota env clock u o db fair h = (
  retry_from_inv (λ d. IsWithinQuota d.reservations) env (λ raced. use_gold_upgrade_body clock u o)
      fair (λ n d k. k)
      (λ n d k.
        Keeps-mono (KeepsQuota d) (λ e. IsWithinQuota e.reservations) _ (λ e keep. keep k)
          (use_gold_upgrade_body-IsWithinQuota clock u o d))
      2 db h,
  retry_from_inv (λ d. IsWithinQuota d.reservations) env
      (λ raced. rollback_gold_upgrade_body clock u o) fair (λ n d k. k)
      (λ n d k.
        Keeps-mono (KeepsQuota d) (λ e. IsWithinQuota e.reservations) _ (λ e keep. keep k)
          (rollback_gold_upgrade_body-IsWithinQuota clock u o d))
      2 db h,
)

-- what a grant leaves to its replay
existing_reservation-again :
    (clock later : Clock) (u o : Uuid) (p q : Profile) (db d : Db)
    → existing_reservation clock u o p (find_first (is_reservation_of u o) db.reservations) db
      ≡ done granted d
    → existing_reservation later u o q (find_first (is_reservation_of u o) d.reservations) d
      ≡ done granted d
unfolding existing_reservation use_fresh reserve_month update_profile find_first
existing_reservation-again clock later u o p q db d h =
    elim (Option-cases (find_first (is_reservation_of u o) db.reservations)) [
      | inl fresh ↦ let h' = rw fresh at h in ground (arith, h')
      | inr (r, found) ↦ let h' = rw found at h in ground (arith, h', found)
    ]

-- and the member is still there
existing_reservation-profile :
    (clock : Clock) (u o : Uuid) (p : Profile) (x : Option GoldReservation) (db d : Db)
    → find_profile u db.profiles ≡ some p
    → existing_reservation clock u o p x db ≡ done granted d
    → (q : Profile) × (find_profile u d.profiles ≡ some q)
unfolding existing_reservation use_fresh reserve_month update_profile
existing_reservation-profile clock u o p (some r) db d found h =
    let same : d ≡ db = ground (arith, h) in (p, rw same found)
existing_reservation-profile clock u o p none db d found h =
    let q : Profile = record p { gold_upgrade_used_month = some clock.month_key } in
    let own = find_profile-user_id u db.profiles p found in
    let rows : d.profiles ≡ replace_profile q db.profiles = ground (arith, h) in
    (q, rw rows (find_profile-replace_profile u q db.profiles ∙ rw (found, own, ==-refl u) refl))

-- A Gold upgrade that was granted is granted again, at any later instant, in the month of its
-- reservation or in another, and changes nothing: it never takes the quota of a later month.
pub use_gold_upgrade_body-replay :
    (clock later : Clock) (u o : Uuid) (db d : Db)
    → use_gold_upgrade_body clock u o db ≡ done granted d
    → use_gold_upgrade_body later u o d ≡ done granted d
unfolding use_gold_upgrade_body lock_loyalty_profile find_profile_or_throw
use_gold_upgrade_body-replay clock later u o db d h =
    elim (Option-cases (find_profile u db.profiles)) [
      | inl nobody ↦ let x = rw nobody at h in absurd (ground (arith, x))
      | inr (p, found) ↦
          let h' = rw (found, find_profile_or_throw) at (rw found at h) in
          let (q, there) = existing_reservation-profile clock u o p _ db d found h' in
          rw there (
            rw (there, find_profile_or_throw)
              (existing_reservation-again clock later u o p q db d h'))
    ]
