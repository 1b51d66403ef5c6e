-- ===== src/Gold/Conservation.antt =====
-- Gold upgrades move no points.
use cinema_loyalty_service.Prelude.{
  List, ◌≡◌, refl, some, none, Bool-cases, Option-cases, inl, inr, ◌||◌, not, is_some, find_first,
  Option,
}
use cinema_loyalty_service.Store.Types.{Db, Uuid, Profile, GoldReservation, gold, tier_eq, MonthKey}
use cinema_loyalty_service.Store.Tx.{Keeps}
use cinema_loyalty_service.Store.Profiles.{
  balance_of, find_profile, lock_loyalty_profile, update_profile-Keeps,
}
use cinema_loyalty_service.Store.Rules.{find_profile_or_throw-Keeps, throw_if-Keeps}
use cinema_loyalty_service.Calculator.{Clock}
use cinema_loyalty_service.Ledger.Steps.{
  LedgerStep, LedgerStep_same, unposted, replace_profile-balances, replace_profile-unposted,
}
use cinema_loyalty_service.Gold.{
  is_active_in, used_in, reserve_month, use_fresh, existing_reservation, use_gold_upgrade_body,
  cleared, rollback_found, rollback_gold_upgrade_body,
}

reserve_month-LedgerStep :
    (clock : Clock) (u o : Uuid) (p : Profile) (db : Db)
    → find_profile u db.profiles ≡ some p
    → Keeps (LedgerStep db) (reserve_month clock u o p db)
unfolding reserve_month
reserve_month-LedgerStep clock u o p db found =
    update_profile-Keeps (LedgerStep db) _ _ _
      (λ ok. replace_profile-unposted u p _ _ _ found refl refl)

use_fresh-LedgerStep :
    (clock : Clock) (u o : Uuid) (p : Profile) (db : Db)
    → find_profile u db.profiles ≡ some p
    → Keeps (LedgerStep db) (use_fresh clock u o p db)
unfolding use_fresh
use_fresh-LedgerStep clock u o p db found = elim (Bool-cases (tier_eq p.tier gold)) [
  | inr low ↦ rw low LedgerStep_same
  | inl high ↦
      elim (Bool-cases (
        is_some (find_first (is_active_in u clock.month_key) db.reservations)
        || used_in p.gold_upgrade_used_month clock.month_key)) [
          | inl used ↦ rw (high, used) LedgerStep_same
          | inr free ↦ rw (high, free) (reserve_month-LedgerStep clock u o p db found)
        ]
]

existing_reservation-LedgerStep :
    (clock : Clock) (u o : Uuid) (p : Profile) (r : Option GoldReservation) (db : Db)
    → find_profile u db.profiles ≡ some p
    → Keeps (LedgerStep db) (existing_reservation clock u o p r db)
unfolding existing_reservation
existing_reservation-LedgerStep clock u o p none db found =
    use_fresh-LedgerStep clock u o p db found
existing_reservation-LedgerStep clock u o p (some r) db found =
    elim (Bool-cases (is_some r.released_at)) [
      | inl gone ↦ rw gone LedgerStep_same
      | inr live ↦ rw live LedgerStep_same
    ]

-- A Gold upgrade moves no points.
pub use_gold_upgrade_body-LedgerStep :
    (clock : Clock) (u o : Uuid) (db : Db)
    → Keeps (LedgerStep db) (use_gold_upgrade_body clock u o db)
unfolding use_gold_upgrade_body lock_loyalty_profile
use_gold_upgrade_body-LedgerStep clock u o db =
    throw_if-Keeps (LedgerStep db) (not (is_some (find_profile u db.profiles))) _ _ db (λ locked.
      find_profile_or_throw-Keeps (LedgerStep db) u _ db
        (λ p found. existing_reservation-LedgerStep clock u o p _ db found))

cleared_balances :
    (u : Uuid) (m : MonthKey) (ps : List Profile) (v : Uuid)
    → balance_of v (cleared u m ps) ≡ balance_of v ps
cleared_balances u m ps v = elim (Option-cases (find_profile u ps)) [
  | inl missing ↦ rw (missing, cleared)
  | inr (p, found) ↦ elim (Bool-cases (used_in p.gold_upgrade_used_month m)) [
    | inr other ↦ rw (found, cleared, other)
    | inl mine ↦
        rw (found, cleared, mine)
          (replace_profile-balances u p (record p { gold_upgrade_used_month = none }) ps found refl
            refl v)
  ]
]

rollback_found-LedgerStep :
    (clock : Clock) (u : Uuid) (r : Option GoldReservation) (db : Db)
    → Keeps (LedgerStep db) (rollback_found clock u r db)
unfolding rollback_found
rollback_found-LedgerStep clock u none db = LedgerStep_same
rollback_found-LedgerStep clock u (some r) db = elim (Bool-cases (is_some r.released_at)) [
  | inl gone ↦ rw gone LedgerStep_same
  | inr live ↦ rw live (unposted (cleared_balances u r.month db.profiles) refl)
]

-- A rollback of a Gold upgrade moves no points.
pub rollback_gold_upgrade_body-LedgerStep :
    (clock : Clock) (u o : Uuid) (db : Db)
    → Keeps (LedgerStep db) (rollback_gold_upgrade_body clock u o db)
unfolding rollback_gold_upgrade_body lock_loyalty_profile
rollback_gold_upgrade_body-LedgerStep clock u o db =
    elim (Bool-cases (is_some (find_profile u db.profiles))) [
      | inl locked ↦ rw locked (rollback_found-LedgerStep clock u _ db)
      | inr missing ↦ rw missing LedgerStep_same
    ]
