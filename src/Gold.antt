-- ===== src/Gold.antt =====
-- The monthly Gold upgrade: `useGoldUpgrade`, `rollbackGoldUpgrade` and the availability flag
-- (src/loyalty/loyalty.service.ts).
pub mod Conservation
pub mod Quota
use cinema_loyalty_service.Prelude.{
  ℕ, ◌+◌, Bool, true, false, ◌&&◌, ◌||◌, not, Option, none, some, if◌then◌else◌, List, ◌∷◌,
  find_first, update_where, is_some, ◌==◌,
}
use cinema_loyalty_service.Store.Types.{
  Db, Uuid, MonthKey, Profile, GoldReservation, Tier, gold, tier_eq,
}
use cinema_loyalty_service.Store.Tx.{
  Tx, pure, modify, throw_if, ◌>>=◌, ◌>>◌, Message, no_message, done, rpc_exception, not_found,
  internal, profile_not_found, gold_reservation_released, not_gold_tier, gold_quota_exceeded,
  gold_legacy_reconciliation, internal_gold_upgrade, gold_reservation_not_found,
  internal_gold_rollback, Attempt, Answer, returned, raised, with_transaction_retry,
}
use cinema_loyalty_service.Store.Profiles.{
  find_profile, lock_loyalty_profile, update_profile, find_profile_or_throw, replace_profile,
}
use cinema_loyalty_service.Calculator.{Clock}

pub record GoldResult : Type 0 where
  pub success : Bool
  pub error_message : Message

abbrev pub refused : Message → GoldResult
refused m = record { success = false; error_message = m }

abbrev pub granted : GoldResult
granted = record { success = true; error_message = no_message }

abbrev pub has_order : Option Uuid → Uuid → Bool
has_order none o = false
has_order (some p) o = p == o

abbrev pub is_reservation_of : Uuid → Uuid → GoldReservation → Bool
is_reservation_of u o r = r.user_id == u && has_order r.order_id o

abbrev pub is_active_in : Uuid → MonthKey → GoldReservation → Bool
is_active_in u m r = r.user_id == u && (r.month == m && not (is_some r.released_at))

abbrev pub used_in : Option MonthKey → MonthKey → Bool
used_in none m = false
used_in (some n) m = n == m

abbrev owner_message : Option GoldReservation → Message
owner_message none = gold_legacy_reconciliation
owner_message (some r) =
    if is_some r.order_id then gold_quota_exceeded else gold_legacy_reconciliation

-- the reservation of a free month
unfoldable pub reserve_month : Clock → Uuid → Uuid → Profile → Tx GoldResult
unfolding update_profile
reserve_month clock u o p = do
  modify (λ d. record d {
    reservations =
        record {
          id = d.next_id;
          user_id = u;
          month = clock.month_key;
          order_id = some o;
          released_at = none;
        }
        ∷ d.reservations;
    next_id = d.next_id + 1;
  })
  update_profile (record p { gold_upgrade_used_month = some clock.month_key })
  pure granted

-- a first request of the order
unfoldable pub use_fresh : Clock → Uuid → Uuid → Profile → Tx GoldResult
unfolding reserve_month
use_fresh clock u o p db =
    let occupied = find_first (is_active_in u clock.month_key) db.reservations in
    if not (tier_eq p.tier gold)
    then done (refused not_gold_tier) db
    else if is_some occupied || used_in p.gold_upgrade_used_month clock.month_key
    then done (refused (owner_message occupied)) db
    else reserve_month clock u o p db

-- a replay of the order, or a first request
unfoldable pub existing_reservation :
    Clock → Uuid → Uuid → Profile → Option GoldReservation → Tx GoldResult
existing_reservation clock u o p none db = use_fresh clock u o p db
existing_reservation clock u o p (some r) db =
    if is_some r.released_at then done (refused gold_reservation_released) db else done granted db

-- the callback of the transaction
unfoldable pub use_gold_upgrade_body : Clock → Uuid → Uuid → Tx GoldResult
use_gold_upgrade_body clock u o = do
  locked ← lock_loyalty_profile u false
  throw_if (not locked) (rpc_exception not_found profile_not_found)
  p ← find_profile_or_throw u
  (λ db. existing_reservation clock u o p (find_first (is_reservation_of u o) db.reservations) db)

abbrev catch_use : Answer GoldResult → Answer GoldResult
catch_use (returned r) = returned r
catch_use (raised (rpc_exception s m)) = raised (rpc_exception s m)
catch_use (raised _) = raised (rpc_exception internal internal_gold_upgrade)

unfoldable pub use_gold_upgrade : (ℕ → Attempt) → Clock → Uuid → Uuid → Db → Answer GoldResult × Db
unfolding use_gold_upgrade_body
use_gold_upgrade env clock u o db =
    let (r, db') = with_transaction_retry env (λ raced. use_gold_upgrade_body clock u o) db in
    (catch_use r, db')

-- `updateMany` of the mirror, if it still names the released month
abbrev pub cleared : Uuid → MonthKey → List Profile → List Profile
cleared u m ps = elim (find_profile u ps) [
  | none ↦ ps
  | some p ↦
      if used_in p.gold_upgrade_used_month m
      then replace_profile (record p { gold_upgrade_used_month = none }) ps
      else ps
]

abbrev pub release : Clock → ℕ → List GoldReservation → List GoldReservation
release clock n = update_where (λ r. r.id == n) (λ r. record r { released_at = some clock.now })

-- the release of the order's reservation; a second release changes nothing
unfoldable pub rollback_found : Clock → Uuid → Option GoldReservation → Tx GoldResult
rollback_found clock u none db = done (refused gold_reservation_not_found) db
rollback_found clock u (some r) db =
    if is_some r.released_at
    then done granted db
    else done granted (record db {
      profiles = cleared u r.month db.profiles;
      reservations = release clock r.id db.reservations;
    })

-- the callback of the transaction
unfoldable pub rollback_gold_upgrade_body : Clock → Uuid → Uuid → Tx GoldResult
rollback_gold_upgrade_body clock u o = do
  locked ← lock_loyalty_profile u false
  (λ db.
      if not locked
      then done (refused profile_not_found) db
      else rollback_found clock u (find_first (is_reservation_of u o) db.reservations) db)

abbrev catch_rollback : Answer GoldResult → Answer GoldResult
catch_rollback (returned r) = returned r
catch_rollback (raised _) = returned (refused internal_gold_rollback)

unfoldable pub rollback_gold_upgrade :
    (ℕ → Attempt) → Clock → Uuid → Uuid → Db → Answer GoldResult × Db
unfolding rollback_gold_upgrade_body
rollback_gold_upgrade env clock u o db =
    let (r, db') = with_transaction_retry env (λ raced. rollback_gold_upgrade_body clock u o) db in
    (catch_rollback r, db')

-- the flag of the profile view
unfoldable pub is_gold_upgrade_available : Clock → Tier → Option MonthKey → Bool
is_gold_upgrade_available clock tier used =
    if not (tier_eq tier gold) then false else not (used_in used clock.month_key)
