-- ===== src/Examples/Requests.antt =====
-- The properties of single requests at concrete inputs.
use cinema_loyalty_service.Prelude.{
  select, ◌≡◌, refl, some, [], pos, arith, find_first, count_where, text_eq, is_int32, ◌-ℤ◌, ◌+ℤ◌,
  neg, trim,
}
use cinema_loyalty_service.Achievements.Intents.{save_dispatch_intents}
use cinema_loyalty_service.Admin.{get_transaction_history}
use cinema_loyalty_service.Birthday.{grant_birthday_bonus_for_user, process_user_date_of_birth_set}
use cinema_loyalty_service.Birthday.Yearly.{IsPaidOnce, birthday_requests-IsPaidOnce}
use cinema_loyalty_service.Calculator.{Clock, resolve_multiplier}
use cinema_loyalty_service.Examples.{clock, key, user, order, attempts, empty, one_profile, raw}
use cinema_loyalty_service.Gold.{
  use_gold_upgrade_body, existing_reservation, use_fresh, use_gold_upgrade, rollback_gold_upgrade,
  granted,
}
use cinema_loyalty_service.Gold.Quota.{
  IsWithinQuota, gold_requests-IsWithinQuota, use_gold_upgrade_body-replay,
}
use cinema_loyalty_service.Points.Command.{
  PointCommand, accepted, rejected, find_processed, claim_point_command,
}
use cinema_loyalty_service.Points.Deduct.{deduct_body}
use cinema_loyalty_service.Points.Exclusive.{deduct_body-exclusive}
use cinema_loyalty_service.Points.Once.{IsRefundedOnce, refund_points-IsRefundedOnce}
use cinema_loyalty_service.Points.Refund.{refund_body, refund_points}
use cinema_loyalty_service.Points.Replay.{deduct_body-replay}
use cinema_loyalty_service.Purchase.{
  TicketPurchased, purchase_body, after_dedupe, purchase_from, resolve_points_used_for_order,
  points_earned_for, rewarded, assert_rewards, book_earning, record_purchase, purchase_events,
}
use cinema_loyalty_service.Purchase.Replay.{purchase_body-replay}
use cinema_loyalty_service.Store.Profiles.{
  fits, find_profile, replace_profile, lock_loyalty_profile, find_profile_or_throw, update_profile,
  create_transaction, record_tier_change,
}
use cinema_loyalty_service.Store.Tx.{
  purchase_idempotency_conflict, idempotency_conflict, permanent_message, Outcome, done, thrown,
  returned, with_transaction_retry,
}
use cinema_loyalty_service.Store.Types.{undefined, Db, premiere, deduct_points_op, refund_points_op}

abbrev command : PointCommand
command = record {
  operation = deduct_points_op;
  user_id = user;
  order_id = order;
  amount = pos 80;
  idempotency_key = key;
}

-- the database that a run leaves
abbrev db_of : {A : Type 0} → Outcome A → Db
db_of (done r d) = d
db_of (thrown e) = empty

abbrev deducted : Db
deducted = db_of (deduct_body clock command [] one_profile)

deducts : deduct_body clock command [] one_profile ≡ done (accepted (pos 20)) deducted
unfolding deduct_body text_eq ◌-ℤ◌ neg find_profile replace_profile is_int32 fits find_processed
    claim_point_command
deducts = refl

deduct_body-replay_example :
    deduct_body clock command [] deducted ≡ done (accepted (pos 20)) deducted
deduct_body-replay_example =
    deduct_body-replay clock clock command [] [] (accepted (pos 20)) one_profile deducted deducts
      refl

no_refunds : IsRefundedOnce empty.transactions
unfolding count_where
no_refunds u o = ground arith

refund_points-IsRefundedOnce_example :
    IsRefundedOnce
      (refund_points
        (λ t. some user)
        attempts
        (record raw { operation = refund_points_op })
        empty).1.transactions
refund_points-IsRefundedOnce_example =
    refund_points-IsRefundedOnce (λ t. some user) attempts
      (record raw { operation = refund_points_op }) empty (λ n d h. h) no_refunds

abbrev purchase : TicketPurchased
purchase = record {
  event_id = key;
  user_id = user;
  order_id = key;
  total_amount = 50000;
  event_type = premiere;
  paid_amount = undefined;
  points_used = undefined;
  seat_class = undefined;
}

abbrev dearer : PointCommand
dearer = record command { amount = pos 90 }

are_different : command ≡ dearer → ⊥
are_different same = let amounts : pos 80 ≡ pos 90 = λ i. (same i).amount in ground (arith, amounts)

deduct_body-exclusive_example :
    (deduct_body clock dearer [] deducted ≡ done (rejected (pos 0) idempotency_conflict) deducted)
    × (refund_body dearer [] deducted ≡ done (rejected (pos 0) idempotency_conflict) deducted)
    × (purchase_body (λ t. order) clock purchase deducted
        ≡ thrown (permanent_message purchase_idempotency_conflict))
deduct_body-exclusive_example =
    deduct_body-exclusive clock clock command dearer purchase (λ t. order) [] [] (accepted (pos 20))
      one_profile deducted deducts refl refl are_different refl

abbrev purchased : Db
purchased = db_of (purchase_body (λ t. order) clock purchase one_profile)

buys : purchase_body (λ t. order) clock purchase one_profile ≡ done tt purchased
unfolding purchase_body after_dedupe purchase_from lock_loyalty_profile find_profile_or_throw
    find_profile find_processed resolve_points_used_for_order find_first points_earned_for rewarded
    assert_rewards update_profile fits is_int32 ◌+ℤ◌ book_earning create_transaction record_purchase
    record_tier_change save_dispatch_intents purchase_events trim text_eq resolve_multiplier
buys = refl

purchase_body-replay_example :
    purchase_body (λ t. order) clock purchase purchased ≡ done tt purchased
purchase_body-replay_example =
    purchase_body-replay (λ t. order) clock clock purchase one_profile purchased buys

no_reservations : IsWithinQuota empty.reservations
unfolding count_where
no_reservations u m = ground arith

gold_requests-IsWithinQuota_example :
    IsWithinQuota (use_gold_upgrade attempts clock user order one_profile).1.reservations
    × IsWithinQuota (rollback_gold_upgrade attempts clock user order one_profile).1.reservations
gold_requests-IsWithinQuota_example =
    gold_requests-IsWithinQuota attempts clock user order one_profile (λ n d h. h) no_reservations

abbrev upgraded : Db
upgraded = db_of (use_gold_upgrade_body clock user order one_profile)

upgrades : use_gold_upgrade_body clock user order one_profile ≡ done granted upgraded
unfolding use_gold_upgrade_body lock_loyalty_profile find_profile find_profile_or_throw
    existing_reservation find_first use_fresh fits is_int32
upgrades = refl

-- the month after
abbrev next_month : Clock
next_month = record clock { month_key = 24318 }

use_gold_upgrade_body-replay_example :
    use_gold_upgrade_body next_month user order upgraded ≡ done granted upgraded
use_gold_upgrade_body-replay_example =
    use_gold_upgrade_body-replay clock next_month user order one_profile upgraded upgrades

no_grants : IsPaidOnce one_profile
unfolding count_where
no_grants = record { yearly = λ u y. omega arith; paid = λ u. refl }

birthday_requests-IsPaidOnce_example :
    IsPaidOnce (grant_birthday_bonus_for_user attempts clock user one_profile).1
    × IsPaidOnce
        (process_user_date_of_birth_set
          (λ t. some clock.today)
          attempts
          clock
          user
          key
          one_profile).1
birthday_requests-IsPaidOnce_example =
    birthday_requests-IsPaidOnce (λ t. some clock.today) attempts clock user key one_profile
      (λ n d h. h) no_grants

-- the first attempt fails at its commit, and the second commits
retried_deduction :
    (with_transaction_retry attempts (deduct_body clock command) one_profile).0
    ≡ returned (accepted (pos 20))
unfolding with_transaction_retry deduct_body text_eq ◌-ℤ◌ neg find_profile replace_profile is_int32
    fits find_processed claim_point_command
retried_deduction = refl

lists : get_transaction_history user (pos 0) (pos 0) deducted ≡ returned deducted.transactions
unfolding get_transaction_history select deduct_body text_eq ◌-ℤ◌ neg find_profile replace_profile
    is_int32 fits find_processed claim_point_command
lists = refl
