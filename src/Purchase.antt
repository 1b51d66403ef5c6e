-- ===== src/Purchase.antt =====
-- `processTicketPurchase` (src/loyalty/loyalty.service.ts). Amounts of money are in hundredths,
-- for which `Math.floor(amount * multiplier)` on doubles is the exact floor.
-- `uuid_of` stands for the cast of the validated order id to a database uuid.
pub mod Conservation
pub mod Replay
use cinema_loyalty_service.Prelude.{
  ℕ, ◌*◌, ◌/◌, Bool, true, false, ◌&&◌, not, Option, none, some, if◌then◌else◌, List, [], ◌∷◌, ◌++◌,
  ℤ, pos, ◌+ℤ◌, neg_part, ltb, is_some, find_first, Text, text_eq, is_int32,
}
use cinema_loyalty_service.Achievements.Intents.{ActionEvent, save_dispatch_intents}
use cinema_loyalty_service.Calculator.{
  Clock, resolve_multiplier, resolve_new_tier, resolve_transaction_type,
}
use cinema_loyalty_service.Points.Command.{find_processed}
use cinema_loyalty_service.Points.Refund.{is_debit_of}
use cinema_loyalty_service.Store.Profiles.{
  lock_loyalty_profile, update_profile, find_profile_or_throw, create_transaction,
  record_tier_change,
}
use cinema_loyalty_service.Store.Tx.{
  Tx, pure, modify, throw_if, ◌>>=◌, ◌>>◌, done, thrown, permanent_message,
  accounting_range_exceeded, purchase_idempotency_conflict, Attempt, Answer, with_transaction_retry,
}
use cinema_loyalty_service.Store.Types.{
  Db, Uuid, Profile, EventType, ActionMetadata, ticket_purchased, vip_seat_bought, ProcessedEvent,
  FieldValue, undefined, null, given,
}

-- TicketPurchasedDto, the fields that are read
pub record TicketPurchased : Type 0 where
  pub event_id : Text
  pub user_id : Uuid
  pub order_id : Text
  pub total_amount : ℕ
  pub event_type : EventType
  pub paid_amount : FieldValue ℕ
  pub points_used : FieldValue ℕ
  pub seat_class : FieldValue Text

-- `Math.trunc` of the field, which is 0 for null, or the points of the order's latest debit
unfoldable pub resolve_points_used_for_order : (Text → Uuid) → TicketPurchased → Db → ℕ
resolve_points_used_for_order uuid_of msg db = elim msg.points_used [
  | given x ↦ x / 100
  | null ↦ 0
  | undefined ↦ elim (find_first (is_debit_of msg.user_id (uuid_of msg.order_id)) db.transactions) [
    | none ↦ 0
    | some t ↦ neg_part t.points
  ]
]

-- `paidAmount ?? totalAmount`
abbrev amount_to_reward : TicketPurchased → ℕ
amount_to_reward msg = elim msg.paid_amount [
  | undefined ↦ msg.total_amount
  | null ↦ msg.total_amount
  | given a ↦ a
]

-- a multiplier in halves on an amount in hundredths
unfoldable pub points_earned_for : Clock → TicketPurchased → Profile → ℕ → ℕ
points_earned_for clock msg p used =
    if ltb 0 used
    then 0
    else amount_to_reward msg * resolve_multiplier clock p.tier p.birthday_date msg.event_type / 200

-- `assertAccountingInteger` (src/loyalty/consumers/message-failure.ts)
abbrev pub assert_accounting_integer : ℤ → Tx (Unit {0})
assert_accounting_integer v =
    throw_if (not (is_int32 v)) (permanent_message accounting_range_exceeded)

-- the row after the purchase
unfoldable pub rewarded : Clock → Profile → ℕ → Profile
rewarded clock p earned =
    let visits = p.year_visits +ℤ pos 1 in
    let year = p.year_points +ℤ pos earned in
    let q : Profile = record p {
      year_visits = visits;
      tier = resolve_new_tier p.tier visits year;
      last_activity_at = some clock.now;
    } in
    if ltb 0 earned
    then record q {
      balance = p.balance +ℤ pos earned;
      lifetime_points = p.lifetime_points +ℤ pos earned;
      year_points = year;
      balance_expires_at = some (clock.one_year_later clock.now);
    }
    else q

abbrev pub plain_row : Text → ProcessedEvent
plain_row t = record {
  event_id = t;
  operation = none;
  user_id = none;
  order_id = none;
  amount = none;
  balance_after = none;
}

abbrev pub vip : Text
vip = b'V' ∷ b'I' ∷ b'P' ∷ []

abbrev vip_suffix : Text
vip_suffix = b'_' ∷ b'v' ∷ b'i' ∷ b'p' ∷ []

abbrev is_vip : FieldValue Text → Bool
is_vip undefined = false
is_vip null = false
is_vip (given t) = text_eq t vip

-- the achievement events of a purchase; a VIP seat adds a second one
unfoldable pub purchase_events : TicketPurchased → ℕ → List ActionEvent
purchase_events msg used =
    let metadata : ActionMetadata = record {
      amount = msg.total_amount;
      points_used = used;
      paid_amount = msg.paid_amount;
      event_type = none;
      seat_class = undefined;
    } in
    record {
      event_id = msg.order_id;
      user_id = msg.user_id;
      action_type = ticket_purchased;
      metadata = record metadata { event_type = some msg.event_type; seat_class = msg.seat_class };
    }
    ∷ (if is_vip msg.seat_class
        then record {
          event_id = msg.order_id ++ vip_suffix;
          user_id = msg.user_id;
          action_type = vip_seat_bought;
          metadata = metadata;
        }
          ∷ []
        else [])

-- the assertions on the new values; the sums count only if points are earned
unfoldable pub assert_rewards : Profile → ℕ → Tx (Unit {0})
assert_rewards p earned = do
  assert_accounting_integer (pos earned)
  assert_accounting_integer (p.year_visits +ℤ pos 1)
  throw_if
      (ltb 0 earned
        && not (
            is_int32 (p.balance +ℤ pos earned)
            && (is_int32 (p.lifetime_points +ℤ pos earned)
                && is_int32 (p.year_points +ℤ pos earned))))
      (permanent_message accounting_range_exceeded)

-- the ledger entry, if points are earned
unfoldable pub book_earning : (Text → Uuid) → TicketPurchased → Profile → ℕ → Tx (Unit {0})
unfolding create_transaction
book_earning uuid_of msg p earned db =
    if ltb 0 earned
    then (do
      create_transaction msg.user_id (resolve_transaction_type msg.event_type) (pos earned)
          (p.balance +ℤ pos earned) (some (uuid_of msg.order_id))
      pure tt)
        db
    else done tt db

-- the processed event, the tier event and the achievement intents
unfoldable pub record_purchase : Clock → TicketPurchased → Profile → Profile → ℕ → Tx (Unit {0})
record_purchase clock msg p q used = do
  modify (λ d. record d { processed = plain_row msg.event_id ∷ d.processed })
  record_tier_change msg.user_id p.tier q.tier clock.now
  save_dispatch_intents clock.now (purchase_events msg used)

-- what follows the dedupe check, for the profile that was read
unfoldable pub purchase_from : (Text → Uuid) → Clock → TicketPurchased → Profile → ℕ → Tx (Unit {0})
purchase_from uuid_of clock msg p used = do
  let earned = points_earned_for clock msg p used
  let q = rewarded clock p earned
  assert_rewards p earned
  update_profile q
  book_earning uuid_of msg p earned
  record_purchase clock msg p q used

-- a key of a point command is a conflict; a key of an event was processed before
unfoldable pub after_dedupe :
    (Text → Uuid) → Clock → TicketPurchased → Option ProcessedEvent → Tx (Unit {0})
after_dedupe uuid_of clock msg (some e) db =
    if is_some e.operation
    then thrown (permanent_message purchase_idempotency_conflict)
    else done tt db
after_dedupe uuid_of clock msg none db =
    (do
      p ← find_profile_or_throw msg.user_id
      purchase_from uuid_of clock msg p (resolve_points_used_for_order uuid_of msg db))
      db

-- the callback of the transaction
unfoldable pub purchase_body : (Text → Uuid) → Clock → TicketPurchased → Tx (Unit {0})
purchase_body uuid_of clock msg = do
  lock_loyalty_profile msg.user_id true
  (λ db. after_dedupe uuid_of clock msg (find_processed msg.event_id db.processed) db)

-- every failure is thrown again, for the delivery to classify
unfoldable pub process_ticket_purchase :
    (Text → Uuid) → (ℕ → Attempt) → Clock → TicketPurchased → Db → Answer (Unit {0}) × Db
unfolding purchase_body
process_ticket_purchase uuid_of env clock msg db =
    with_transaction_retry env (λ raced. purchase_body uuid_of clock msg) db
