-- ===== src/Points/Refund.antt =====
-- `refundPoints` (src/loyalty/loyalty-expiration.service.ts).
use cinema_loyalty_service.Prelude.{
  ℕ, Bool, false, ◌&&◌, ◌||◌, not, Option, none, some, if◌then◌else◌, List, [], ◌∷◌, ℤ, pos, ◌-ℤ◌,
  neg, ltb_ℤ, eqb_ℤ, Text, take, select, find_first, update_where, count_where, is_some, ◌==◌,
}
use cinema_loyalty_service.Store.Types.{
  Db, Uuid, Profile, ProcessedEvent, PointsTransaction, CheckoutDebit, refund, type_eq_burn,
  type_eq_refund,
}
use cinema_loyalty_service.Store.Tx.{
  Tx, pure, throw, return_or, ◌>>=◌, ◌>>◌, plain_error, done, profile_not_found,
  refund_debit_not_found, refund_reconciliation, refund_already_compensated, refund_amount_mismatch,
  checkout_ownership_changed, internal_refund, invalid_point_command, Attempt, Answer, returned,
  raised, with_transaction_retry,
}
use cinema_loyalty_service.Store.Profiles.{
  find_profile, lock_loyalty_profile, update_profile, create_transaction,
}
use cinema_loyalty_service.Points.Command.{
  RawCommand, PointCommand, PointResult, rejected, accepted, parse_point_command,
  replay_point_command, claim_point_command,
}

abbrev pub same_order : Option Uuid → Uuid → Bool
same_order none o = false
same_order (some p) o = p == o

-- `where: { userId, orderId, type: BURN_DISCOUNT, points: { lt: 0 } }`
abbrev pub is_debit_of : Uuid → Uuid → PointsTransaction → Bool
is_debit_of u o t =
    t.user_id == u && (same_order t.order_id o && (type_eq_burn t.type && ltb_ℤ t.points (pos 0)))

-- `where: { userId, orderId, type: REFUND }`
abbrev pub is_refund_of : Uuid → Uuid → PointsTransaction → Bool
is_refund_of u o t = t.user_id == u && (same_order t.order_id o && type_eq_refund t.type)

abbrev pub is_checkout : ℕ → CheckoutDebit → Bool
is_checkout d c = c.debit_id == d

-- `where: { debitId, refundId: null }`
abbrev pub is_unlinked : ℕ → CheckoutDebit → Bool
is_unlinked d c = c.debit_id == d && not (is_some c.refund_id)

abbrev pub is_linked : Option CheckoutDebit → Bool
is_linked none = false
is_linked (some c) = is_some c.refund_id

-- the link from the debit to its refund; it must change one row
unfoldable pub link_refund : ℕ → ℕ → Tx (Unit {0})
link_refund debit refund_id db =
    if count_where (is_unlinked debit) db.debits == 1
    then done tt (record db {
      debits =
          update_where (is_unlinked debit) (λ c. record c { refund_id = some refund_id }) db.debits;
    })
    else throw (plain_error checkout_ownership_changed) db

-- the writes, once the command is claimed
unfoldable pub book_refund : PointCommand → Profile → ℕ → ℤ → Tx PointResult
unfolding update_profile create_transaction link_refund
book_refund c p debit after = do
  update_profile (record p { balance = after })
  entry ← create_transaction c.user_id refund c.amount after (some c.order_id)
  link_refund debit entry
  pure (accepted after)

-- the checks on the one debit of the order
unfoldable pub refund_debit :
    PointCommand → List ProcessedEvent → Profile → PointsTransaction → Tx PointResult
unfolding book_refund claim_point_command
refund_debit c raced p debit db =
    let prior = find_first (is_refund_of c.user_id c.order_id) db.transactions in
    let checkout = find_first (is_checkout debit.id) db.debits in
    if is_some prior || is_linked checkout
    then done (rejected (pos 0) refund_already_compensated) db
    else if not (is_some checkout)
    then done (rejected (pos 0) refund_reconciliation) db
    else if not (eqb_ℤ c.amount (neg debit.points))
    then done (rejected (pos 0) refund_amount_mismatch) db
    else (do
      let after = p.balance -ℤ debit.points
      raced_replay ← claim_point_command c after raced
      return_or raced_replay (book_refund c p debit.id after))
        db

-- `take: 2`, then the tests on the number of debits found
unfoldable pub refund_from : PointCommand → List ProcessedEvent → Profile → Tx PointResult
unfolding refund_debit
refund_from c raced p db =
    elim (take 2 (select (is_debit_of c.user_id c.order_id) db.transactions)) [
      | [] ↦ done (rejected (pos 0) refund_debit_not_found) db
      | debit ∷ others ↦ elim others [
        | [] ↦ refund_debit c raced p debit db
        | _ ∷ _ ↦ done (rejected (pos 0) refund_reconciliation) db
      ]
    ]

-- the part behind the replay
unfoldable pub refund_fresh : PointCommand → List ProcessedEvent → Bool → Tx PointResult
unfolding refund_from
refund_fresh c raced locked db =
    elim (if locked then find_profile c.user_id db.profiles else none) [
      | none ↦ done (rejected (pos 0) profile_not_found) db
      | some p ↦ refund_from c raced p db
    ]

-- the callback of the transaction
unfoldable pub refund_body : PointCommand → List ProcessedEvent → Tx PointResult
unfolding refund_fresh lock_loyalty_profile replay_point_command
refund_body c raced = do
  locked ← lock_loyalty_profile c.user_id false
  replay ← replay_point_command c
  return_or replay (refund_fresh c raced locked)

-- the `catch`: every error is an answer
abbrev catch_refund : Answer PointResult → Answer PointResult
catch_refund (returned r) = returned r
catch_refund (raised _) = returned (rejected (pos 0) internal_refund)

unfoldable pub refund_points :
    (Text → Option Uuid) → (ℕ → Attempt) → RawCommand → Db → Answer PointResult × Db
unfolding refund_body parse_point_command
refund_points uuid env input db = elim (parse_point_command uuid input) [
  | none ↦ (returned (rejected (pos 0) invalid_point_command), db)
  | some c ↦ let (r, db') = with_transaction_retry env (refund_body c) db in (catch_refund r, db')
]
