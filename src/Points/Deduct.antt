-- ===== src/Points/Deduct.antt =====
-- `deductPoints` (src/loyalty/loyalty.service.ts).
use cinema_loyalty_service.Prelude.{
  Bool, ℕ, false, Option, none, some, if◌then◌else◌, List, ◌∷◌, ℤ, pos, ◌-ℤ◌, neg, ltb_ℤ, Text,
}
use cinema_loyalty_service.Store.Types.{Db, Uuid, Profile, ProcessedEvent, burn_discount}
use cinema_loyalty_service.Store.Tx.{
  done, thrown, Tx, pure, modify, return_or, ◌>>=◌, ◌>>◌, rpc_exception, not_found,
  profile_not_found, insufficient_points, minimum_deduction, invalid_point_command, internal_error,
  Attempt, Answer, returned, raised, with_transaction_retry,
}
use cinema_loyalty_service.Store.Profiles.{
  find_profile, lock_loyalty_profile, update_profile, create_transaction,
}
use cinema_loyalty_service.Calculator.{Clock}
use cinema_loyalty_service.Points.Command.{
  RawCommand, PointCommand, PointResult, rejected, accepted, parse_point_command,
  replay_point_command, claim_point_command,
}

abbrev pub minimum_deduction_points : ℕ
minimum_deduction_points = 75

-- the writes, once the command is claimed
unfoldable pub book_deduction : Clock → PointCommand → Profile → ℤ → Tx PointResult
unfolding update_profile create_transaction
book_deduction clock c p after = do
  update_profile (record p { balance = after; last_activity_at = some clock.now })
  debit ← create_transaction c.user_id burn_discount (neg c.amount) after (some c.order_id)
  modify (λ d. record d { debits = record { debit_id = debit; refund_id = none } ∷ d.debits })
  pure (accepted after)

-- the part for the profile that was found
unfoldable pub deduct_from : Clock → PointCommand → List ProcessedEvent → Profile → Tx PointResult
unfolding book_deduction claim_point_command
deduct_from clock c raced p =
    if ltb_ℤ p.balance c.amount then pure (rejected p.balance insufficient_points) else (do
      let after = p.balance -ℤ c.amount
      raced_replay ← claim_point_command c after raced
      return_or raced_replay (book_deduction clock c p after))

-- the part behind the replay
unfoldable pub deduct_fresh : Clock → PointCommand → List ProcessedEvent → Bool → Tx PointResult
deduct_fresh clock c raced locked db =
    if ltb_ℤ c.amount (pos minimum_deduction_points)
    then done (rejected (pos 0) minimum_deduction) db
    else elim (if locked then find_profile c.user_id db.profiles else none) [
      | none ↦ thrown (rpc_exception not_found profile_not_found)
      | some p ↦ deduct_from clock c raced p db
    ]

-- the callback of the transaction
unfoldable pub deduct_body : Clock → PointCommand → List ProcessedEvent → Tx PointResult
unfolding deduct_fresh deduct_from lock_loyalty_profile replay_point_command
deduct_body clock c raced = do
  locked ← lock_loyalty_profile c.user_id false
  replay ← replay_point_command c
  return_or replay (deduct_fresh clock c raced locked)

-- the `catch`: an RpcException passes, any other error is an answer
abbrev catch_deduct : Answer PointResult → Answer PointResult
catch_deduct (returned r) = returned r
catch_deduct (raised (rpc_exception s m)) = raised (rpc_exception s m)
catch_deduct (raised _) = returned (rejected (pos 0) internal_error)

unfoldable pub deduct_points :
    (Text → Option Uuid) → (ℕ → Attempt) → Clock → RawCommand → Db → Answer PointResult × Db
unfolding deduct_body parse_point_command
deduct_points uuid env clock input db = elim (parse_point_command uuid input) [
  | none ↦ (returned (rejected (pos 0) invalid_point_command), db)
  | some c ↦
      let (r, db') = with_transaction_retry env (deduct_body clock c) db in (catch_deduct r, db')
]
