-- ===== src/Points/Exclusive.antt =====
-- The keys of point commands.
use cinema_loyalty_service.Prelude.{
  Text, ℤ, pos, eqb_ℤ→eq, ◌≡◌, refl, sym, ◌∙◌, inl, inr, Bool, true, ◌&&◌, Option, none, some, List,
  arith, Bool-cases, Option-cases, is_some,
}
use cinema_loyalty_service.Calculator.{Clock}
use cinema_loyalty_service.Points.Command.{
  PointCommand, PointResult, rejected, find_processed, same_uuid, same_amount, replay_row,
  replay_point_command,
}
use cinema_loyalty_service.Points.Deduct.{deduct_body}
use cinema_loyalty_service.Points.Refund.{refund_body}
use cinema_loyalty_service.Points.Replay.{deduct_body-Answers}
use cinema_loyalty_service.Purchase.{TicketPurchased, after_dedupe, purchase_body}
use cinema_loyalty_service.Store.Profiles.{lock_loyalty_profile}
use cinema_loyalty_service.Store.Tx.{
  purchase_idempotency_conflict, idempotency_conflict, permanent_message, done, thrown, returned,
}
use cinema_loyalty_service.Store.Types.{
  Uuid, Operation, deduct_points_op, refund_points_op, ProcessedEvent, Db, operation_eq,
}

matches_row : ProcessedEvent → Operation → PointCommand → Bool
matches_row e op c =
    operation_eq op c.operation
    && (same_uuid e.user_id c.user_id
        && (same_uuid e.order_id c.order_id && same_amount e.amount c.amount))

operation_eq→eq : (a b : Operation) → operation_eq a b ≡ true → a ≡ b
operation_eq→eq deduct_points_op deduct_points_op h = refl
operation_eq→eq deduct_points_op refund_points_op h = cc
operation_eq→eq refund_points_op deduct_points_op h = cc
operation_eq→eq refund_points_op refund_points_op h = refl

same_uuid_unique :
    (o : Option Uuid) (u v : Uuid) → same_uuid o u ≡ true → same_uuid o v ≡ true → u ≡ v
same_uuid_unique none u v h k = cc
same_uuid_unique (some w) u v h k = ground arith

same_amount_unique :
    (o : Option ℤ) (a b : ℤ) → same_amount o a ≡ true → same_amount o b ≡ true → a ≡ b
same_amount_unique none a b h k = cc
same_amount_unique (some x) a b h k = sym (eqb_ℤ→eq x a h) ∙ eqb_ℤ→eq x b k

-- Two commands under one key that match one row are one command.
matches_row_unique :
    (e : ProcessedEvent) (op : Operation) (c c' : PointCommand)
    → c.idempotency_key ≡ c'.idempotency_key
    → matches_row e op c ≡ true
    → matches_row e op c' ≡ true
    → c ≡ c'
unfolding matches_row
matches_row_unique e op c c' key h h' =
    let named = operation_eq→eq op c.operation (ground (arith, h)) in
    let named' = operation_eq→eq op c'.operation (ground (arith, h')) in
    let users =
      same_uuid_unique e.user_id c.user_id c'.user_id (ground (arith, h)) (ground (arith, h')) in
    let orders =
      same_uuid_unique e.order_id c.order_id c'.order_id (ground (arith, h)) (ground (arith, h')) in
    let amounts =
      same_amount_unique e.amount c.amount c'.amount (ground (arith, h)) (ground (arith, h')) in
    λ i. record {
      operation = (sym named ∙ named') i;
      user_id = users i;
      order_id = orders i;
      amount = amounts i;
      idempotency_key = key i;
    }

-- the answer to another command under a key that is taken
replay_row-conflict :
    (e : ProcessedEvent) (c c' : PointCommand) (r : PointResult)
    → replay_row e c ≡ returned r
    → r.success ≡ true
    → c.idempotency_key ≡ c'.idempotency_key
    → (c ≡ c' → ⊥)
    → (replay_row e c' ≡ returned (rejected (pos 0) idempotency_conflict))
      × (is_some e.operation ≡ true)
unfolding replay_row matches_row
replay_row-conflict e c c' r said won key other = elim (Option-cases e.operation) [
  | inl none_there ↦ let said' = rw (none_there, replay_row) at said in ground arith
  | inr (op, there) ↦ elim (Bool-cases (matches_row e op c)) [
    | inr differs ↦ let said' = rw (there, differs, replay_row) at said in ground arith
    | inl same ↦ elim (Bool-cases (matches_row e op c')) [
      | inl also ↦ absurd (other (matches_row_unique e op c c' key same also))
      | inr differs ↦ (rw (there, replay_row) (rw differs refl), rw there refl)
    ]
  ]
]

-- A key belongs to one command: after a deduction that succeeded, another command under its key, a
-- deduction or a refund, is answered with a conflict and changes nothing, and a purchase whose event
-- has the key as its id is refused for good.
pub deduct_body-exclusive :
    (clock later : Clock) (c c' : PointCommand) (msg : TicketPurchased) (uuid_of : Text → Uuid)
    (raced others : List ProcessedEvent) (r : PointResult) (db d : Db)
    → deduct_body clock c raced db ≡ done r d
    → r.success ≡ true
    → c.idempotency_key ≡ c'.idempotency_key
    → (c ≡ c' → ⊥)
    → c.idempotency_key ≡ msg.event_id
    → (deduct_body later c' others d ≡ done (rejected (pos 0) idempotency_conflict) d)
      × (refund_body c' others d ≡ done (rejected (pos 0) idempotency_conflict) d)
      × (purchase_body uuid_of later msg d
          ≡ thrown (permanent_message purchase_idempotency_conflict))
unfolding deduct_body refund_body purchase_body lock_loyalty_profile after_dedupe
    replay_point_command
deduct_body-exclusive clock later c c' msg uuid_of raced others r db d h won key other event =
    let (e, found, said) = deduct_body-Answers clock c raced r db d h won in
    let (conflict, command) = replay_row-conflict e c c' r said won key other in
    let found' : find_processed c'.idempotency_key d.processed ≡ some e = rw (← key) found in
    let found'' : find_processed msg.event_id d.processed ≡ some e = rw (← event) found in
    (
      rw (found', replay_point_command) (rw conflict refl),
      rw (found', replay_point_command) (rw conflict refl),
      rw (found'', purchase_body) (rw command refl),
    )
