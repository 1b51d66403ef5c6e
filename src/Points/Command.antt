-- ===== src/Points/Command.antt =====
-- src/loyalty/point-command-idempotency.ts. `uuid` stands for zod's `z.uuid()`: the uuid that an
-- accepted text denotes. Postgres and the lower-casing of the schema compare uuids by that value.
use cinema_loyalty_service.Prelude.{
  ◌≡◌, arith, Bool, true, false, ◌&&◌, not, Option, none, some, leb, ◌==◌, if◌then◌else◌, List, [],
  ◌∷◌, length, ℤ, pos, leb_ℤ, eqb_ℤ, is_int32, is_some, int32_max, Text, text_eq,
}
use cinema_loyalty_service.Store.Tx.{
  done, Answer, returned, raised, Tx, pure, throw, throw_if, modify, ◌>>=◌, ◌>>◌, Message,
  no_message, legacy_idempotency, idempotency_conflict, command_result_missing, command_disappeared,
  plain_error, known_request, p2020, add_processed,
}
use cinema_loyalty_service.Store.Types.{Db, Uuid, Operation, operation_eq, ProcessedEvent}

-- the arguments of a point request, as they arrive
pub record RawCommand : Type 0 where
  pub operation : Operation
  pub user_id : Text
  pub amount : ℤ
  pub order_id : Text
  pub idempotency_key : Text

pub record PointCommand : Type 0 where
  pub operation : Operation
  pub user_id : Uuid
  pub order_id : Uuid
  pub amount : ℤ
  pub idempotency_key : Text

pub record PointResult : Type 0 where
  pub success : Bool
  pub balance_after : ℤ
  pub error_message : Message

abbrev pub rejected : ℤ → Message → PointResult
rejected b m = record { success = false; balance_after = b; error_message = m }

abbrev pub accepted : ℤ → PointResult
accepted b = record { success = true; balance_after = b; error_message = no_message }

-- an integer from 1 to 2147483647, and a key of 1 to 128 code units
abbrev amount_ok : ℤ → Bool
amount_ok a = leb_ℤ (pos 1) a && leb_ℤ a (pos int32_max)

abbrev key_ok : Text → Bool
key_ok k = leb 1 (length k) && leb (length k) 128

unfoldable pub parse_point_command : (Text → Option Uuid) → RawCommand → Option PointCommand
parse_point_command uuid input = elim (uuid input.user_id) [
  | none ↦ none
  | some u ↦ elim (uuid input.order_id) [
    | none ↦ none
    | some o ↦
        if amount_ok input.amount && key_ok input.idempotency_key
        then some (record {
          operation = input.operation;
          user_id = u;
          order_id = o;
          amount = input.amount;
          idempotency_key = input.idempotency_key;
        })
        else none
  ]
]

-- `processedEvent.findUnique`
unfoldable pub find_processed : Text → List ProcessedEvent → Option ProcessedEvent
find_processed k [] = none
find_processed k (e ∷ es) = if text_eq e.event_id k then some e else find_processed k es

abbrev pub same_uuid : Option Uuid → Uuid → Bool
same_uuid none u = false
same_uuid (some v) u = v == u

abbrev pub same_amount : Option ℤ → ℤ → Bool
same_amount none a = false
same_amount (some b) a = eqb_ℤ b a

-- what a row of processed_events answers to a command with its key
unfoldable pub replay_row : ProcessedEvent → PointCommand → Answer PointResult
replay_row e c = elim e.operation [
  | none ↦ returned (rejected (pos 0) legacy_idempotency)
  | some op ↦
      if not (
        operation_eq op c.operation
        && (same_uuid e.user_id c.user_id
            && (same_uuid e.order_id c.order_id && same_amount e.amount c.amount)))
      then returned (rejected (pos 0) idempotency_conflict)
      else elim e.balance_after [
        | none ↦ raised (plain_error command_result_missing)
        | some b ↦ returned (accepted b)
      ]
]

abbrev found_answer : Answer PointResult → Tx (Option PointResult)
found_answer (returned r) = pure (some r)
found_answer (raised e) = throw e

unfoldable pub replay_point_command : PointCommand → Tx (Option PointResult)
replay_point_command c db = elim (find_processed c.idempotency_key db.processed) [
  | none ↦ pure none db
  | some e ↦ found_answer (replay_row e c) db
]

-- the row that a command writes
abbrev pub command_row : PointCommand → ℤ → ProcessedEvent
command_row c after = record {
  event_id = c.idempotency_key;
  operation = some c.operation;
  user_id = some c.user_id;
  order_id = some c.order_id;
  amount = some c.amount;
  balance_after = some after;
}

abbrev pub add_row : PointCommand → ℤ → Db → Db
add_row c after d = record d { processed = command_row c after ∷ d.processed }

-- `createMany` with `skipDuplicates`: no row is added under a key that is taken
unfoldable pub claim_after_race : PointCommand → ℤ → Tx (Option PointResult)
claim_after_race c after db = elim (find_processed c.idempotency_key db.processed) [
  | none ↦ (do modify (add_row c after); pure none) db
  | some e ↦
      (do
        replay ← replay_point_command c
        throw_if (not (is_some replay)) (plain_error command_disappeared)
        pure replay)
        db
]

-- `raced` are the rows that other sessions commit between the replay and the claim.
unfoldable pub claim_point_command :
    PointCommand → ℤ → List ProcessedEvent → Tx (Option PointResult)
unfolding claim_after_race
claim_point_command c after raced = do
  throw_if (not (is_int32 after)) (known_request p2020 none)
  modify (add_processed raced)
  claim_after_race c after

-- A replay reads only.
pub replay_point_command_reads :
    (c : PointCommand) (r : Option PointResult) (db d : Db)
    → replay_point_command c db ≡ done r d
    → d ≡ db
unfolding replay_point_command
replay_point_command_reads c r db d h = ground arith

-- A claim writes to processed_events only.
pub claim_point_command_writes :
    (c : PointCommand) (after : ℤ) (raced : List ProcessedEvent) (r : Option PointResult)
    (db d : Db)
    → claim_point_command c after raced db ≡ done r d
    → d ≡ record db { processed = d.processed }
unfolding claim_point_command replay_point_command
claim_point_command_writes c after raced r db d h = ground arith
