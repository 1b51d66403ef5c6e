-- ===== src/Delivery.antt =====
-- The statements on inbound deliveries (src/loyalty/consumers/rmq-delivery.service.ts and, for the
-- resets of a replay, quarantine-replay.service.ts beside it) and the classification of failures
-- (src/loyalty/consumers/message-failure.ts).
pub mod Budget
pub mod Handle
pub mod Passes
pub mod Liveness
pub mod Poison
pub mod Consumer
pub mod Refusal
pub mod Purchases
pub mod Acknowledgement
pub mod Replay
pub mod Publication
use cinema_loyalty_service.Prelude.{
  ℕ, zero, suc, ◌+◌, ◌-◌, ◌*◌, ◌^◌, ◌≤◌, ◌<◌, min, max, Bool, true, false, ◌&&◌, ◌||◌, not, Option,
  none, some, if◌then◌else◌, List, [], ◌∷◌, ltb, leb, ◌==◌, is_some,
}
use cinema_loyalty_service.Store.Tx.{
  Failure, permanent_message, known_request, rpc_exception, driver_adapter, plain_error,
  PermanentCode, ErrorCode, p1001, p1002, p1008, p1017, p2020, p2024, p2034, econnreset, etimedout,
  accounting_range_exceeded,
}
use cinema_loyalty_service.Store.Types.{Instant}

pub data FailureKind : Type 0 where
  permanent transient unknown : FailureKind

pub data DeliveryCode : Type 0 where
  message_code : PermanentCode → DeliveryCode
  transient_processing_failure unexpected_processing_failure : DeliveryCode
  delivery_attempts_exhausted : DeliveryCode

pub record Classified : Type 0 where
  pub kind : FailureKind
  pub code : DeliveryCode

abbrev classify_code : ErrorCode → Classified
classify_code p2020 = record { kind = permanent; code = message_code accounting_range_exceeded }
classify_code p1001 = record { kind = transient; code = transient_processing_failure }
classify_code p1002 = record { kind = transient; code = transient_processing_failure }
classify_code p1008 = record { kind = transient; code = transient_processing_failure }
classify_code p1017 = record { kind = transient; code = transient_processing_failure }
classify_code p2024 = record { kind = transient; code = transient_processing_failure }
classify_code p2034 = record { kind = transient; code = transient_processing_failure }
classify_code econnreset = record { kind = transient; code = transient_processing_failure }
classify_code etimedout = record { kind = transient; code = transient_processing_failure }
classify_code _ = record { kind = unknown; code = unexpected_processing_failure }

unfoldable pub classify_message_failure : Failure → Classified
classify_message_failure (permanent_message c) = record { kind = permanent; code = message_code c }
classify_message_failure (known_request c _) = classify_code c
classify_message_failure _ = record { kind = unknown; code = unexpected_processing_failure }

pub data DeliveryOperation : Type 0 where
  ticket_purchased_op user_date_of_birth_set_op : DeliveryOperation

-- RmqDeliveryConfig
pub record DeliveryOptions : Type 0 where
  pub max_attempts : ℕ
  pub retry_base_ms : ℕ
  pub retry_max_ms : ℕ
  pub lease_ms : ℕ

-- a row of inbound_deliveries
pub record Delivery : Type 0 where
  pub operation : DeliveryOperation
  pub attempts : ℕ
  pub max_attempts : ℕ
  pub next_attempt_at : Instant
  pub lease_token : Option ℕ
  pub lease_expires_at : Option Instant
  pub completed_at : Option Instant
  pub quarantine_required : Bool
  pub quarantined_at : Option Instant
  pub error_code : Option DeliveryCode
  pub body_saved : Bool
  pub replay_id : Option ℕ
  pub replay_count : ℕ

unfoldable pub backoff : DeliveryOptions → ℕ → ℕ
backoff o attempt = min o.retry_max_ms (o.retry_base_ms * 2 ^ min (max (attempt - 1) 0) 16)

abbrev fresh_delivery : DeliveryOptions → DeliveryOperation → Instant → Delivery
fresh_delivery o op now = record {
  operation = op;
  attempts = 0;
  max_attempts = o.max_attempts;
  next_attempt_at = now;
  lease_token = none;
  lease_expires_at = none;
  completed_at = none;
  quarantine_required = false;
  quarantined_at = none;
  error_code = none;
  body_saved = false;
  replay_id = none;
  replay_count = 0;
}

abbrev is_birth_date : DeliveryOperation → Bool
is_birth_date ticket_purchased_op = false
is_birth_date user_date_of_birth_set_op = true

-- INSERT ... ON CONFLICT DO UPDATE: only a completed date of birth starts again
unfoldable pub admit : DeliveryOptions → DeliveryOperation → Instant → Option Delivery → Delivery
admit o op now none = fresh_delivery o op now
admit o op now (some d) =
    if is_birth_date d.operation && is_some d.completed_at
    then record d {
      attempts = 0;
      max_attempts = o.max_attempts;
      completed_at = none;
      next_attempt_at = now;
    }
    else d

abbrev pub lease_active : Instant → Delivery → Bool
lease_active now d = elim d.lease_expires_at [ none ↦ false | some t ↦ ltb now t ]

-- the condition of `claim`
unfoldable pub can_claim : Instant → Delivery → Bool
can_claim now d =
    ltb d.attempts d.max_attempts
    && (not d.quarantine_required
        && (not (is_some d.completed_at)
            && (not (is_some d.quarantined_at)
                && (leb d.next_attempt_at now && not (lease_active now d)))))

unfoldable pub claim : DeliveryOptions → Instant → ℕ → Delivery → Option Delivery
unfolding can_claim
claim o now token d =
    if can_claim now d
    then some (record d {
      attempts = d.attempts + 1;
      lease_token = some token;
      lease_expires_at = some (now + o.lease_ms);
    })
    else none

abbrev pub holds : ℕ → Option ℕ → Bool
holds n none = false
holds n (some m) = m == n

-- the condition of both outcome statements: the claim's own live lease, nothing settled
unfoldable pub owns_delivery : Instant → ℕ → Delivery → Bool
owns_delivery now token d =
    holds token d.lease_token
    && (lease_active now d && (not (is_some d.completed_at) && not (is_some d.quarantined_at)))

abbrev is_permanent : FailureKind → Bool
is_permanent permanent = true
is_permanent transient = false
is_permanent unknown = false

-- the outcome of a failed run; `attempts` and `max_attempts` are those of the claim
unfoldable pub record_failed_run :
    DeliveryOptions → Instant → ℕ → ℕ → ℕ → Classified → Delivery → Delivery
unfolding owns_delivery backoff
record_failed_run o now token attempts max_attempts failure d =
    if owns_delivery now token d
    then record d {
      error_code = some failure.code;
      quarantine_required = is_permanent failure.kind || leb max_attempts attempts;
      next_attempt_at = now + backoff o attempts;
      lease_token = none;
      lease_expires_at = none;
    }
    else d

-- the outcome of a committed run
unfoldable pub record_completed_run : Instant → ℕ → Delivery → Delivery
unfolding owns_delivery
record_completed_run now token d =
    if owns_delivery now token d
    then record d { completed_at = some now; lease_token = none; lease_expires_at = none }
    else d

abbrev pub or_exhausted : Option DeliveryCode → Option DeliveryCode
or_exhausted none = some delivery_attempts_exhausted
or_exhausted (some c) = some c

-- the condition of `quarantine`
unfoldable pub can_quarantine : Instant → Delivery → Bool
can_quarantine now d =
    not (is_some d.completed_at)
    && (not (is_some d.quarantined_at)
        && ((d.quarantine_required || leb d.max_attempts d.attempts) && not (lease_active now d)))

-- `quarantine`: the row, with the message saved, if it was changed
unfoldable pub quarantine : Instant → Delivery → Option Delivery
unfolding can_quarantine
quarantine now d =
    if can_quarantine now d
    then some (record d {
      quarantine_required = true;
      quarantined_at = some now;
      error_code = or_exhausted d.error_code;
      body_saved = true;
      lease_token = none;
      lease_expires_at = none;
    })
    else none

-- What one pass of the `handle` loop does with the row that it read: the row after it, and whether
-- the message is acknowledged, the wait goes on, or the work runs under a claim.
pub data Verdict : Type 0 where
  acknowledged waiting working : Verdict

-- `wait_ms > 0`
abbrev must_wait : Instant → Delivery → Bool
must_wait now d = ltb now d.next_attempt_at

-- the quarantine branch; a row that another consumer changed first is read again
abbrev settle_quarantine : Delivery → Option Delivery → Delivery × Verdict
settle_quarantine d none = (d, waiting)
settle_quarantine d (some q) = (q, acknowledged)

abbrev settle_claim : Delivery → Option Delivery → Delivery × Verdict
settle_claim d none = (d, waiting)
settle_claim d (some q) = (q, working)

unfoldable pub poll : DeliveryOptions → Instant → ℕ → Delivery → Delivery × Verdict
unfolding quarantine claim
poll o now token d =
    if is_some d.completed_at || is_some d.quarantined_at
    then (d, acknowledged)
    else if not (lease_active now d) && (d.quarantine_required || leb d.max_attempts d.attempts)
    then settle_quarantine d (quarantine now d)
    else if lease_active now d || must_wait now d
    then (d, waiting)
    else settle_claim d (claim o now token d)

-- the UPDATE of `replay`, for a row whose saved message was checked before
unfoldable pub reset_for_replay : Instant → ℕ → Delivery → Option Delivery
reset_for_replay now replay d =
    if is_some d.quarantined_at && (not (holds replay d.replay_id) && not (lease_active now d))
    then some (record d {
      replay_id = some replay;
      replay_count = d.replay_count + 1;
      attempts = 0;
      quarantine_required = false;
      quarantined_at = none;
      completed_at = none;
      error_code = none;
      lease_token = none;
      lease_expires_at = none;
      next_attempt_at = now;
    })
    else none
