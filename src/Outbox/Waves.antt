-- ===== src/Outbox/Waves.antt =====
-- `publishPendingEvents` (src/loyalty/outbox-publisher.service.ts): recovery, then waves of claims.
-- The publications of a wave run at once; their results are recorded in some order.
use cinema_loyalty_service.Prelude.{
  ℕ, zero, suc, ◌+◌, ◌-◌, min, Bool, true, false, not, Option, none, some, List, [], ◌∷◌, ltb,
  if◌then◌else◌, length,
}
use cinema_loyalty_service.Outbox.{
  outbox_batch_size, recover_expired_claims, fail_exhausted_pending, claim_events, Publication,
  process_event,
}
use cinema_loyalty_service.Store.Types.{Instant, OutboxEvent}

-- the result of one publication: its outcome, the instant at which it is recorded, and whether the
-- database takes it
pub record WaveResult : Type 0 where
  pub event : OutboxEvent
  pub outcome : Publication
  pub at : Instant
  pub recorded : Bool

-- What surrounds one wave: what other publishers did before it, the clock, the first of the fresh
-- tokens, and the order, the outcomes and the instants of its results.
pub record Wave : Type 0 where
  pub before : List OutboxEvent → List OutboxEvent
  pub now : Instant
  pub token : ℕ
  pub results : List OutboxEvent → List WaveResult

abbrev token_of : Option ℕ → ℕ
token_of none = 0
token_of (some n) = n

-- a result that the database did not take leaves the row to the recovery
unfoldable pub record_result : WaveResult → List OutboxEvent → List OutboxEvent
record_result r rows =
    if r.recorded
    then process_event r.at r.outcome r.event (token_of r.event.lease_token) rows
    else rows

unfoldable pub record_results : List WaveResult → List OutboxEvent → List OutboxEvent
record_results [] rows = rows
record_results (r ∷ rs) rows = record_results rs (record_result r rows)

-- `ended` tells that the loop ended by itself
pub record Run : Type 0 where
  pub ended : Bool
  pub total : ℕ
  pub rows : List OutboxEvent

-- the loop, from the number of rows claimed so far
unfoldable pub publish_waves : ℕ → (ℕ → Wave) → ℕ → ℕ → ℕ → List OutboxEvent → Run
publish_waves zero env concurrency lease_ms count rows = record {
  ended = false;
  total = count;
  rows = rows;
}
publish_waves (suc fuel) env concurrency lease_ms count rows =
    let w = env fuel in
    let (events, rows') =
      claim_events w.now lease_ms w.token (min concurrency (outbox_batch_size - count))
        (w.before rows) in
    let next = publish_waves fuel env concurrency lease_ms in
    if not (ltb count outbox_batch_size)
    then record { ended = true; total = count; rows = rows }
    else elim events [
      | [] ↦ record { ended = true; total = count; rows = rows' }
      | e ∷ es ↦ next (count + length (e ∷ es)) (record_results (w.results (e ∷ es)) rows')
    ]

-- a wave claims a row, or it is the last one
abbrev pub waves_at_most : ℕ
waves_at_most = 51

-- one run of the job, with the instants of its first two statements
unfoldable pub publish_pending_events :
    (ℕ → Wave) → ℕ → ℕ → Instant → Instant → List OutboxEvent → Run
publish_pending_events env concurrency lease_ms recover_at failed_at rows =
    publish_waves waves_at_most env concurrency lease_ms 0
      (fail_exhausted_pending failed_at (recover_expired_claims recover_at rows))
