-- ===== src/Delivery/Handle.antt =====
-- The loop of `handle` (src/loyalty/consumers/rmq-delivery.service.ts), for one message. A pass of
-- the loop reads the clock once; `AbortSignal` is read at its start and after the work.
use cinema_loyalty_service.Prelude.{
  ℕ, zero, suc, ◌+◌, ◌-◌, min, max, Bool, true, false, not, ◌||◌, Option, none, some, List, [], ◌∷◌,
  ltb, if◌then◌else◌, is_some,
}
use cinema_loyalty_service.Delivery.{
  classify_message_failure, DeliveryOperation, DeliveryOptions, Delivery, backoff, admit,
  lease_active, record_failed_run, record_completed_run, Verdict, acknowledged, waiting, working,
  poll,
}
use cinema_loyalty_service.Store.Tx.{Failure}
use cinema_loyalty_service.Store.Types.{Instant}

pub data Outage : Type 0 where
  no_outage at_admission later : Outage

-- What surrounds one pass: what other consumers did to the row before it, and while the work runs;
-- a shutdown; a failure of the database, and how often it fails at the outcome; the token of a
-- claim; the result of the work and its time; and the time that a pass takes beyond its delays.
pub record Pass : Type 0 where
  pub before : Option Delivery → Option Delivery
  pub aborted : Bool
  pub outage : Outage
  pub token : ℕ
  pub work : Option Failure
  pub work_ms : ℕ
  pub meanwhile : Delivery → Delivery
  pub aborted_in_work : Bool
  pub outcome_outages : ℕ
  pub late_ms : ℕ

pub data Ending : Type 0 where
  unfinished left acked : Ending

-- `works` counts the runs of the work, and `succeeded` tells that one of them ended well
pub record Handled : Type 0 where
  pub ending : Ending
  pub row : Option Delivery
  pub works : ℕ
  pub succeeded : Bool

-- the variables of the loop, with the clock
pub record Loop : Type 0 where
  pub clock : Instant
  pub admitted : Bool
  pub infrastructure_failures : ℕ
  pub works : ℕ

abbrev pub is_outage : Outage → Bool
is_outage no_outage = false
is_outage at_admission = true
is_outage later = true

abbrev is_at_admission : Outage → Bool
is_at_admission no_outage = false
is_at_admission at_admission = true
is_at_admission later = false

abbrev lease_end : Delivery → ℕ
lease_end d = elim d.lease_expires_at [ none ↦ d.next_attempt_at | some t ↦ t ]

unfoldable pub wait_ms : DeliveryOptions → Instant → Delivery → ℕ
wait_ms o now d = min o.retry_max_ms (max d.next_attempt_at (lease_end d) - now)

-- the delay of a pass that goes on waiting; a row that was changed meanwhile is read again at once
unfoldable pub pause : DeliveryOptions → Instant → Delivery → ℕ
unfolding wait_ms
pause o now d =
    if lease_active now d || ltb 0 (wait_ms o now d) then max 50 (wait_ms o now d) else 0

-- the delays of `n` failures to record an outcome
unfoldable pub outage_ms : DeliveryOptions → ℕ → ℕ
unfolding backoff
outage_ms o zero = 0
outage_ms o (suc n) = outage_ms o n + backoff o (suc n)

-- the delay after a failed pass
unfoldable pub failed_pass : DeliveryOptions → ℕ → Bool → Loop → Loop
unfolding backoff
failed_pass o late admitted l = record l {
  clock = l.clock + backoff o (l.infrastructure_failures + 1) + late;
  admitted = admitted;
  infrastructure_failures = l.infrastructure_failures + 1;
}

abbrev handled : Ending → Bool → ℕ → Option Delivery → Handled
handled e s n row = record { ending = e; row = row; works = n; succeeded = s }

-- the instant of the outcome of the work
abbrev pub outcome_at : DeliveryOptions → Pass → Instant → Instant
outcome_at o p now = now + p.work_ms + outage_ms o p.outcome_outages

-- the work under a claim, and the statement of its outcome
unfoldable pub run_work :
    DeliveryOptions → Pass → (Loop → Option Delivery → Handled) → Loop → Delivery → Handled
unfolding record_failed_run record_completed_run outage_ms
run_work o p next l d =
    let n = l.works + 1 in
    let e = p.meanwhile d in
    let at = outcome_at o p l.clock in
    if p.aborted_in_work then handled left (not (is_some p.work)) n (some e) else elim p.work [
      | none ↦ handled acked true n (some (record_completed_run at p.token e))
      | some f ↦
          next
            (record {
              clock = at + p.late_ms;
              admitted = true;
              infrastructure_failures = p.outcome_outages;
              works = n;
            })
            (some (
              record_failed_run o at p.token d.attempts d.max_attempts (classify_message_failure f)
                e))
    ]

-- what follows the reading of the row
unfoldable pub after_poll :
    DeliveryOptions
    → Pass
    → (Loop → Option Delivery → Handled)
    → Loop
    → Delivery × Verdict
    → Handled
after_poll o p next l (d, acknowledged) = handled acked false l.works (some d)
after_poll o p next l (d, waiting) =
    next (record l { clock = l.clock + pause o l.clock d + p.late_ms }) (some d)
after_poll o p next l (d, working) = run_work o p next l d

-- the row after the admission
unfoldable pub admitted_row :
    DeliveryOptions → DeliveryOperation → Pass → Loop → Option Delivery → Option Delivery
unfolding admit
admitted_row o op p l row =
    if l.admitted || is_at_admission p.outage
    then p.before row
    else some (admit o op l.clock (p.before row))

-- one pass
unfoldable pub pass :
    DeliveryOptions
    → DeliveryOperation
    → Pass
    → (Loop → Option Delivery → Handled)
    → Loop
    → Option Delivery
    → Handled
pass o op p next l row =
    let admitted = l.admitted || not (is_at_admission p.outage) in
    if p.aborted
    then handled left false l.works row
    else if is_outage p.outage
    then next (failed_pass o p.late_ms admitted l) (admitted_row o op p l row)
    else elim (admitted_row o op p l row) [
      | none ↦ next (failed_pass o p.late_ms admitted l) none
      | some d ↦ after_poll o p next (record l { admitted = true }) (poll o l.clock p.token d)
    ]

-- the loop, as long as the list has passes
unfoldable pub handle_from :
    DeliveryOptions → DeliveryOperation → List Pass → Loop → Option Delivery → Handled
handle_from o op [] l row = handled unfinished false l.works row
handle_from o op (p ∷ ps) l row = pass o op p (handle_from o op ps) l row

unfoldable pub handle :
    DeliveryOptions → DeliveryOperation → List Pass → Instant → Option Delivery → Handled
handle o op ps now row =
    handle_from o op ps
      (record { clock = now; admitted = false; infrastructure_failures = 0; works = 0 }) row
