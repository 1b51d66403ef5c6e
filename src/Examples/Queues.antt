-- ===== src/Examples/Queues.antt =====
-- The properties of the outbox and the deliveries at concrete inputs.
use cinema_loyalty_service.Prelude.{◌+◌, ◌≡◌, ◌≤◌, refl, false, some, none, List, [], ◌∷◌, arith}
use cinema_loyalty_service.Delivery.{
  Delivery, DeliveryOptions, ticket_purchased_op, poll, acknowledged, working,
}
use cinema_loyalty_service.Delivery.Budget.{IsSound, polled, DeliveryStep-IsSound}
use cinema_loyalty_service.Examples.{user}
use cinema_loyalty_service.Outbox.{
  recover_row, claim_row, claim_events, record_failure, record_success, publisher_delay,
  retry_base_ms, retry_max_ms,
}
use cinema_loyalty_service.Outbox.Lease.{
  AreLeased, claiming, TableStep-AreLeased, late_result_ignored, failure_matches_recovery,
}
use cinema_loyalty_service.Store.Types.{bronze, silver, OutboxEvent, pending, processing}

abbrev waiting_event : OutboxEvent
waiting_event = record {
  id = 3;
  user_id = user;
  old_tier = bronze;
  new_tier = silver;
  status = pending;
  attempts = 1;
  max_attempts = 5;
  lease_token = none;
  lease_expires_at = none;
  next_attempt_at = 900;
  published_at = none;
}

abbrev claimed_event : OutboxEvent
claimed_event = record waiting_event {
  status = processing;
  attempts = 2;
  lease_token = some 8;
  lease_expires_at = some 5000;
}

abbrev events : List OutboxEvent
events = waiting_event ∷ claimed_event ∷ []

events_leased : AreLeased events
events_leased = (
  record { token = refl; lease = refl; budget = omega arith },
  (record { token = refl; lease = refl; budget = omega arith }, tt),
)

TableStep-AreLeased_example : AreLeased (claim_events 1000 4000 9 50 events).1
TableStep-AreLeased_example =
    TableStep-AreLeased events (claim_events 1000 4000 9 50 events).1 (claiming 1000 4000 9 50)
      events_leased

failure_matches_recovery_example :
    (record_failure 2000 3 9 (publisher_delay 2) (claim_row 1000 4000 9 waiting_event)
      ≡ recover_row 2000 (claim_row 1000 4000 9 waiting_event))
    × (2000 + retry_base_ms
        ≤ (recover_row 2000 (claim_row 1000 4000 9 waiting_event)).next_attempt_at)
    × ((recover_row 2000 (claim_row 1000 4000 9 waiting_event)).next_attempt_at
        ≤ 2000 + retry_max_ms)
unfolding claim_row
failure_matches_recovery_example =
    failure_matches_recovery 1000 2000 4000 9 waiting_event (omega arith)

-- the row that another publisher has claimed again
abbrev claimed_again : OutboxEvent
claimed_again = claim_row 20000 4000 8 (recover_row 6000 (claim_row 1000 4000 9 waiting_event))

late_result_ignored_example :
    ((record_success 21000 3 9 (claim_row 1000 4000 9 waiting_event)).status ≡ processing)
    × ((record_success 21000 3 9 (recover_row 6000 (claim_row 1000 4000 9 waiting_event))
          ≡ recover_row 6000 (claim_row 1000 4000 9 waiting_event))
        × (record_failure 21000 3 9 5000 (recover_row 6000 (claim_row 1000 4000 9 waiting_event))
            ≡ recover_row 6000 (claim_row 1000 4000 9 waiting_event)))
    × ((record_success 21000 3 9 claimed_again ≡ claimed_again)
        × (record_failure 21000 3 9 5000 claimed_again ≡ claimed_again))
late_result_ignored_example =
    late_result_ignored 1000 21000 4000 9 6000 20000 8 5000 waiting_event (λ e. omega (arith, e))

abbrev options : DeliveryOptions
options = record { max_attempts = 5; retry_base_ms = 100; retry_max_ms = 3000; lease_ms = 2000 }

abbrev fresh : Delivery
fresh = record {
  operation = ticket_purchased_op;
  attempts = 1;
  max_attempts = 5;
  next_attempt_at = 900;
  lease_token = none;
  lease_expires_at = none;
  completed_at = none;
  quarantine_required = false;
  quarantined_at = none;
  error_code = none;
  body_saved = false;
  replay_id = none;
  replay_count = 0;
}

abbrev spent : Delivery
spent = record fresh { attempts = 5 }

fresh-IsSound : IsSound fresh
fresh-IsSound = record { budget = omega arith; leased = refl; settled = refl; marked = refl }

DeliveryStep-IsSound_example : IsSound (poll options 1000 6 fresh).0
DeliveryStep-IsSound_example =
    DeliveryStep-IsSound options fresh (poll options 1000 6 fresh).0 (polled 1000 6) fresh-IsSound

quarantines : (poll options 1000 6 spent).1 ≡ acknowledged
unfolding poll
quarantines = refl

works : (poll options 1000 6 fresh).1 ≡ working
unfolding poll
works = refl
