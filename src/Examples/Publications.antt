-- ===== src/Examples/Publications.antt =====
-- The properties of publications, of replays and of the publisher's runs at concrete inputs.
use cinema_loyalty_service.Prelude.{ℕ, ◌≤◌, ◌≡◌, refl, ◌↔◌, true, none, some, List, [], ◌∷◌, arith}
use cinema_loyalty_service.Delivery.{ticket_purchased_op, Delivery, holds}
use cinema_loyalty_service.Delivery.Publication.{publish_confirmed-exact, replay_once}
use cinema_loyalty_service.Delivery.Replay.{
  BrokerEvent, message_returned, confirmed, confirm_timeout, resolved, publish_confirmed, Saved,
  ReplayCall, replay,
}
use cinema_loyalty_service.Examples.{user, key}
use cinema_loyalty_service.Outbox.{emitted}
use cinema_loyalty_service.Outbox.Lease.{IsLeased, AreLeased}
use cinema_loyalty_service.Outbox.Runs.{publish_pending_events-ends}
use cinema_loyalty_service.Outbox.Waves.{WaveResult, Wave, publish_pending_events}
use cinema_loyalty_service.Store.Types.{bronze, silver, pending, OutboxEvent}
use cinema_loyalty_service.Examples.Catalogues.{word}

publish_confirmed-exact_example :
    (publish_confirmed (message_returned ∷ confirmed ∷ []) ≡ resolved)
    ↔ ((rest : List BrokerEvent) × (message_returned ∷ confirmed ∷ [] ≡ confirmed ∷ rest))
publish_confirmed-exact_example = publish_confirmed-exact (message_returned ∷ confirmed ∷ [])

abbrev pub put_aside_row : Delivery
put_aside_row = record {
  operation = ticket_purchased_op;
  attempts = 3;
  max_attempts = 3;
  next_attempt_at = 100;
  lease_token = none;
  lease_expires_at = none;
  completed_at = none;
  quarantine_required = true;
  quarantined_at = some 200;
  error_code = none;
  body_saved = true;
  replay_id = none;
  replay_count = 0;
}

abbrev pub saved_message : Saved
saved_message = record {
  source_queue = word;
  original_body = some key;
  original_properties = some word;
  delivery = put_aside_row;
}

abbrev pub call : ReplayCall
call = record {
  is_delivery_id = true;
  is_replay_uuid = true;
  queue = word;
  id = word;
  replay_id = 8;
  delivery_id_of = λ q b. word;
  properties_ok = λ t. true;
  consumers = 0;
  consumers_after = 0;
  now = 500;
  events = confirm_timeout ∷ [];
}

replay_once_example :
    ((replay call saved_message).published ≡ true
      → holds 8 (replay call saved_message).row.replay_id ≡ true)
    × (holds 8 put_aside_row.replay_id ≡ true → (replay call saved_message).row ≡ put_aside_row)
replay_once_example = replay_once call saved_message

abbrev due_event : OutboxEvent
due_event = record {
  id = 1;
  user_id = user;
  old_tier = bronze;
  new_tier = silver;
  status = pending;
  attempts = 0;
  max_attempts = 5;
  lease_token = none;
  lease_expires_at = none;
  next_attempt_at = 10;
  published_at = none;
}

abbrev confirm_all : List OutboxEvent → List WaveResult
confirm_all [] = []
confirm_all (e ∷ es) =
    record { event = e; outcome = emitted 1; at = 60; recorded = true } ∷ confirm_all es

abbrev waves : ℕ → Wave
waves n = record { before = λ rows. rows; now = 50; token = n; results = confirm_all }

due_event-IsLeased : IsLeased due_event
due_event-IsLeased = record { token = refl; lease = refl; budget = omega arith }

publish_pending_events-ends_example :
    ((publish_pending_events waves 5 45000 20 30 (due_event ∷ [])).ended ≡ true)
    × ((publish_pending_events waves 5 45000 20 30 (due_event ∷ [])).total ≤ 50)
    × AreLeased (publish_pending_events waves 5 45000 20 30 (due_event ∷ [])).rows
publish_pending_events-ends_example =
    publish_pending_events-ends waves 5 45000 (λ n rows h. h) 20 30 (due_event ∷ [])
      (due_event-IsLeased, tt)
