-- ===== src/Delivery/Replay.antt =====
-- `publishConfirmed` (src/loyalty/consumers/confirmed-rmq-publish.ts) and `replay`
-- (src/loyalty/consumers/quarantine-replay.service.ts). The events of a publication arrive in an
-- order; the error of a `sendToQueue` that throws is the first one.
use cinema_loyalty_service.Prelude.{
  Text, text_eq, ℕ, Bool, true, false, not, ◌&&◌, Option, none, some, List, [], ◌∷◌, ◌==◌,
  if◌then◌else◌,
}
use cinema_loyalty_service.Delivery.{Delivery, holds, reset_for_replay}
use cinema_loyalty_service.Store.Types.{Instant}

pub data BrokerEvent : Type 0 where
  send_failed message_returned confirmed not_confirmed : BrokerEvent
  channel_closed channel_error confirm_timeout : BrokerEvent

pub data ReplayError : Type 0 where
  replay_publish_failed replay_unroutable replay_not_confirmed : ReplayError
  replay_channel_closed replay_channel_error replay_confirm_timeout : ReplayError
  invalid_replay_id replay_record_missing replay_source_mismatch replay_body_mismatch : ReplayError
  stop_all_source_consumers invalid_properties delivery_is_not_quarantined : ReplayError
  source_consumer_started : ReplayError

pub data Confirmation : Type 0 where
  unsettled resolved : Confirmation
  rejected_with : ReplayError → Confirmation

-- the promise and the variable `returned`
pub record Publishing : Type 0 where
  pub returned : Bool
  pub settled : Confirmation

-- `finish`: only the first call settles
abbrev finish : Confirmation → Publishing → Publishing
finish with p = elim p.settled [
  | unsettled ↦ record p { settled = with }
  | resolved ↦ p
  | rejected_with e ↦ p
]

unfoldable pub on_event : BrokerEvent → Publishing → Publishing
on_event send_failed p = finish (rejected_with replay_publish_failed) p
on_event message_returned p = record p { returned = true }
on_event confirmed p = finish (if p.returned then rejected_with replay_unroutable else resolved) p
on_event not_confirmed p = finish (rejected_with replay_not_confirmed) p
on_event channel_closed p = finish (rejected_with replay_channel_closed) p
on_event channel_error p = finish (rejected_with replay_channel_error) p
on_event confirm_timeout p = finish (rejected_with replay_confirm_timeout) p

unfoldable pub on_events : List BrokerEvent → Publishing → Publishing
on_events [] p = p
on_events (e ∷ es) p = on_events es (on_event e p)

unfoldable pub publish_confirmed : List BrokerEvent → Confirmation
publish_confirmed es = (on_events es (record { returned = false; settled = unsettled })).settled

-- the columns of a row that only a replay reads
pub record Saved : Type 0 where
  pub source_queue : Text
  pub original_body : Option Text
  pub original_properties : Option Text
  pub delivery : Delivery

-- What one call meets: the checks that the runtime makes, the numbers of consumers that the broker
-- gives, the clock, and the events of the publication.
pub record ReplayCall : Type 0 where
  pub is_delivery_id : Bool
  pub is_replay_uuid : Bool
  pub queue : Text
  pub id : Text
  pub replay_id : ℕ
  pub delivery_id_of : Text → Text → Text
  pub properties_ok : Text → Bool
  pub consumers : ℕ
  pub consumers_after : ℕ
  pub now : Instant
  pub events : List BrokerEvent

pub record Replayed : Type 0 where
  pub error : Option ReplayError
  pub published : Bool
  pub row : Delivery

abbrev pub refused_replay : ReplayError → Delivery → Replayed
refused_replay e d = record { error = some e; published = false; row = d }

abbrev publication_error : Confirmation → Option ReplayError
publication_error unsettled = some replay_confirm_timeout
publication_error resolved = none
publication_error (rejected_with e) = some e

-- what follows the UPDATE
unfoldable pub publish_replay : ReplayCall → Delivery → Replayed
publish_replay c d =
    if not (c.consumers_after == 0) then refused_replay source_consumer_started d else record {
      error = publication_error (publish_confirmed c.events);
      published = true;
      row = d;
    }

-- the UPDATE; a row that carries the replay already is published again without one
unfoldable pub reset_and_publish : ReplayCall → Delivery → Replayed
reset_and_publish c d = elim (reset_for_replay c.now c.replay_id d) [
  | some e ↦ publish_replay c e
  | none ↦
      if holds c.replay_id d.replay_id
      then publish_replay c d
      else refused_replay delivery_is_not_quarantined d
]

-- the checks on the saved message
unfoldable pub replay_saved : ReplayCall → Text → Text → Delivery → Replayed
replay_saved c body properties d =
    if not (text_eq (c.delivery_id_of c.queue body) c.id)
    then refused_replay replay_body_mismatch d
    else if not (c.consumers == 0)
    then refused_replay stop_all_source_consumers d
    else if not (c.properties_ok properties)
    then refused_replay invalid_properties d
    else reset_and_publish c d

unfoldable pub replay : ReplayCall → Saved → Replayed
replay c s =
    if not (c.is_delivery_id && c.is_replay_uuid)
    then refused_replay invalid_replay_id s.delivery
    else if not (text_eq s.source_queue c.queue)
    then refused_replay replay_source_mismatch s.delivery
    else elim s.original_body [
      | none ↦ refused_replay replay_source_mismatch s.delivery
      | some body ↦ elim s.original_properties [
        | none ↦ refused_replay replay_source_mismatch s.delivery
        | some properties ↦ replay_saved c body properties s.delivery
      ]
    ]
