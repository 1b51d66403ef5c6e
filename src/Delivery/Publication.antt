-- ===== src/Delivery/Publication.antt =====
-- What a confirmed publication and a repeated replay guarantee.
use cinema_loyalty_service.Prelude.{
  Text, text_eq, inl, inr, ◌&&◌, Option, some, ◌==◌, Bool-cases, ℕ, ◌≡◌, refl, ◌≢◌, ◌↔◌, Bool, true,
  false, none, List, [], ◌∷◌, arith,
}
use cinema_loyalty_service.Delivery.{Delivery, holds, reset_for_replay}
use cinema_loyalty_service.Delivery.Replay.{
  refused_replay, invalid_replay_id, replay_source_mismatch, replay_body_mismatch,
  stop_all_source_consumers, invalid_properties, Replayed, Saved, replay_saved, replay, BrokerEvent,
  send_failed, message_returned, confirmed, not_confirmed, channel_closed, channel_error,
  confirm_timeout, ReplayError, replay_publish_failed, replay_unroutable, replay_not_confirmed,
  replay_channel_closed, replay_channel_error, replay_confirm_timeout, Confirmation, unsettled,
  resolved, rejected_with, Publishing, on_event, on_events, publish_confirmed, ReplayCall,
  publish_replay, reset_and_publish,
}

abbrev at : Bool → Confirmation → Publishing
at r s = record { returned = r; settled = s }

rejected_event :
    (e : BrokerEvent) (r : Bool) (x : ReplayError)
    → (r' : Bool) × (on_event e (at r (rejected_with x)) ≡ at r' (rejected_with x))
unfolding on_event
rejected_event send_failed r x = (r, refl)
rejected_event message_returned r x = (true, refl)
rejected_event confirmed r x = (r, refl)
rejected_event not_confirmed r x = (r, refl)
rejected_event channel_closed r x = (r, refl)
rejected_event channel_error r x = (r, refl)
rejected_event confirm_timeout r x = (r, refl)

resolved_event :
    (e : BrokerEvent) (r : Bool) → (r' : Bool) × (on_event e (at r resolved) ≡ at r' resolved)
unfolding on_event
resolved_event send_failed r = (r, refl)
resolved_event message_returned r = (true, refl)
resolved_event confirmed r = (r, refl)
resolved_event not_confirmed r = (r, refl)
resolved_event channel_closed r = (r, refl)
resolved_event channel_error r = (r, refl)
resolved_event confirm_timeout r = (r, refl)

-- What is settled stays so.
rejected_stays :
    (es : List BrokerEvent) (r : Bool) (x : ReplayError)
    → (on_events es (at r (rejected_with x))).settled ≡ rejected_with x
unfolding on_events
rejected_stays [] r x = refl
rejected_stays (e ∷ es) r x =
    let (r', q) = rejected_event e r x in rw (q, on_events) (rejected_stays es r' x)

resolved_stays :
    (es : List BrokerEvent) (r : Bool) → (on_events es (at r resolved)).settled ≡ resolved
unfolding on_events
resolved_stays [] r = refl
resolved_stays (e ∷ es) r =
    let (r', q) = resolved_event e r in rw (q, on_events) (resolved_stays es r')

rejected_never :
    (es : List BrokerEvent) (r : Bool) (x : ReplayError)
    → (on_events es (at r (rejected_with x))).settled ≢ resolved
rejected_never es r x h = let q = rejected_stays es r x in cc

returned_never : (es : List BrokerEvent) → (on_events es (at true unsettled)).settled ≢ resolved
unfolding on_events on_event
returned_never [] h = cc
returned_never (send_failed ∷ es) h = rejected_never es true replay_publish_failed h
returned_never (message_returned ∷ es) h = returned_never es h
returned_never (confirmed ∷ es) h = rejected_never es true replay_unroutable h
returned_never (not_confirmed ∷ es) h = rejected_never es true replay_not_confirmed h
returned_never (channel_closed ∷ es) h = rejected_never es true replay_channel_closed h
returned_never (channel_error ∷ es) h = rejected_never es true replay_channel_error h
returned_never (confirm_timeout ∷ es) h = rejected_never es true replay_confirm_timeout h

-- A publication succeeds exactly if the first thing that happens to it is a positive confirm of the
-- broker: not after a returned message, a closed channel, an error or the timeout.
pub publish_confirmed-exact :
    (es : List BrokerEvent)
    → (publish_confirmed es ≡ resolved) ↔ ((rest : List BrokerEvent) × (es ≡ confirmed ∷ rest))
unfolding publish_confirmed on_events on_event
publish_confirmed-exact es = (first es, λ (rest, q). rw q (resolved_stays rest false))
  where
    first :
        (l : List BrokerEvent)
        → publish_confirmed l ≡ resolved
        → (rest : List BrokerEvent) × (l ≡ confirmed ∷ rest)
    first [] h = cc
    first (send_failed ∷ l) h = absurd (rejected_never l false replay_publish_failed h)
    first (message_returned ∷ l) h = absurd (returned_never l h)
    first (confirmed ∷ l) h = (l, refl)
    first (not_confirmed ∷ l) h = absurd (rejected_never l false replay_not_confirmed h)
    first (channel_closed ∷ l) h = absurd (rejected_never l false replay_channel_closed h)
    first (channel_error ∷ l) h = absurd (rejected_never l false replay_channel_error h)
    first (confirm_timeout ∷ l) h = absurd (rejected_never l false replay_confirm_timeout h)

publish_replay-row : (c : ReplayCall) (d : Delivery) → (publish_replay c d).row ≡ d
unfolding publish_replay
publish_replay-row c d = ground arith

reset_for_replay-carried :
    (now n : ℕ) (d : Delivery) → holds n d.replay_id ≡ true → reset_for_replay now n d ≡ none
unfolding reset_for_replay
reset_for_replay-carried now n d h = ground (arith, h)

reset_and_publish-carried :
    (c : ReplayCall) (d : Delivery)
    → holds c.replay_id d.replay_id ≡ true
    → (reset_and_publish c d).row ≡ d
unfolding reset_and_publish
reset_and_publish-carried c d h =
    rw (reset_for_replay-carried c.now c.replay_id d h, reset_and_publish)
      (rw h (publish_replay-row c d))

abbrev IsOnce : ReplayCall → Delivery → Replayed → Type 0
IsOnce c d x =
    (x.published ≡ true → holds c.replay_id x.row.replay_id ≡ true)
    × (holds c.replay_id d.replay_id ≡ true → x.row ≡ d)

refused-IsOnce : (c : ReplayCall) (d : Delivery) (e : ReplayError) → IsOnce c d (refused_replay e d)
refused-IsOnce c d e = (λ h. cc, λ h. refl)

reset_for_replay-carries :
    (now n : ℕ) (d e : Delivery) → reset_for_replay now n d ≡ some e → holds n e.replay_id ≡ true
unfolding reset_for_replay
reset_for_replay-carries now n d e h = ground (arith, h)

reset_and_publish-published :
    (c : ReplayCall) (d : Delivery)
    → (reset_and_publish c d).published ≡ true
    → holds c.replay_id (reset_and_publish c d).row.replay_id ≡ true
unfolding reset_and_publish
reset_and_publish-published c d h = cases (reset_for_replay c.now c.replay_id d) refl
  where
    cases :
        (o : Option Delivery)
        → reset_for_replay c.now c.replay_id d ≡ o
        → holds c.replay_id (reset_and_publish c d).row.replay_id ≡ true
    cases (some e) q =
        rw (q, reset_and_publish)
          (rw (publish_replay-row c e) (reset_for_replay-carries c.now c.replay_id d e q))
    cases none q = elim (Bool-cases (holds c.replay_id d.replay_id)) [
      | inl mine ↦ rw (q, reset_and_publish) (rw mine (rw (publish_replay-row c d) mine))
      | inr other ↦ let h' = rw (q, reset_and_publish) at h in ground (arith, h', other)
    ]

replay_saved-IsOnce :
    (c : ReplayCall) (body properties : Text) (d : Delivery)
    → IsOnce c d (replay_saved c body properties d)
unfolding replay_saved
replay_saved-IsOnce c body properties d =
    elim (Bool-cases (text_eq (c.delivery_id_of c.queue body) c.id)) [
      | inr wrong ↦ rw (wrong, replay_saved) (refused-IsOnce c d replay_body_mismatch)
      | inl same ↦ elim (Bool-cases (c.consumers == 0)) [
        | inr busy ↦
            rw (same, replay_saved) (rw busy (refused-IsOnce c d stop_all_source_consumers))
        | inl stopped ↦ elim (Bool-cases (c.properties_ok properties)) [
          | inr wrong ↦
              rw (same, replay_saved)
                (rw stopped (rw wrong (refused-IsOnce c d invalid_properties)))
          | inl fine ↦
              rw (same, replay_saved)
                (rw stopped
                  (rw fine (reset_and_publish-published c d, reset_and_publish-carried c d)))
        ]
      ]
    ]

-- A replay that reaches the broker leaves the row with its id, and a row that carries the id is not
-- changed by it: so a replay that is repeated with the same id, because its confirm was lost, never
-- gives a message a second budget, whatever is checked, found and answered in both calls.
pub replay_once :
    (c : ReplayCall) (s : Saved)
    → ((replay c s).published ≡ true → holds c.replay_id (replay c s).row.replay_id ≡ true)
      × (holds c.replay_id s.delivery.replay_id ≡ true → (replay c s).row ≡ s.delivery)
unfolding replay
replay_once c s = cases s.original_body refl s.original_properties refl
  where
    saved :
        (c.is_delivery_id && c.is_replay_uuid) ≡ true
        → text_eq s.source_queue c.queue ≡ true
        → (b : Option Text) → s.original_body ≡ b
        → (p : Option Text) → s.original_properties ≡ p
        → IsOnce c s.delivery (replay c s)
    saved fine same none q p r =
        rw (q, replay) (rw fine (rw same (refused-IsOnce c s.delivery replay_source_mismatch)))
    saved fine same (some b) q none r =
        rw (q, r, replay) (rw fine (rw same (refused-IsOnce c s.delivery replay_source_mismatch)))
    saved fine same (some b) q (some p) r =
        rw (q, r, replay) (rw fine (rw same (replay_saved-IsOnce c b p s.delivery)))

    cases :
        (b : Option Text)
        → s.original_body ≡ b
        → (p : Option Text) → s.original_properties ≡ p
        → IsOnce c s.delivery (replay c s)
    cases b q p r = elim (Bool-cases (c.is_delivery_id && c.is_replay_uuid)) [
      | inr wrong ↦ rw (wrong, replay) (refused-IsOnce c s.delivery invalid_replay_id)
      | inl fine ↦ elim (Bool-cases (text_eq s.source_queue c.queue)) [
        | inr wrong ↦
            rw (fine, replay) (rw wrong (refused-IsOnce c s.delivery replay_source_mismatch))
        | inl same ↦ saved fine same b q p r
      ]
    ]
