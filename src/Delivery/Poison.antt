-- ===== src/Delivery/Poison.antt =====
-- A message that fails for good in its first run (src/loyalty/consumers/rmq-delivery.service.ts and
-- message-failure.ts beside it).
use cinema_loyalty_service.Prelude.{
  ◌+◌, ◌<◌, ◌≡◌, refl, ◌∙◌, true, false, Option, none, some, List, ◌∷◌, arith, ltb, leb, lt→ltb,
  ==-refl,
}
use cinema_loyalty_service.Delivery.{
  message_code, classify_message_failure, DeliveryOperation, DeliveryOptions, Delivery, backoff,
  admit, record_failed_run,
}
use cinema_loyalty_service.Delivery.Budget.{backoff-bounds}
use cinema_loyalty_service.Delivery.Handle.{
  Pass, acked, Handled, Loop, outcome_at, run_work, after_poll, admitted_row, pass, handle_from,
  handle,
}
use cinema_loyalty_service.Delivery.Liveness.{IsCalm, admitted_pass}
use cinema_loyalty_service.Delivery.Passes.{IsOpen, poll_spent, poll_due}
use cinema_loyalty_service.Store.Tx.{PermanentCode, permanent_message}
use cinema_loyalty_service.Store.Types.{Instant}

module _ (o : DeliveryOptions) (op : DeliveryOperation) (p : Pass) (now : Instant)
    (c : PermanentCode) where
  abbrev failed_at : Instant
  failed_at = outcome_at o p now

  -- the row under the claim of the first run
  abbrev in_work : Delivery
  in_work = record (admit o op now none) {
    attempts = 1;
    lease_token = some p.token;
    lease_expires_at = some (now + o.lease_ms);
  }

  -- the row after that run
  abbrev failed_delivery : Delivery
  failed_delivery = record (admit o op now none) {
    attempts = 1;
    error_code = some (message_code c);
    quarantine_required = true;
    next_attempt_at = failed_at + backoff o 1;
  }

  -- the row once it is put aside
  abbrev pub poisoned : Delivery
  poisoned = record failed_delivery {
    quarantined_at = some (failed_at + p.late_ms);
    body_saved = true;
  }

  first_outcome :
      failed_at < now + o.lease_ms
      → record_failed_run o failed_at p.token 1 o.max_attempts
          (classify_message_failure (permanent_message c))
          in_work
        ≡ failed_delivery
  unfolding record_failed_run admit classify_message_failure
  first_outcome live = rw (==-refl p.token, record_failed_run) (rw (lt→ltb _ _ live) refl)

  abbrev first_loop : Loop
  first_loop = record { clock = now; admitted = false; infrastructure_failures = 0; works = 0 }

  abbrev second_loop : Loop
  second_loop = record {
    clock = failed_at + p.late_ms;
    admitted = true;
    infrastructure_failures = p.outcome_outages;
    works = 1;
  }

  first_pass :
      (next : Loop → Option Delivery → Handled)
      → IsCalm p
      → p.work ≡ some (permanent_message c)
      → 0 < o.max_attempts
      → failed_at < now + o.lease_ms
      → pass o op p next first_loop none ≡ next second_loop (some failed_delivery)
  unfolding admitted_row admit after_poll run_work
  first_pass next calm fails some_left live =
      let d = admit o op now none in
      let row : admitted_row o op p first_loop none ≡ some d =
        rw (calm.4, admitted_row) (rw (calm.0 none) refl) in
      let ready : IsOpen o now d = (refl, refl, refl, omega arith) in
      let going : leb o.max_attempts 0 ≡ false = ground (arith, some_left) in
      let due : ltb now now ≡ false = ground arith in
      rw (admitted_pass o op p next first_loop none d calm row) (
        rw (poll_due o now p.token d ready going due)
          (rw (calm.3, run_work) (rw fails (rw (calm.1 in_work) (rw (first_outcome live) refl)))))

  second_pass :
      (q : Pass) (next : Loop → Option Delivery → Handled)
      → IsCalm q
      → pass o op q next second_loop (some failed_delivery)
        ≡ record { ending = acked; row = some poisoned; works = 1; succeeded = false }
  unfolding admitted_row admit after_poll
  second_pass q next calm =
      let ready : IsOpen o second_loop.clock failed_delivery =
        (refl, refl, refl, omega (arith, (backoff-bounds o 1 1 (omega arith)).0)) in
      rw
        (admitted_pass o op q next second_loop (some failed_delivery) failed_delivery calm
          (calm.0 (some failed_delivery)))
        (rw (poll_spent o second_loop.clock q.token failed_delivery ready refl) refl)

-- A new message whose first run fails for good, with an outcome that is recorded before the lease
-- ends, is not run again: the next pass puts it aside with its body and the code of the failure, and
-- acknowledges it, however many attempts are left.
pub handle-poisoned :
    (o : DeliveryOptions) (op : DeliveryOperation) (p q : Pass) (ps : List Pass) (now : Instant)
    (c : PermanentCode)
    → IsCalm p
    → IsCalm q
    → p.work ≡ some (permanent_message c)
    → 0 < o.max_attempts
    → outcome_at o p now < now + o.lease_ms
    → handle o op (p ∷ q ∷ ps) now none
      ≡ record { ending = acked; row = some (poisoned o op p now c); works = 1; succeeded = false }
unfolding handle handle_from
handle-poisoned o op p q ps now c calm calm' fails some_left live =
    first_pass o op p now c (handle_from o op (q ∷ ps)) calm fails some_left live
    ∙ second_pass o op p now c q (handle_from o op ps) calm'
