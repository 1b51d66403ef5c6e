-- ===== src/Delivery/Passes.antt =====
-- What one pass of the loop of `handle` reads, by the state of the row.
-- A row that is neither done nor leased.
use cinema_loyalty_service.Prelude.{
  ℕ, ◌+◌, ◌-◌, ◌*◌, ◌≤◌, ◌≡◌, refl, true, false, ◌||◌, none, some, arith, ltb, leb, if◌then◌else◌,
  is_some,
}
use cinema_loyalty_service.Delivery.{
  DeliveryOptions, Delivery, lease_active, can_claim, claim, or_exhausted, acknowledged, waiting,
  working, poll,
}
use cinema_loyalty_service.Delivery.Handle.{wait_ms, pause}
use cinema_loyalty_service.Store.Types.{Instant}

abbrev pub IsOpen : DeliveryOptions → Instant → Delivery → Type 0
IsOpen o now d =
    (is_some d.completed_at ≡ false)
    × (is_some d.quarantined_at ≡ false)
    × (lease_active now d ≡ false)
    × (d.next_attempt_at ≤ now + o.retry_max_ms)

-- the passes that such a row still takes at most
abbrev pub passes_left : Instant → Delivery → ℕ
passes_left now d =
    2 * (d.max_attempts - d.attempts) + (if ltb now d.next_attempt_at then 1 else 0) + 1

module _ (o : DeliveryOptions) (now : Instant) (token : ℕ) (d : Delivery)
    (ready : IsOpen o now d) where
  abbrev pub put_aside : Delivery
  put_aside = record d {
    quarantine_required = true;
    quarantined_at = some now;
    error_code = or_exhausted d.error_code;
    body_saved = true;
    lease_token = none;
    lease_expires_at = none;
  }

  pub poll_spent :
      (d.quarantine_required || leb d.max_attempts d.attempts) ≡ true
      → poll o now token d ≡ (put_aside, acknowledged)
  unfolding poll
  poll_spent h =
      let (fresh, kept, free, near) = ready in rw (fresh, poll) (rw kept (rw free (rw h refl)))

  pub poll_early :
      (d.quarantine_required || leb d.max_attempts d.attempts) ≡ false
      → ltb now d.next_attempt_at ≡ true
      → poll o now token d ≡ (d, waiting)
  unfolding poll
  poll_early h early =
      let (fresh, kept, free, near) = ready in
      rw (fresh, poll) (rw kept (rw free (rw h (rw early refl))))

  pub pause_early : ltb now d.next_attempt_at ≡ true → d.next_attempt_at ≤ now + pause o now d
  unfolding pause wait_ms
  pause_early early = let (fresh, kept, free, near) = ready in ground (arith, early, free, near)

  pub poll_due :
      (d.quarantine_required || leb d.max_attempts d.attempts) ≡ false
      → ltb now d.next_attempt_at ≡ false
      → poll o now token d ≡ (
        record d {
          attempts = d.attempts + 1;
          lease_token = some token;
          lease_expires_at = some (now + o.lease_ms);
        },
        working,
      )
  unfolding poll claim can_claim
  poll_due h due =
      let (fresh, kept, free, near) = ready in
      let unmarked : d.quarantine_required ≡ false = ground (arith, h) in
      let within : leb d.max_attempts d.attempts ≡ false = ground (arith, h) in
      let below : ltb d.attempts d.max_attempts ≡ true = ground (arith, within) in
      let now_due : leb d.next_attempt_at now ≡ true = ground (arith, due) in
      rw (fresh, poll)
        (rw kept (rw free (rw unmarked (rw within (rw due (rw below (rw now_due refl)))))))
