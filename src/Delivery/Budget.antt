-- ===== src/Delivery/Budget.antt =====
-- The attempts, the leases and the quarantine of deliveries.
use cinema_loyalty_service.Prelude.{
  ℕ, ◌+◌, ◌-◌, ◌≤◌, ◌<◌, ◌≡◌, true, false, arith, some, is_some, ◌&&◌, ◌||◌, not, min, max,
}
use cinema_loyalty_service.Store.Types.{Instant}
use native.Mathlib.Nat.{mul-le-mul_left, pow-le-pow_right}
use cinema_loyalty_service.Delivery.{
  Delivery, DeliveryOptions, DeliveryOperation, Classified, acknowledged, working, poll,
  record_failed_run, record_completed_run, reset_for_replay, backoff, admit,
}

-- A poll acknowledges a message only when it leaves its row completed or quarantined.
pub poll-acknowledged :
    (o : DeliveryOptions) (now : Instant) (token : ℕ) (d : Delivery)
    → (poll o now token d).1 ≡ acknowledged
    → (is_some (poll o now token d).0.completed_at || is_some (poll o now token d).0.quarantined_at)
      ≡ true
unfolding poll
poll-acknowledged o now token d h = ground arith

-- Work runs only under a claim that this poll made, of a row that is neither settled nor marked
-- for quarantine: one more attempt, within the budget, under the poll's token.
pub poll-working :
    (o : DeliveryOptions) (now : Instant) (token : ℕ) (d : Delivery)
    → (poll o now token d).1 ≡ working
    → ((poll o now token d).0.attempts ≡ d.attempts + 1)
      × (d.attempts + 1 ≤ d.max_attempts)
      × ((poll o now token d).0.lease_token ≡ some token)
      × ((is_some d.completed_at || is_some d.quarantined_at || d.quarantine_required) ≡ false)
unfolding poll
poll-working o now token d h = ground arith

-- The attempts are within the budget; a token and a lease go together; a row is completed or
-- quarantined, not both, and only a row that was marked is quarantined.
pub record IsSound (d : Delivery) : Type 0 where
  pub budget : d.attempts ≤ d.max_attempts
  pub leased : is_some d.lease_token ≡ is_some d.lease_expires_at
  pub settled : (is_some d.completed_at && is_some d.quarantined_at) ≡ false
  pub marked : (not (is_some d.quarantined_at) || d.quarantine_required) ≡ true

-- what one statement does to the row of a message
pub data DeliveryStep (o : DeliveryOptions) (d : Delivery) : Delivery → Type 0 where
  admitted : (op : DeliveryOperation) (now : Instant) → DeliveryStep o d (admit o op now (some d))
  polled : (now : Instant) (token : ℕ) → DeliveryStep o d (poll o now token d).0
  failed_run :
      (now token attempts max_attempts : ℕ) (failure : Classified)
      → DeliveryStep o d (record_failed_run o now token attempts max_attempts failure d)
  completed_run : (now token : ℕ) → DeliveryStep o d (record_completed_run now token d)
  replayed :
      (now replay : ℕ) (e : Delivery) → reset_for_replay now replay d ≡ some e → DeliveryStep o d e

-- Every statement of the consumers and of the replay, at any instant and in any order, keeps the
-- row of a message sound: its attempts within the budget, a token exactly with a lease, completed
-- or quarantined but not both, and quarantined only if it was marked.
pub DeliveryStep-IsSound :
    (o : DeliveryOptions) (d e : Delivery) → DeliveryStep o d e → IsSound d → IsSound e
unfolding admit poll record_failed_run record_completed_run reset_for_replay
DeliveryStep-IsSound o d e (admitted op now) h =
    ground (arith, h.budget, h.leased, h.settled, h.marked)
DeliveryStep-IsSound o d e (polled now token) h =
    ground (arith, h.budget, h.leased, h.settled, h.marked)
DeliveryStep-IsSound o d e (failed_run now token attempts max_attempts failure) h =
    ground (arith, h.budget, h.leased, h.settled, h.marked)
DeliveryStep-IsSound o d e (completed_run now token) h =
    ground (arith, h.budget, h.leased, h.settled, h.marked)
DeliveryStep-IsSound o d e (replayed now replay _ r) h =
    ground (arith, h.budget, h.leased, h.settled, h.marked)

-- The delay before the next attempt is at most the maximum, and grows with the attempts.
pub backoff-bounds :
    (o : DeliveryOptions) (a b : ℕ)
    → a ≤ b
    → (backoff o a ≤ o.retry_max_ms) × (backoff o a ≤ backoff o b)
unfolding backoff
backoff-bounds o a b h =
    let e : min (max (a - 1) 0) 16 ≤ min (max (b - 1) 0) 16 = omega arith in
    let two : 0 < 2 = omega arith in
    ground (arith, mul-le-mul_left o.retry_base_ms (pow-le-pow_right two e))
