-- ===== src/Delivery/Liveness.antt =====
-- What the loop of `handle` ends in.
use cinema_loyalty_service.Prelude.{
  sym, subst, length, inl, inr, ==-refl, Bool-cases, ◌<◌, none, arith, ℕ, ◌+◌, ◌-◌, ◌*◌, ◌≤◌, ◌≡◌,
  refl, true, false, ◌||◌, Option, some, List, [], ◌∷◌, ltb, leb,
}
use cinema_loyalty_service.Delivery.{
  admit, DeliveryOperation, classify_message_failure, record_failed_run, DeliveryOptions, Delivery,
  poll,
}
use cinema_loyalty_service.Delivery.Budget.{backoff-bounds}
use cinema_loyalty_service.Delivery.Handle.{
  admitted_row, pass, handle_from, handle, outcome_at, acked, Handled, Loop, run_work, after_poll,
  no_outage, Pass, pause,
}
use cinema_loyalty_service.Delivery.Passes.{
  IsOpen, passes_left, poll_spent, poll_early, pause_early, poll_due,
}
use cinema_loyalty_service.Expiration.{below}
use cinema_loyalty_service.Store.Tx.{Failure}
use cinema_loyalty_service.Store.Types.{Instant}

-- no other consumer, no shutdown, and no failure before the work
abbrev pub IsCalm : Pass → Type 0
IsCalm p =
    ((row : Option Delivery) → p.before row ≡ row)
    × ((d : Delivery) → p.meanwhile d ≡ d)
    × (p.aborted ≡ false)
    × (p.aborted_in_work ≡ false)
    × (p.outage ≡ no_outage)

abbrev pub AreCalm : List Pass → Type 0
AreCalm [] = Unit
AreCalm (p ∷ ps) = IsCalm p × AreCalm ps

abbrev Ends : ℕ → Handled → Type 0
Ends n h = (h.ending ≡ acked) × (h.works ≤ n)

-- the row after a failed run whose outcome is recorded at `at`
failed_row : DeliveryOptions → Pass → Failure → Instant → Delivery → Delivery
failed_row o p f at d =
    record_failed_run o at p.token d.attempts d.max_attempts (classify_message_failure f) d

claimed : DeliveryOptions → Pass → Instant → Delivery → Delivery
claimed o p now d = record d {
  attempts = d.attempts + 1;
  lease_token = some p.token;
  lease_expires_at = some (now + o.lease_ms);
}

failed_row-IsOpen :
    (o : DeliveryOptions) (p : Pass) (f : Failure) (now at late : Instant) (d : Delivery)
    → IsOpen o now d
    → now ≤ at
    → ltb now d.next_attempt_at ≡ false
    → IsOpen o (at + late) (failed_row o p f at (claimed o p now d))
      × ((failed_row o p f at (claimed o p now d)).attempts ≡ d.attempts + 1)
      × ((failed_row o p f at (claimed o p now d)).max_attempts ≡ d.max_attempts)
unfolding failed_row claimed record_failed_run
failed_row-IsOpen o p f now at late d ready after due =
    let (fresh, kept, free, near) = ready in
    let short = (backoff-bounds o (d.attempts + 1) (d.attempts + 1) (omega arith)).0 in
    elim (Bool-cases (ltb at (now + o.lease_ms))) [
      | inl live ↦
          rw (==-refl p.token, record_failed_run, failed_row)
            (rw live (rw fresh (rw kept (((fresh, kept, refl, omega (arith, short)), refl, refl)))))
      | inr lapsed ↦
          rw (==-refl p.token, record_failed_run, failed_row)
            (rw lapsed
              ((fresh, kept, ground (arith, lapsed), ground (arith, due, after)), refl, refl))
    ]

module _ (o : DeliveryOptions) (p : Pass) (calm : IsCalm p) (n : ℕ)
    (next : Loop → Option Delivery → Handled)
    (rest : (l : Loop) (d : Delivery)
      → l.admitted ≡ true
      → IsOpen o l.clock d
      → passes_left l.clock d ≤ n
      → Ends (l.works + (d.max_attempts - d.attempts)) (next l (some d))) where
  run_work-Ends :
      (l : Loop) (d : Delivery)
      → l.admitted ≡ true
      → IsOpen o l.clock d
      → ltb l.clock d.next_attempt_at ≡ false
      → d.attempts < d.max_attempts
      → passes_left l.clock d ≤ n + 1
      → Ends (l.works + (d.max_attempts - d.attempts)) (run_work o p next l (claimed o p l.clock d))
  unfolding run_work claimed failed_row record_failed_run
  run_work-Ends l d adm ready due below enough = run p.work refl
    where
      run :
          (w : Option Failure)
          → p.work ≡ w
          → Ends
              (l.works + (d.max_attempts - d.attempts))
              (run_work o p next l (claimed o p l.clock d))
      run none e = rw (calm.3, run_work) (rw e (refl, omega (arith, below)))
      run (some f) e =
          let at = outcome_at o p l.clock in
          let after : l.clock ≤ at = omega arith in
          let (opened, more, same) =
            failed_row-IsOpen o p f l.clock at p.late_ms d ready after due in
          let q = failed_row o p f at (claimed o p l.clock d) in
          let left : passes_left (at + p.late_ms) q ≤ n =
            ground (arith, more, same, below, due, enough) in
          let onward =
            rest
              (record {
                clock = at + p.late_ms;
                admitted = true;
                infrastructure_failures = p.outcome_outages;
                works = l.works + 1;
              })
              q refl opened left in
          rw (calm.3, run_work)
            (rw e (
              rw (calm.1 (claimed o p l.clock d))
                (onward.0, omega (arith, onward.1, more, same, below))))

  after_poll-Ends :
      (l : Loop) (d : Delivery)
      → l.admitted ≡ true
      → IsOpen o l.clock d
      → passes_left l.clock d ≤ n + 1
      → Ends
          (l.works + (d.max_attempts - d.attempts))
          (after_poll o p next l (poll o l.clock p.token d))
  unfolding after_poll claimed
  after_poll-Ends l d adm ready enough =
      elim (Bool-cases (d.quarantine_required || leb d.max_attempts d.attempts)) [
        | inl spent ↦
            rw (poll_spent o l.clock p.token d ready spent, after_poll) (refl, omega arith)
        | inr going ↦ elim (Bool-cases (ltb l.clock d.next_attempt_at)) [
          | inl early ↦
              subst (λ x. Ends (l.works + (d.max_attempts - d.attempts)) (after_poll o p next l x))
                (sym (poll_early o l.clock p.token d ready going early)) (waited early)
          | inr due ↦
              subst (λ x. Ends (l.works + (d.max_attempts - d.attempts)) (after_poll o p next l x))
                (sym (poll_due o l.clock p.token d ready going due))
                (run_work-Ends l d adm ready due (ground (arith, going)) enough)
        ]
      ]
    where
      waited :
          ltb l.clock d.next_attempt_at ≡ true
          → Ends
              (l.works + (d.max_attempts - d.attempts))
              (next (record l { clock = l.clock + pause o l.clock d + p.late_ms }) (some d))
      waited early =
          let (fresh, kept, free, near) = ready in
          let slept = pause_early o l.clock p.token d ready early in
          let still : IsOpen o (l.clock + pause o l.clock d + p.late_ms) d =
            (fresh, kept, ground (arith, free), omega (arith, near)) in
          rest (record l { clock = l.clock + pause o l.clock d + p.late_ms }) d adm still
            (ground (arith, enough, early, slept))

pub admitted_pass :
    (o : DeliveryOptions) (op : DeliveryOperation) (p : Pass)
    (next : Loop → Option Delivery → Handled) (l : Loop) (row : Option Delivery) (d : Delivery)
    → IsCalm p
    → admitted_row o op p l row ≡ some d
    → pass o op p next l row
      ≡ after_poll o p next (record l { admitted = true }) (poll o l.clock p.token d)
unfolding pass
admitted_pass o op p next l row d calm h =
    let (before, meanwhile, going, working_on, up) = calm in rw (h, pass) (rw going (rw up refl))

settles :
    (o : DeliveryOptions) (op : DeliveryOperation) (ps : List Pass)
    → AreCalm ps
    → (l : Loop) (d : Delivery) → l.admitted ≡ true
    → IsOpen o l.clock d
    → passes_left l.clock d ≤ length ps
    → Ends (l.works + (d.max_attempts - d.attempts)) (handle_from o op ps l (some d))
unfolding handle_from admitted_row
settles o op [] calm l d adm ready enough = ground (arith, enough)
settles o op (p ∷ ps) (calm, others) l d adm ready enough =
    let row : admitted_row o op p l (some d) ≡ some d = rw (adm, admitted_row) (calm.0 (some d)) in
    rw (admitted_pass o op p (handle_from o op ps) l (some d) d calm row) (
      after_poll-Ends o p calm (length ps) (handle_from o op ps) (settles o op ps others)
        (record l { admitted = true }) d refl ready (omega (arith, enough)))

-- A message that is new is settled: with no other consumer, no shutdown and no failure of the
-- database before the work, twice as many passes as there are attempts, and one more, are enough
-- for the loop to acknowledge it, whatever the work answers, however long it takes and however
-- often its outcome cannot be recorded at first; the work runs at most as often as there are
-- attempts.
pub handle-acknowledges :
    (o : DeliveryOptions) (op : DeliveryOperation) (ps : List Pass) (now : Instant)
    → AreCalm ps
    → 2 * o.max_attempts + 1 ≤ length ps
    → ((handle o op ps now none).ending ≡ acked)
      × ((handle o op ps now none).works ≤ o.max_attempts)
unfolding handle handle_from admitted_row admit
handle-acknowledges o op [] now calm enough = ground (arith, enough)
handle-acknowledges o op (p ∷ ps) now (calm, others) enough =
    let l : Loop = record {
      clock = now;
      admitted = false;
      infrastructure_failures = 0;
      works = 0;
    } in
    let d = admit o op now none in
    let row : admitted_row o op p l none ≡ some d =
      rw (calm.4, admitted_row) (rw (calm.0 none) refl) in
    let ready : IsOpen o now d = (refl, refl, refl, omega arith) in
    let ends =
      after_poll-Ends o p calm (length ps) (handle_from o op ps) (settles o op ps others)
        (record l { admitted = true }) d refl ready (ground (arith, enough)) in
    rw (admitted_pass o op p (handle_from o op ps) l none d calm row)
      (ends.0, omega (arith, ends.1))
