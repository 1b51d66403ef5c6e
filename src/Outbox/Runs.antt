-- ===== src/Outbox/Runs.antt =====
-- The waves of the publisher.
use cinema_loyalty_service.Prelude.{
  ◌+◌, min, length, ℕ, zero, suc, ◌-◌, ◌≤◌, ◌<◌, ◌≡◌, refl, inl, inr, true, List, [], ◌∷◌, arith,
  ltb, Bool-cases,
}
use cinema_loyalty_service.Outbox.{claim_events, outbox_batch_size}
use cinema_loyalty_service.Outbox.Lease.{
  recovering, failing, AreLeased, TableStep-AreLeased, finishing, claiming, claim_events-length,
}
use cinema_loyalty_service.Outbox.Waves.{
  waves_at_most, publish_pending_events, WaveResult, Wave, record_result, record_results,
  publish_waves,
}
use cinema_loyalty_service.Store.Types.{Instant, OutboxEvent}

module _ (env : ℕ → Wave) (concurrency lease_ms : ℕ)
    (others : (n : ℕ) (rows : List OutboxEvent)
      → AreLeased rows
      → AreLeased ((env n).before rows)) where
  record_results-AreLeased :
      (rs : List WaveResult) (rows : List OutboxEvent)
      → AreLeased rows
      → AreLeased (record_results rs rows)
  unfolding record_results record_result
  record_results-AreLeased [] rows h = h
  record_results-AreLeased (r ∷ rs) rows h = elim (Bool-cases r.recorded) [
    | inl taken ↦ rw taken (
        record_results-AreLeased rs _
          (TableStep-AreLeased rows _ (finishing r.at r.outcome r.event _) h))
    | inr lost ↦ rw lost (record_results-AreLeased rs rows h)
  ]

  publish_waves-ends :
      (fuel count : ℕ) (rows : List OutboxEvent)
      → AreLeased rows
      → count ≤ outbox_batch_size
      → outbox_batch_size - count < fuel
      → ((publish_waves fuel env concurrency lease_ms count rows).ended ≡ true)
        × ((publish_waves fuel env concurrency lease_ms count rows).total ≤ outbox_batch_size)
        × AreLeased (publish_waves fuel env concurrency lease_ms count rows).rows
  unfolding publish_waves
  publish_waves-ends zero count rows h few enough = ground (arith, enough)
  publish_waves-ends (suc fuel) count rows h few enough =
      elim (Bool-cases (ltb count outbox_batch_size)) [
        | inr full ↦ rw (full, publish_waves) (refl, few, h)
        | inl room ↦ wave room (λ n rs k few' less. publish_waves-ends fuel n rs k few' less) _ refl
      ]
    where
      w : Wave
      w = env fuel

      limit : ℕ
      limit = min concurrency (outbox_batch_size - count)

      leased : AreLeased (claim_events w.now lease_ms w.token limit (w.before rows)).1
      leased =
          TableStep-AreLeased (w.before rows) _ (claiming w.now lease_ms w.token limit)
            (others fuel rows h)

      wave :
          ltb count outbox_batch_size ≡ true
          → ((n : ℕ) (rs : List OutboxEvent)
              → AreLeased rs
              → n ≤ outbox_batch_size
              → outbox_batch_size - n < fuel
              → ((publish_waves fuel env concurrency lease_ms n rs).ended ≡ true)
                × ((publish_waves fuel env concurrency lease_ms n rs).total ≤ outbox_batch_size)
                × AreLeased (publish_waves fuel env concurrency lease_ms n rs).rows)
          → (l : List OutboxEvent)
          → (claim_events w.now lease_ms w.token limit (w.before rows)).0 ≡ l
          → ((publish_waves (suc fuel) env concurrency lease_ms count rows).ended ≡ true)
            × ((publish_waves (suc fuel) env concurrency lease_ms count rows).total
                ≤ outbox_batch_size)
            × AreLeased (publish_waves (suc fuel) env concurrency lease_ms count rows).rows
      wave room rest [] q = rw (room, publish_waves) (rw q (refl, few, leased))
      wave room rest (e ∷ es) q =
          let short = (claim_events-length w.now lease_ms w.token limit (w.before rows)).0 in
          let few_more : length (e ∷ es) ≤ limit = rw q at short in
          rw (room, publish_waves)
            (rw q (
              rest (count + length (e ∷ es)) _
                (record_results-AreLeased (w.results (e ∷ es)) _ leased)
                (omega (arith, few_more, few)) (omega (arith, few_more, enough, few))))

  -- A run of the publisher ends by itself, has claimed at most 50 events, and leaves every row with
  -- a lease exactly while it is in processing and within its attempts: whatever the publications
  -- answer, in whichever order, however many results the database does not take, and whatever other
  -- publishers do between the waves, if they keep the leases, too.
  pub publish_pending_events-ends :
      (recover_at failed_at : Instant) (rows : List OutboxEvent)
      → AreLeased rows
      → ((publish_pending_events env concurrency lease_ms recover_at failed_at rows).ended ≡ true)
        × ((publish_pending_events env concurrency lease_ms recover_at failed_at rows).total
            ≤ outbox_batch_size)
        × AreLeased (publish_pending_events env concurrency lease_ms recover_at failed_at rows).rows
  unfolding publish_pending_events
  publish_pending_events-ends recover_at failed_at rows h =
      let first = TableStep-AreLeased rows _ (recovering recover_at) h in
      let second = TableStep-AreLeased _ _ (failing failed_at) first in
      publish_waves-ends waves_at_most 0 _ second (omega arith) (omega arith)
