-- ===== src/Achievements/Publisher.antt =====
-- AchievementIntentPublisher (src/achievements/achievement-intent-publisher.service.ts).
use cinema_loyalty_service.Prelude.{
  ℕ, ◌+◌, Bool, ◌&&◌, not, some, if◌then◌else◌, List, [], ◌∷◌, leb, is_some, ◌==◌, take, select,
  update_where,
}
use cinema_loyalty_service.Store.Types.{DispatchIntent, Instant}

abbrev pub retry_delay_ms : ℕ
retry_delay_ms = 5000

abbrev pub intent_batch : ℕ
intent_batch = 50

-- `where: { deliveredAt: null, nextAttemptAt: { lte: now } }`
unfoldable pub is_due_intent : Instant → DispatchIntent → Bool
is_due_intent now i = not (is_some i.delivered_at) && leb i.next_attempt_at now

-- `where: { id, deliveredAt: null }`
unfoldable pub is_undelivered : ℕ → DispatchIntent → Bool
is_undelivered n i = i.id == n && not (is_some i.delivered_at)

abbrev pub delivered : Instant → DispatchIntent → DispatchIntent
delivered now i = record i { delivered_at = some now; attempts = i.attempts + 1 }

abbrev pub postponed : Instant → DispatchIntent → DispatchIntent
postponed now i = record i { attempts = i.attempts + 1; next_attempt_at = now + retry_delay_ms }

-- `publish`: the dispatch ended well (`sent`), or in an error or a timeout
unfoldable pub publish : Instant → Bool → ℕ → List DispatchIntent → List DispatchIntent
unfolding is_undelivered
publish now sent n rows =
    if sent
    then update_where (is_undelivered n) (delivered now) rows
    else update_where (is_undelivered n) (postponed now) rows

-- the results of a wave, each with the instant and the outcome of its dispatch
unfoldable pub publish_all : List (ℕ × Instant × Bool) → List DispatchIntent → List DispatchIntent
unfolding publish
publish_all [] rows = rows
publish_all ((n, now, sent) ∷ rest) rows = publish_all rest (publish now sent n rows)

unfoldable pub due_intents : Instant → List DispatchIntent → List DispatchIntent
unfolding is_due_intent
due_intents now rows = take intent_batch (select (is_due_intent now) rows)
