-- ===== src/Achievements/Jobs.antt =====
-- The jobs on achievements: `dispatchEvent` (src/achievements/achievements.service.ts) and `process`
-- (src/achievements/processors/achievements.processor.ts). The queue keeps one job under one id, as
-- BullMQ documents: `add` with the id of a job that it has adds none.
use cinema_loyalty_service.Prelude.{
  Text, trim, ℕ, Bool, not, List, ◌∷◌, ◌==◌, if◌then◌else◌, is_some, select, find_first,
}
use cinema_loyalty_service.Achievements.Intents.{ActionEvent, valid_event_id}
use cinema_loyalty_service.Achievements.Progress.{
  Achievement, process_achievement, matches_action, process_all,
}
use cinema_loyalty_service.Calculator.{Clock}
use cinema_loyalty_service.Store.Tx.{
  invalid_action_event, achievement_failures, queue_unavailable, plain_error, Attempt, Answer,
  returned, raised,
}
use cinema_loyalty_service.Store.Types.{Uuid, Db}

-- a job: its id and its payload
pub record Job : Type 0 where
  pub job_id : ℕ
  pub payload : ActionEvent

-- the event that the schema gives back
abbrev pub validated : ActionEvent → ActionEvent
validated e = record e { event_id = trim e.event_id }

abbrev is_job : ℕ → Job → Bool
is_job n j = j.job_id == n

-- `queue.add` with an id
unfoldable pub add_job : Job → List Job → List Job
add_job j queue = if is_some (find_first (is_job j.job_id) queue) then queue else j ∷ queue

-- `ready` tells that the client of the queue is ready
unfoldable pub dispatch_event : Bool → ActionEvent → ℕ → List Job → Answer (Unit {0}) × List Job
unfolding add_job
dispatch_event ready e n queue =
    if not (valid_event_id e.event_id)
    then (raised (plain_error invalid_action_event), queue)
    else if not ready
    then (raised (plain_error queue_unavailable), queue)
    else (returned tt, add_job (record { job_id = n; payload = validated e }) queue)

-- `process` of one job; an invalid payload and any failure make the job fail
unfoldable pub process :
    (Text → ActionEvent → ℕ)
    → (Uuid → Text)
    → (Uuid → ℕ → Attempt)
    → Clock
    → List Achievement
    → ActionEvent
    → Db
    → Answer (Unit {0}) × Db
process value_of uuid_text env clock catalogue e db =
    if not (valid_event_id e.event_id)
    then (raised (plain_error invalid_action_event), db)
    else let (failures, db') =
        process_all (λ a. process_achievement value_of uuid_text (env a.id) clock (validated e) a)
          (select (matches_action (validated e)) catalogue) 0 db in
      (if failures == 0 then returned tt else raised (plain_error achievement_failures), db')
