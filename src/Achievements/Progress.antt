-- ===== src/Achievements/Progress.antt =====
-- Unlocking achievements: the progress helper (src/achievements/helpers/achievement-progress.helper.ts)
-- and the job processor (src/achievements/processors/achievements.processor.ts).
-- A sum's value is in hundredths; `value_of` stands for `Number(event.metadata?.[valueField] ?? 0)`.
use cinema_loyalty_service.Prelude.{
  ℕ, ◌+◌, ◌/◌, Bool, true, false, ◌&&◌, not, Option, none, some, if◌then◌else◌, List, [], ◌∷◌, ◌++◌,
  ℤ, pos, ◌+ℤ◌, ltb, ltb_ℤ, leb_ℤ, is_some, is_int32, find_first, update_where, ◌==◌, Text,
}
use cinema_loyalty_service.Store.Types.{
  Db, Uuid, AchievementAction, UserAchievement, ProcessedEvent, earn_achievement,
}
use cinema_loyalty_service.Store.Tx.{
  Tx, pure, modify, throw_if, ◌>>=◌, ◌>>◌, done, thrown, plain_error, known_request, p2020,
  key_used_for_point_command, Attempt, Answer, returned, raised, with_transaction_retry,
}
use cinema_loyalty_service.Store.Profiles.{
  lock_loyalty_profile, update_profile, find_profile_or_throw, create_transaction,
}
use cinema_loyalty_service.Calculator.{Clock}
use cinema_loyalty_service.Points.Command.{find_processed}
use cinema_loyalty_service.Achievements.Intents.{ActionEvent, action_eq}

pub data Operator : Type 0 where
  gte_operator sum_operator : Operator

-- AchievementCriteria; `value_field` is optional
pub record Criteria : Type 0 where
  pub field : AchievementAction
  pub operator : Operator
  pub target : ℤ
  pub value_field : Option Text

pub record Achievement : Type 0 where
  pub id : Uuid
  pub is_active : Bool
  pub criteria : Option Criteria
  pub reward_points : ℤ

pub record Increment : Type 0 where
  pub increment_by : ℤ
  pub should_process : Bool

-- DEFAULT_SUM_VALUE_FIELD, "amount"
abbrev pub default_sum_value_field : Text
default_sum_value_field = b'a' ∷ b'm' ∷ b'o' ∷ b'u' ∷ b'n' ∷ b't' ∷ []

abbrev pub field_or_default : Option Text → Text
field_or_default none = default_sum_value_field
field_or_default (some t) = t

-- `Math.round` of a positive number of hundredths
abbrev pub round_hundredths : ℕ → ℕ
round_hundredths n = (n + 50) / 100

unfoldable pub calculate_achievement_progress_increment :
    (Text → ActionEvent → ℕ) → Criteria → ActionEvent → Increment
calculate_achievement_progress_increment value_of c e = elim c.operator [
  | gte_operator ↦ record { increment_by = pos 1; should_process = true }
  | sum_operator ↦
      let value = value_of (field_or_default c.value_field) e in
      if ltb 0 value
      then record { increment_by = pos (round_hundredths value); should_process = true }
      else record { increment_by = pos 0; should_process = false }
]

abbrev pub is_progress_of : Uuid → Uuid → UserAchievement → Bool
is_progress_of u a p = p.user_id == u && p.achievement_id == a

-- the row after the increment, created if it is missing
unfoldable pub progressed : ℕ → Uuid → Uuid → ℤ → ℤ → Option UserAchievement → UserAchievement
progressed n u a target by none = record {
  id = n;
  user_id = u;
  achievement_id = a;
  current = by;
  target = target;
  is_unlocked = false;
  unlocked_at = none;
}
progressed n u a target by (some p) = record p { current = p.current +ℤ by; target = target }

-- whether the row now unlocks
abbrev pub is_reached : UserAchievement → Bool
is_reached p = leb_ℤ p.target p.current

abbrev pub unlocked : Clock → UserAchievement → UserAchievement
unlocked clock p =
    if is_reached p then record p { is_unlocked = true; unlocked_at = some clock.now } else p

-- INSERT or UPDATE of the progress row, refused if the counter does not fit an `integer`
unfoldable pub write_progress : UserAchievement → Option UserAchievement → Tx (Unit {0})
write_progress q old = do
  throw_if (not (is_int32 q.current)) (known_request p2020 none)
  modify (λ d. record d {
    user_achievements =
        if is_some old
        then update_where (λ r. r.id == q.id) (λ r. q) d.user_achievements
        else q ∷ d.user_achievements;
    next_id = d.next_id + 1;
  })

-- the reward of an unlocked achievement
unfoldable pub book_reward : Uuid → ℤ → Tx (Unit {0})
book_reward u reward = do
  p ← find_profile_or_throw u
  update_profile
      (record p { balance = p.balance +ℤ reward; lifetime_points = p.lifetime_points +ℤ reward })
  create_transaction u earn_achievement reward (p.balance +ℤ reward) none
  pure tt

abbrev pub is_already : Option UserAchievement → Bool
is_already none = false
is_already (some p) = p.is_unlocked

-- the progress, and the reward if it unlocks
unfoldable pub apply_progress :
    Uuid → Achievement → UserAchievement → Option UserAchievement → Tx (Unit {0})
unfolding write_progress
apply_progress u a q old = do
  write_progress q old
  (if q.is_unlocked && ltb_ℤ (pos 0) a.reward_points
      then book_reward u a.reward_points
      else pure tt)

-- what follows the dedupe row: progress, unlocking and reward
unfoldable pub advance : Clock → Uuid → Achievement → ℤ → ℤ → Tx (Unit {0})
advance clock u a target by db =
    let old = find_first (is_progress_of u a.id) db.user_achievements in
    let q = unlocked clock (progressed db.next_id u a.id target by old) in
    if is_already old then done tt db else apply_progress u a q old db

abbrev pub event_row : Text → ProcessedEvent
event_row t = record {
  event_id = t;
  operation = none;
  user_id = none;
  order_id = none;
  amount = none;
  balance_after = none;
}

-- a taken key: an earlier run of this event, or a point command
unfoldable pub advance_once :
    Clock → Text → Uuid → Achievement → ℤ → ℤ → Option ProcessedEvent → Tx (Unit {0})
advance_once clock key u a target by (some e) db =
    if is_some e.operation then thrown (plain_error key_used_for_point_command) else done tt db
advance_once clock key u a target by none db =
    (modify (λ d. record d { processed = event_row key ∷ d.processed })
        >> advance clock u a target by)
      db

-- the callback of the transaction; `key` is `${eventId}_${achievement.id}`
unfoldable pub achievement_body : Clock → Text → Uuid → Achievement → ℤ → ℤ → Tx (Unit {0})
achievement_body clock key u a target by = do
  lock_loyalty_profile u true
  (λ db. advance_once clock key u a target by (find_processed key db.processed) db)

-- `processAchievement`: invalid criteria and empty increments are skipped
unfoldable pub process_achievement :
    (Text → ActionEvent → ℕ)
    → (Uuid → Text)
    → (ℕ → Attempt)
    → Clock
    → ActionEvent
    → Achievement
    → Db
    → Answer (Unit {0}) × Db
unfolding achievement_body calculate_achievement_progress_increment
process_achievement value_of uuid_text env clock e a db = elim a.criteria [
  | none ↦ (returned tt, db)
  | some c ↦
      let i = calculate_achievement_progress_increment value_of c e in
      if not i.should_process
      then (returned tt, db)
      else with_transaction_retry env
          (λ raced.
            achievement_body clock (e.event_id ++ (b'_' ∷ uuid_text a.id)) e.user_id a c.target
              i.increment_by)
          db
]

abbrev pub matches_action : ActionEvent → Achievement → Bool
matches_action e a =
    a.is_active && (elim a.criteria [ none ↦ false | some c ↦ action_eq c.field e.action_type ])

-- the loop of `process`: every achievement is tried, and the failures are counted
unfoldable pub process_all :
    (Achievement → Db → Answer (Unit {0}) × Db) → List Achievement → ℕ → Db → ℕ × Db
process_all work [] failures db = (failures, db)
process_all work (a ∷ as_rest) failures db =
    let (r, db') = work a db in
    process_all work as_rest (elim r [ returned _ ↦ failures | raised e ↦ failures + 1 ]) db'
