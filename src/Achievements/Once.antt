-- ===== src/Achievements/Once.antt =====
-- Events that reach the achievements twice.
use cinema_loyalty_service.Prelude.{
  select, ◌+◌, ◌≤◌, true, List, [], arith, Text, ℕ, ◌≡◌, refl, ◌⊎◌, inl, inr, Bool, false, none,
  some, ◌∷◌, ◌++◌, Bool-cases, Option-cases,
}
use cinema_loyalty_service.Achievements.Intents.{valid_event_id, ActionEvent}
use cinema_loyalty_service.Achievements.Jobs.{validated, process}
use cinema_loyalty_service.Achievements.Progress.{
  matches_action, process_all, Achievement, calculate_achievement_progress_increment,
  achievement_body, process_achievement,
}
use cinema_loyalty_service.Achievements.Replay.{
  HasRun, achievement_body-HasRun, achievement_body_inv, achievement_body-again,
}
use cinema_loyalty_service.Calculator.{Clock}
use cinema_loyalty_service.Store.Retry.{
  IsFair, IsUndisturbed, with_transaction_retry-returned, with_transaction_retry-undisturbed,
}
use cinema_loyalty_service.Store.Tx.{
  Answer-cases, Answer, Attempt, add_processed, returned, with_transaction_retry, retry_from_inv,
}
use cinema_loyalty_service.Store.Types.{Uuid, Db}

-- What the other sessions commit keeps a predicate, also as rows of processed_events that stay after
-- an attempt is undone.
abbrev pub AreKind : (Db → Type 0) → (ℕ → Attempt) → Type 0
AreKind P env = IsFair P env × ((n : ℕ) (db : Db) → P db → P (add_processed (env n).raced db))

module _ (value_of : Text → ActionEvent → ℕ) (uuid_text : Uuid → Text) (e : ActionEvent) where
  abbrev key_of : Achievement → Text
  key_of a = e.event_id ++ (b'_' ∷ uuid_text a.id)

  -- whether the event counts for an achievement
  abbrev counts : Achievement → Bool
  counts a = elim a.criteria [
    | none ↦ false
    | some c ↦ (calculate_achievement_progress_increment value_of c e).should_process
  ]

  abbrev IsSettled : Achievement → Db → Type 0
  IsSettled a db = (counts a ≡ false) ⊎ HasRun (key_of a) e.user_id db

  module _ (env : ℕ → Attempt) (clock : Clock) (a : Achievement) where
    process_achievement-IsSettled :
        (db : Db)
        → (process_achievement value_of uuid_text env clock e a db).0 ≡ returned tt
        → IsSettled a (process_achievement value_of uuid_text env clock e a db).1
    unfolding process_achievement
    process_achievement-IsSettled db won = elim (Option-cases a.criteria) [
      | inl invalid ↦ inl (rw invalid refl)
      | inr (c, valid) ↦
          let i = calculate_achievement_progress_increment value_of c e in
          elim (Bool-cases i.should_process) [
            | inr skipped ↦ inl (rw valid skipped)
            | inl counted ↦ inr (
                rw (valid, process_achievement)
                  (rw counted (
                    with_transaction_retry-returned (HasRun (key_of a) e.user_id)
                      (λ raced.
                        achievement_body clock (key_of a) e.user_id a c.target i.increment_by)
                      env
                      (λ n d.
                        achievement_body-HasRun clock (key_of a) e.user_id a c.target i.increment_by
                          d)
                      db tt (rw (valid, process_achievement, counted) at won))))
          ]
    ]

    process_achievement_inv :
        (k : Text) (v : Uuid) (db : Db)
        → AreKind (HasRun k v) env
        → HasRun k v db
        → HasRun k v (process_achievement value_of uuid_text env clock e a db).1
    unfolding process_achievement with_transaction_retry
    process_achievement_inv k v db kind h = elim (Option-cases a.criteria) [
      | inl invalid ↦ rw (invalid, process_achievement) h
      | inr (c, valid) ↦
          let i = calculate_achievement_progress_increment value_of c e in
          elim (Bool-cases i.should_process) [
            | inr skipped ↦ rw (valid, process_achievement) (rw skipped h)
            | inl counted ↦
                rw (valid, process_achievement)
                  (rw counted (
                    retry_from_inv (HasRun k v) env
                      (λ raced.
                        achievement_body clock (key_of a) e.user_id a c.target i.increment_by)
                      kind.0 kind.1
                      (λ n d kept.
                        achievement_body_inv clock (key_of a) e.user_id a c.target i.increment_by k
                          v d kept)
                      2 db h))
          ]
    ]

    process_achievement-again :
        (db : Db)
        → IsUndisturbed (env 2)
        → IsSettled a db
        → process_achievement value_of uuid_text env clock e a db ≡ (returned tt, db)
    unfolding process_achievement
    process_achievement-again db calm settled = elim (Option-cases a.criteria) [
      | inl invalid ↦ rw (invalid, process_achievement) refl
      | inr (c, valid) ↦
          let i = calculate_achievement_progress_increment value_of c e in
          elim (Bool-cases i.should_process) [
            | inr skipped ↦ rw (valid, process_achievement) (rw skipped refl)
            | inl counted ↦ elim settled [
              | inl not_counted ↦ let yes_counted : counts a ≡ true = rw valid counted in cc
              | inr ran ↦
                  rw (valid, process_achievement)
                    (rw counted (
                      with_transaction_retry-undisturbed _ env db db tt calm (
                        achievement_body-again clock (key_of a) e.user_id a c.target i.increment_by
                          db ran)))
            ]
          ]
    ]

  AreSettled : List Achievement → Db → Type 0
  AreSettled [] db = Unit
  AreSettled (a ∷ rest) db = IsSettled a db × AreSettled rest db

  -- the work on one achievement, each with what surrounds it
  abbrev work_on : (Uuid → ℕ → Attempt) → Clock → Achievement → Db → Answer (Unit {0}) × Db
  work_on env clock a = process_achievement value_of uuid_text (env a.id) clock e a

  module _ (env : Uuid → ℕ → Attempt) (clock : Clock)
      (kind : (n : Uuid) (k : Text) (v : Uuid) → AreKind (HasRun k v) (env n)) where
    process_all_inv :
        (b : Achievement) (rest : List Achievement) (n : ℕ) (db : Db)
        → IsSettled b db
        → IsSettled b (process_all (work_on env clock) rest n db).1
    unfolding process_all
    process_all_inv b [] n db h = h
    process_all_inv b (a ∷ rest) n db (inl skipped) = inl skipped
    process_all_inv b (a ∷ rest) n db (inr ran) = process_all_inv b rest _ _ (
        inr (
          process_achievement_inv (env a.id) clock a (key_of b) e.user_id db
            (kind a.id (key_of b) e.user_id) ran))

    -- failures are only added
    process_all-grows :
        (rest : List Achievement) (n : ℕ) (db : Db)
        → n ≤ (process_all (work_on env clock) rest n db).0
    unfolding process_all
    process_all-grows [] n db = omega arith
    process_all-grows (a ∷ rest) n db =
        let d = (work_on env clock a db).1 in
        elim (Answer-cases (work_on env clock a db).0) [
          | inl (f, q) ↦ rw (q, process_all) (omega (arith, process_all-grows rest (n + 1) d))
          | inr (r, q) ↦ rw (q, process_all) (process_all-grows rest n d)
        ]

    process_all-AreSettled :
        (rest : List Achievement) (db : Db)
        → (process_all (work_on env clock) rest 0 db).0 ≡ 0
        → AreSettled rest (process_all (work_on env clock) rest 0 db).1
    unfolding process_all AreSettled
    process_all-AreSettled [] db none_failed = tt
    process_all-AreSettled (a ∷ rest) db none_failed =
        let d = (work_on env clock a db).1 in
        elim (Answer-cases (work_on env clock a db).0) [
          | inl (f, q) ↦
              let h = rw (q, process_all) at none_failed in
              absurd (omega (arith, process_all-grows rest 1 d, h))
          | inr (r, q) ↦
              rw (q, process_all)
                (
                  process_all_inv a rest 0 d
                      (process_achievement-IsSettled (env a.id) clock a db q),
                  process_all-AreSettled rest d (rw (q, process_all) at none_failed),
                )
        ]

  process_all-again :
      (env : Uuid → ℕ → Attempt) (clock : Clock) (rest : List Achievement) (n : ℕ) (db : Db)
      → ((m : Uuid) → IsUndisturbed (env m 2))
      → AreSettled rest db
      → process_all (work_on env clock) rest n db ≡ (n, db)
  unfolding process_all AreSettled
  process_all-again env clock [] n db calm h = refl
  process_all-again env clock (a ∷ rest) n db calm (h, others) =
      rw (process_achievement-again (env a.id) clock a db (calm a.id) h, process_all)
        (process_all-again env clock rest n db calm others)

module _ (value_of : Text → ActionEvent → ℕ) (uuid_text : Uuid → Text)
    (catalogue : List Achievement) (e : ActionEvent) where
  abbrev matching : List Achievement
  matching = select (matches_action (validated e)) catalogue

  abbrev wave : (Uuid → ℕ → Attempt) → Clock → Db → ℕ × Db
  wave env clock db = process_all (work_on value_of uuid_text (validated e) env clock) matching 0 db

  -- a job that succeeded had a valid payload, and no failure
  process_won :
      (env : Uuid → ℕ → Attempt) (clock : Clock) (db : Db)
      → (process value_of uuid_text env clock catalogue e db).0 ≡ returned tt
      → (valid_event_id e.event_id ≡ true)
        × ((wave env clock db).0 ≡ 0)
        × ((process value_of uuid_text env clock catalogue e db).1 ≡ (wave env clock db).1)
  unfolding process
  process_won env clock db won = elim (Bool-cases (valid_event_id e.event_id)) [
    | inr bad ↦ let lost = rw (bad, process) at won in cc
    | inl good ↦
        let h = rw (good, process) at won in (good, ground (arith, h), rw (good, process) refl)
  ]

  process_clean :
      (env : Uuid → ℕ → Attempt) (clock : Clock) (db d : Db)
      → valid_event_id e.event_id ≡ true
      → wave env clock db ≡ (0, d)
      → process value_of uuid_text env clock catalogue e db ≡ (returned tt, d)
  unfolding process
  process_clean env clock db d good clean = rw (good, process) (rw clean refl)

-- When the job of an event succeeded, running it again changes nothing and succeeds: no progress, no
-- unlocking and no reward is added, at any later instant, if no other session disturbs the second
-- run and none takes back what was processed.
pub process-replay :
    (value_of : Text → ActionEvent → ℕ) (uuid_text : Uuid → Text) (env again : Uuid → ℕ → Attempt)
    (clock later : Clock) (catalogue : List Achievement) (e : ActionEvent) (db : Db)
    → ((n : Uuid) (k : Text) (v : Uuid) → AreKind (HasRun k v) (env n))
    → ((n : Uuid) → IsUndisturbed (again n 2))
    → (process value_of uuid_text env clock catalogue e db).0 ≡ returned tt
    → process value_of uuid_text again later catalogue e
        (process value_of uuid_text env clock catalogue e db).1
      ≡ (returned tt, (process value_of uuid_text env clock catalogue e db).1)
process-replay value_of uuid_text env again clock later catalogue e db kind calm won =
    let (good, clean, left) = process_won value_of uuid_text catalogue e env clock db won in
    let d = (wave value_of uuid_text catalogue e env clock db).1 in
    let settled =
      process_all-AreSettled value_of uuid_text (validated e) env clock kind
        (matching value_of uuid_text catalogue e) db clean in
    rw left (
      process_clean value_of uuid_text catalogue e again later d d good (
        process_all-again value_of uuid_text (validated e) again later
          (matching value_of uuid_text catalogue e) 0 d calm settled))
