-- ===== src/Achievements/Replay.antt =====
-- Achievement jobs that run twice.
use cinema_loyalty_service.Prelude.{
  text_eq_refl, text_eq, none, List, ◌∷◌, Text, ℤ, pos, ltb_ℤ, ◌+ℤ◌, is_int32, ◌≡◌, refl, inl, inr,
  true, false, ◌&&◌, Option, some, arith, Bool-cases, is_some, find_first,
}
use cinema_loyalty_service.Achievements.Progress.{
  event_row, advance_once, achievement_body, Achievement, is_progress_of, progressed, unlocked,
  book_reward, is_already, apply_progress, advance,
}
use cinema_loyalty_service.Calculator.{Clock}
use cinema_loyalty_service.Points.Command.{find_processed}
use cinema_loyalty_service.Store.Profiles.{
  ensure_profile, lock_loyalty_profile, find_profile, find_profile-replace_profile,
  create_transaction, update_profile-Keeps,
}
use cinema_loyalty_service.Store.Rules.{find_profile_or_throw-Keeps, Keeps-mono}
use cinema_loyalty_service.Store.Tx.{done, Keeps}
use cinema_loyalty_service.Store.Types.{Uuid, Profile, ProcessedEvent, UserAchievement, Db}

-- a key was processed for a user, whose profile is there
pub record HasRun (key : Text) (u : Uuid) (db : Db) : Type 0 where
  pub row :
      (e : ProcessedEvent) × (find_processed key db.processed ≡ some e)
      × (is_some e.operation ≡ false)
  pub profile : is_some (find_profile u db.profiles) ≡ true

-- The rows of processed_events are the same, and no profile is gone.
record Extends (db d : Db) : Type 0 where
  processed : d.processed ≡ db.processed
  profiles :
      (v : Uuid)
      → is_some (find_profile v db.profiles) ≡ true
      → is_some (find_profile v d.profiles) ≡ true

book_reward-Extends :
    (u : Uuid) (reward : ℤ) (db : Db) → Keeps (Extends db) (book_reward u reward db)
unfolding book_reward create_transaction
book_reward-Extends u reward db = find_profile_or_throw-Keeps (Extends db) u _ db (λ p found.
    let q : Profile = record p {
      balance = p.balance +ℤ reward;
      lifetime_points = p.lifetime_points +ℤ reward;
    } in
    update_profile-Keeps (Extends db) q _ db (λ ok. record {
      processed = refl;
      profiles = λ v h. ground (arith, find_profile-replace_profile v q db.profiles);
    }))

apply_progress-Extends :
    (u : Uuid) (a : Achievement) (q : UserAchievement) (old : Option UserAchievement) (db : Db)
    → Keeps (Extends db) (apply_progress u a q old db)
unfolding apply_progress
apply_progress-Extends u a q old db = elim (Bool-cases (is_int32 q.current)) [
  | inr large ↦ rw large tt
  | inl small ↦ elim (Bool-cases (q.is_unlocked && ltb_ℤ (pos 0) a.reward_points)) [
    | inr nothing ↦ rw (small, nothing) (record { processed = refl; profiles = λ v h. h })
    | inl reward ↦
        rw (small, reward)
          (Keeps-mono _ (Extends db) _
            (λ d x. record { processed = x.processed; profiles = x.profiles })
            (book_reward-Extends u a.reward_points _))
  ]
]

advance-Extends :
    (clock : Clock) (u : Uuid) (a : Achievement) (target by : ℤ) (db : Db)
    → Keeps (Extends db) (advance clock u a target by db)
unfolding advance
advance-Extends clock u a target by db =
    let old = find_first (is_progress_of u a.id) db.user_achievements in
    let q = unlocked clock (progressed db.next_id u a.id target by old) in
    elim (Bool-cases (is_already old)) [
      | inl before ↦ rw before (record { processed = refl; profiles = λ v h. h })
      | inr first ↦ rw first (apply_progress-Extends u a q old db)
    ]

-- A row that is found stays found behind the row of an event.
event_row-found :
    (key k : Text) (rows : List ProcessedEvent) (e : ProcessedEvent)
    → find_processed k rows ≡ some e
    → is_some e.operation ≡ false
    → (x : ProcessedEvent) × (find_processed k (event_row key ∷ rows) ≡ some x)
      × (is_some x.operation ≡ false)
unfolding find_processed
event_row-found key k rows e found event = elim (Bool-cases (text_eq key k)) [
  | inl same ↦ (event_row key, rw same refl, refl)
  | inr other ↦ (e, rw other found, event)
]

event_row-head :
    (key : Text) (rows : List ProcessedEvent)
    → find_processed key (event_row key ∷ rows) ≡ some (event_row key)
unfolding find_processed
event_row-head key rows = rw (text_eq_refl key) refl

ensure_profile_inv :
    (u v : Uuid) (db : Db)
    → is_some (find_profile v db.profiles) ≡ true
    → is_some (find_profile v (ensure_profile u db).profiles) ≡ true
unfolding find_profile
ensure_profile_inv u v db h = ground arith

ensure_profile-there :
    (u : Uuid) (db : Db) → is_some (find_profile u (ensure_profile u db).profiles) ≡ true
unfolding find_profile
ensure_profile-there u db = ground arith

Extends-HasRun : (k : Text) (v : Uuid) (db d : Db) → Extends db d → HasRun k v db → HasRun k v d
Extends-HasRun k v db d x h =
    let (e, found, event) = h.row in
    record { row = (e, rw x.processed found, event); profile = x.profiles v h.profile }

module _ (clock : Clock) (key : Text) (u : Uuid) (a : Achievement) (target by : ℤ) where
  pub achievement_body-HasRun :
      (db : Db) → Keeps (HasRun key u) (achievement_body clock key u a target by db)
  unfolding achievement_body lock_loyalty_profile advance_once
  achievement_body-HasRun db = cases (find_processed key db.processed) refl
    where
      marked : Db
      marked = record (ensure_profile u db) { processed = event_row key ∷ db.processed }

      cases :
          (o : Option ProcessedEvent)
          → find_processed key db.processed ≡ o
          → Keeps (HasRun key u) (advance_once clock key u a target by o (ensure_profile u db))
      cases none missing =
          Keeps-mono _ (HasRun key u) _
            (λ d x. Extends-HasRun key u marked d x (record {
              row = (event_row key, event_row-head key db.processed, refl);
              profile = ensure_profile-there u db;
            }))
            (advance-Extends clock u a target by marked)
      cases (some e) found = elim (Bool-cases (is_some e.operation)) [
        | inl command ↦ rw command tt
        | inr event ↦
            rw event (record { row = (e, found, event); profile = ensure_profile-there u db })
      ]

  -- what was processed before stays processed
  pub achievement_body_inv :
      (k : Text) (v : Uuid) (db : Db)
      → HasRun k v db
      → Keeps (HasRun k v) (achievement_body clock key u a target by db)
  unfolding achievement_body lock_loyalty_profile advance_once
  achievement_body_inv k v db h = cases (find_processed key db.processed)
    where
      marked : Db
      marked = record (ensure_profile u db) { processed = event_row key ∷ db.processed }

      ready : HasRun k v (ensure_profile u db)
      ready = record { row = h.row; profile = ensure_profile_inv u v db h.profile }

      cases :
          (o : Option ProcessedEvent)
          → Keeps (HasRun k v) (advance_once clock key u a target by o (ensure_profile u db))
      cases none =
          Keeps-mono _ (HasRun k v) _
            (λ d x. Extends-HasRun k v marked d x (record {
              row = event_row-found key k db.processed h.row.0 h.row.1 h.row.2;
              profile = ready.profile;
            }))
            (advance-Extends clock u a target by marked)
      cases (some e) = elim (Bool-cases (is_some e.operation)) [
        | inl command ↦ rw command tt
        | inr event ↦ rw event ready
      ]

  -- a second run changes nothing
  pub achievement_body-again :
      (db : Db) → HasRun key u db → achievement_body clock key u a target by db ≡ done tt db
  unfolding achievement_body lock_loyalty_profile advance_once
  achievement_body-again db h = let (e, found, event) = h.row in rw (h.profile, found, event) refl
