-- ===== src/Achievements/Conservation.antt =====
-- Achievement rewards and the ledger.
use cinema_loyalty_service.Prelude.{
  ◌≡◌, refl, true, some, none, Option, arith, is_some, ◌≤ℤ◌, ltb_ℤ, pos, ℤ, Text, is_int32,
  Bool-cases, inl, inr, ◌&&◌, int_laws, ◌+ℤ◌, find_first,
}
use cinema_loyalty_service.Store.Types.{Db, Uuid, Profile, UserAchievement, ProcessedEvent}
use cinema_loyalty_service.Store.Tx.{Keeps}
use cinema_loyalty_service.Store.Rules.{find_profile_or_throw-Keeps}
use cinema_loyalty_service.Store.Profiles.{
  ensure_profile, lock_loyalty_profile, update_profile-Keeps, create_transaction,
}
use cinema_loyalty_service.Ledger.Steps.{
  LedgerStep, LedgerStep_same, replace_profile-posted, ensured-LedgerStep,
}
use cinema_loyalty_service.Calculator.{Clock}
use cinema_loyalty_service.Points.Command.{find_processed}
use cinema_loyalty_service.Achievements.Progress.{
  Achievement, is_progress_of, progressed, unlocked, is_already, apply_progress, book_reward,
  advance, advance_once, achievement_body,
}

book_reward-LedgerStep :
    (u : Uuid) (reward : ℤ) (db : Db)
    → ltb_ℤ (pos 0) reward ≡ true
    → Keeps (LedgerStep db) (book_reward u reward db)
unfolding book_reward create_transaction
book_reward-LedgerStep u reward db positive =
    find_profile_or_throw-Keeps (LedgerStep db) u _ db (λ p found.
      let q : Profile = record p {
        balance = p.balance +ℤ reward;
        lifetime_points = p.lifetime_points +ℤ reward;
      } in
      update_profile-Keeps (LedgerStep db) q _ db (λ ok.
        replace_profile-posted u p q _ _ _ found refl refl refl
          (λ h. gains p.balance reward positive h)))
  where
    gains : (b r : ℤ) → ltb_ℤ (pos 0) r ≡ true → pos 0 ≤ℤ b → pos 0 ≤ℤ b +ℤ r
    gains b r more h = let m : pos 0 ≤ℤ r = ground arith in omega int_laws

apply_progress-LedgerStep :
    (u : Uuid) (a : Achievement) (q : UserAchievement) (old : Option UserAchievement) (db : Db)
    → Keeps (LedgerStep db) (apply_progress u a q old db)
unfolding apply_progress
apply_progress-LedgerStep u a q old db = elim (Bool-cases (is_int32 q.current)) [
  | inr large ↦ rw large tt
  | inl small ↦ elim (Bool-cases (q.is_unlocked && ltb_ℤ (pos 0) a.reward_points)) [
    | inr nothing ↦ rw (small, nothing) LedgerStep_same
    | inl reward ↦ rw (small, reward) (book_reward-LedgerStep u a.reward_points _ (ground arith))
  ]
]

advance-LedgerStep :
    (clock : Clock) (u : Uuid) (a : Achievement) (target by : ℤ) (db : Db)
    → Keeps (LedgerStep db) (advance clock u a target by db)
unfolding advance
advance-LedgerStep clock u a target by db =
    let old = find_first (is_progress_of u a.id) db.user_achievements in
    let q = unlocked clock (progressed db.next_id u a.id target by old) in
    elim (Bool-cases (is_already old)) [
      | inl before ↦ rw before LedgerStep_same
      | inr first ↦ rw first (apply_progress-LedgerStep u a q old db)
    ]

-- Every run of an achievement's transaction that commits is a step of the ledger.
pub achievement_body-LedgerStep :
    (clock : Clock) (key : Text) (u : Uuid) (a : Achievement) (target by : ℤ) (db : Db)
    → Keeps (LedgerStep db) (achievement_body clock key u a target by db)
unfolding achievement_body lock_loyalty_profile advance_once
achievement_body-LedgerStep clock key u a target by db =
    ensured-LedgerStep u db _ (cases (find_processed key db.processed))
  where
    cases :
        (o : Option ProcessedEvent)
        → Keeps
            (LedgerStep (ensure_profile u db))
            (advance_once clock key u a target by o (ensure_profile u db))
    cases none = advance-LedgerStep clock u a target by _
    cases (some e) = elim (Bool-cases (is_some e.operation)) [
      | inl command ↦ rw command tt
      | inr event ↦ rw event LedgerStep_same
    ]
