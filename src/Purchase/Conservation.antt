-- ===== src/Purchase/Conservation.antt =====
-- Purchases keep the ledger.
use cinema_loyalty_service.Prelude.{
  ℕ, ◌≡◌, refl, true, false, some, none, pos, ◌+ℤ◌, int_laws, Bool-cases, inl, inr, ltb, Option,
  is_some, ◌∷◌, Text, arith,
}
use cinema_loyalty_service.Achievements.Intents.{save_dispatch_intents, add_intents_apart}
use cinema_loyalty_service.Calculator.{Clock}
use cinema_loyalty_service.Ledger.Steps.{
  LedgerStep, LedgerStep_same, ensured-LedgerStep, replace_profile-posted, replace_profile-unposted,
}
use cinema_loyalty_service.Points.Command.{find_processed}
use cinema_loyalty_service.Purchase.{
  record_purchase, plain_row, after_dedupe, TicketPurchased, points_earned_for, rewarded,
  purchase_events, assert_rewards, book_earning, purchase_from, purchase_body,
}
use cinema_loyalty_service.Store.Profiles.{
  record_tier_change, create_transaction, tier_noted, find_profile, ensure_profile,
  lock_loyalty_profile, update_profile-Keeps,
}
use cinema_loyalty_service.Store.Rules.{find_profile_or_throw-Keeps}
use cinema_loyalty_service.Store.Tx.{Keeps, Outcome, thrown, done, continue-Keeps}
use cinema_loyalty_service.Store.Types.{Db, Uuid, Profile, ProcessedEvent}

rewarded_row :
    (clock : Clock) (p : Profile) (earned : ℕ)
    → ((rewarded clock p earned).user_id ≡ p.user_id)
      × (ltb 0 earned ≡ true → (rewarded clock p earned).balance ≡ p.balance +ℤ pos earned)
      × (ltb 0 earned ≡ false → (rewarded clock p earned).balance ≡ p.balance)
unfolding rewarded
rewarded_row clock p earned = ground arith

assert_rewards_reads :
    (p : Profile) (earned : ℕ) (r : Unit {0}) (db d : Db)
    → assert_rewards p earned db ≡ done r d
    → d ≡ db
unfolding assert_rewards
assert_rewards_reads p earned r db d e = ground arith

record_purchase_apart :
    (clock : Clock) (msg : TicketPurchased) (p q : Profile) (used : ℕ) (r : Unit {0}) (db d : Db)
    → record_purchase clock msg p q used db ≡ done r d
    → (d.profiles ≡ db.profiles) × (d.transactions ≡ db.transactions)
unfolding record_purchase record_tier_change save_dispatch_intents
record_purchase_apart clock msg p q used r db d e =
    let marked : Db = record db { processed = plain_row msg.event_id ∷ db.processed } in
    let noted : Db = tier_noted msg.user_id p.tier q.tier clock.now marked in
    ground (arith, add_intents_apart clock.now (purchase_events msg used) noted)

record_purchase-Keeps :
    (clock : Clock) (msg : TicketPurchased) (p q : Profile) (used : ℕ) (start db : Db)
    → LedgerStep start db
    → Keeps (LedgerStep start) (record_purchase clock msg p q used db)
record_purchase-Keeps clock msg p q used start db m =
    cases (record_purchase clock msg p q used db) refl
  where
    cases :
        (o : Outcome (Unit {0}))
        → record_purchase clock msg p q used db ≡ o
        → Keeps (LedgerStep start) o
    cases (done r d) e =
        let (same, rows) = record_purchase_apart clock msg p q used r db d e in rw (same, rows) m
    cases (thrown f) e = tt

purchase_from-LedgerStep :
    (uuid_of : Text → Uuid) (clock : Clock) (msg : TicketPurchased) (p : Profile) (used : ℕ)
    (db : Db)
    → find_profile msg.user_id db.profiles ≡ some p
    → Keeps (LedgerStep db) (purchase_from uuid_of clock msg p used db)
unfolding purchase_from book_earning create_transaction
purchase_from-LedgerStep uuid_of clock msg p used db found =
    let earned = points_earned_for clock msg p used in
    let q = rewarded clock p earned in
    let (same_user, more, none_earned) = rewarded_row clock p earned in
    continue-Keeps (LedgerStep db) _ (assert_rewards p earned db) (λ r d e.
      rw (assert_rewards_reads p earned r db d e) (
        update_profile-Keeps (LedgerStep db) q _ db (λ ok. elim (Bool-cases (ltb 0 earned)) [
          | inl some_earned ↦ rw some_earned (
              record_purchase-Keeps clock msg p q used db _ (
                replace_profile-posted msg.user_id p q _ _ _ found same_user refl (more some_earned)
                  (λ h. rw (more some_earned) (omega int_laws))))
          | inr zero_earned ↦ rw zero_earned (
              record_purchase-Keeps clock msg p q used db _ (
                replace_profile-unposted msg.user_id p q _ _ found same_user
                  (none_earned zero_earned)))
        ])))

-- Every run of the purchase's transaction that commits is a step of the ledger.
pub purchase_body-LedgerStep :
    (uuid_of : Text → Uuid) (clock : Clock) (msg : TicketPurchased) (db : Db)
    → Keeps (LedgerStep db) (purchase_body uuid_of clock msg db)
unfolding purchase_body lock_loyalty_profile after_dedupe
purchase_body-LedgerStep uuid_of clock msg db =
    let opened = ensure_profile msg.user_id db in
    ensured-LedgerStep msg.user_id db _ (cases (find_processed msg.event_id db.processed))
  where
    cases :
        (o : Option ProcessedEvent)
        → Keeps
            (LedgerStep (ensure_profile msg.user_id db))
            (after_dedupe uuid_of clock msg o (ensure_profile msg.user_id db))
    cases none =
        find_profile_or_throw-Keeps _ msg.user_id _ _
          (λ p found. purchase_from-LedgerStep uuid_of clock msg p _ _ found)
    cases (some e) = elim (Bool-cases (is_some e.operation)) [
      | inl command ↦ rw command tt
      | inr event ↦ rw event LedgerStep_same
    ]
