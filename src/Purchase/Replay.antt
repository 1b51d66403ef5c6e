-- ===== src/Purchase/Replay.antt =====
-- Purchases that arrive twice.
use cinema_loyalty_service.Prelude.{
  ℕ, ◌≡◌, refl, true, false, some, none, inl, inr, Bool-cases, Option, List, ◌∷◌, arith, Text,
  text_eq_refl, is_some, ltb,
}
use cinema_loyalty_service.Achievements.Intents.{save_dispatch_intents, add_intents_apart}
use cinema_loyalty_service.Calculator.{Clock}
use cinema_loyalty_service.Points.Command.{find_processed}
use cinema_loyalty_service.Purchase.{
  TicketPurchased, plain_row, record_purchase, purchase_from, after_dedupe, purchase_body,
  assert_rewards, book_earning, points_earned_for, rewarded, purchase_events,
}
use cinema_loyalty_service.Store.Profiles.{
  find_profile, replace_profile, find_profile-replace_profile, ensure_profile, lock_loyalty_profile,
  update_profile-Keeps, record_tier_change, create_transaction, tier_noted,
}
use cinema_loyalty_service.Store.Rules.{find_profile_or_throw-Keeps}
use cinema_loyalty_service.Store.Tx.{Keeps, done, thrown, Outcome, continue-Keeps}
use cinema_loyalty_service.Store.Types.{Db, Uuid, Profile, ProcessedEvent}

-- the event is recorded, and its profile is there
pub record IsRecorded (msg : TicketPurchased) (db : Db) : Type 0 where
  pub row :
      (e : ProcessedEvent) × (find_processed msg.event_id db.processed ≡ some e)
      × (is_some e.operation ≡ false)
  pub profile : is_some (find_profile msg.user_id db.profiles) ≡ true

-- An event that is recorded is answered without a change.
pub recorded-purchase_body :
    (uuid_of : Text → Uuid) (clock : Clock) (msg : TicketPurchased) (db : Db)
    → IsRecorded msg db
    → purchase_body uuid_of clock msg db ≡ done tt db
unfolding purchase_body lock_loyalty_profile after_dedupe
recorded-purchase_body uuid_of clock msg db h =
    let (e, found, event) = h.row in rw (h.profile, found, event) refl

record_purchase-rows :
    (clock : Clock) (msg : TicketPurchased) (p q : Profile) (used : ℕ) (r : Unit {0}) (db d : Db)
    → record_purchase clock msg p q used db ≡ done r d
    → (d.profiles ≡ db.profiles) × (d.processed ≡ plain_row msg.event_id ∷ db.processed)
unfolding record_purchase record_tier_change save_dispatch_intents
record_purchase-rows clock msg p q used r db d e =
    let marked : Db = record db { processed = plain_row msg.event_id ∷ db.processed } in
    let noted : Db = tier_noted msg.user_id p.tier q.tier clock.now marked in
    ground (arith, add_intents_apart clock.now (purchase_events msg used) noted)

plain_row-head :
    (t : Text) (rows : List ProcessedEvent)
    → find_processed t (plain_row t ∷ rows) ≡ some (plain_row t)
unfolding find_processed
plain_row-head t rows = rw (text_eq_refl t) refl

record_purchase-IsRecorded :
    (clock : Clock) (msg : TicketPurchased) (p q : Profile) (used : ℕ) (db : Db)
    → is_some (find_profile msg.user_id db.profiles) ≡ true
    → Keeps (IsRecorded msg) (record_purchase clock msg p q used db)
record_purchase-IsRecorded clock msg p q used db here =
    cases (record_purchase clock msg p q used db) refl
  where
    cases :
        (o : Outcome (Unit {0}))
        → record_purchase clock msg p q used db ≡ o
        → Keeps (IsRecorded msg) o
    cases (done r d) e =
        let (same, rows) = record_purchase-rows clock msg p q used r db d e in
        record {
          row = (plain_row msg.event_id, rw rows (plain_row-head msg.event_id db.processed), refl);
          profile = rw same here;
        }
    cases (thrown f) e = tt

rewarded-user_id :
    (clock : Clock) (p : Profile) (earned : ℕ) → (rewarded clock p earned).user_id ≡ p.user_id
unfolding rewarded
rewarded-user_id clock p earned = ground arith

still_there :
    (u : Uuid) (p q : Profile) (ps : List Profile)
    → find_profile u ps ≡ some p
    → is_some (find_profile u (replace_profile q ps)) ≡ true
still_there u p q ps found = ground (arith, find_profile-replace_profile u q ps)

assert_rewards_same :
    (p : Profile) (earned : ℕ) (r : Unit {0}) (db d : Db)
    → assert_rewards p earned db ≡ done r d
    → d ≡ db
unfolding assert_rewards
assert_rewards_same p earned r db d e = ground arith

purchase_from-IsRecorded :
    (uuid_of : Text → Uuid) (clock : Clock) (msg : TicketPurchased) (p : Profile) (used : ℕ)
    (db : Db)
    → find_profile msg.user_id db.profiles ≡ some p
    → Keeps (IsRecorded msg) (purchase_from uuid_of clock msg p used db)
unfolding purchase_from book_earning create_transaction
purchase_from-IsRecorded uuid_of clock msg p used db found =
    let earned = points_earned_for clock msg p used in
    let q = rewarded clock p earned in
    let here = still_there msg.user_id p q db.profiles found in
    continue-Keeps (IsRecorded msg) _ (assert_rewards p earned db) (λ r d e.
      rw (assert_rewards_same p earned r db d e) (
        update_profile-Keeps (IsRecorded msg) q _ db (λ ok. elim (Bool-cases (ltb 0 earned)) [
          | inl some_earned ↦ rw some_earned (record_purchase-IsRecorded clock msg p q used _ here)
          | inr zero_earned ↦ rw zero_earned (record_purchase-IsRecorded clock msg p q used _ here)
        ])))

ensured : (u : Uuid) (db : Db) → is_some (find_profile u (ensure_profile u db).profiles) ≡ true
unfolding find_profile
ensured u db = ground arith

pub purchase_body-IsRecorded :
    (uuid_of : Text → Uuid) (clock : Clock) (msg : TicketPurchased) (db : Db)
    → Keeps (IsRecorded msg) (purchase_body uuid_of clock msg db)
unfolding purchase_body lock_loyalty_profile after_dedupe
purchase_body-IsRecorded uuid_of clock msg db =
    cases (find_processed msg.event_id db.processed) refl
  where
    cases :
        (o : Option ProcessedEvent)
        → find_processed msg.event_id db.processed ≡ o
        → Keeps (IsRecorded msg) (after_dedupe uuid_of clock msg o (ensure_profile msg.user_id db))
    cases none missing =
        find_profile_or_throw-Keeps _ msg.user_id _ _
          (λ p found. purchase_from-IsRecorded uuid_of clock msg p _ _ found)
    cases (some e) found = elim (Bool-cases (is_some e.operation)) [
      | inl command ↦ rw command tt
      | inr event ↦ rw event (record { row = (e, found, event); profile = ensured msg.user_id db })
    ]

-- When the transaction of a purchase committed, handling the same event on the database that it left
-- succeeds and changes nothing, at any later instant: no points, visits, entries or intents are
-- added.
pub purchase_body-replay :
    (uuid_of : Text → Uuid) (clock later : Clock) (msg : TicketPurchased) (db d : Db)
    → purchase_body uuid_of clock msg db ≡ done tt d
    → purchase_body uuid_of later msg d ≡ done tt d
purchase_body-replay uuid_of clock later msg db d h =
    let kept = purchase_body-IsRecorded uuid_of clock msg db in
    recorded-purchase_body uuid_of later msg d (rw h at kept)
