-- ===== src/Points/Replay.antt =====
-- Repeated point commands.
use cinema_loyalty_service.Prelude.{
  is_int32, ◌≡◌, refl, true, false, some, none, inl, inr, Bool-cases, Option-cases, Option, List,
  ◌∷◌, arith, ltb_ℤ, pos, text_eq_refl, ◌-ℤ◌, ℤ, Bool, eqb_ℤ-refl, ==-refl,
}
use cinema_loyalty_service.Calculator.{Clock}
use cinema_loyalty_service.Points.Command.{
  PointCommand, PointResult, accepted, find_processed, replay_row, replay_point_command,
  claim_after_race, claim_point_command, command_row,
}
use cinema_loyalty_service.Points.Deduct.{
  minimum_deduction_points, book_deduction, deduct_from, deduct_fresh, deduct_body,
}
use cinema_loyalty_service.Store.Profiles.{
  find_profile, lock_loyalty_profile, update_profile, create_transaction,
}
use cinema_loyalty_service.Store.Tx.{add_processed, done, thrown, Outcome, returned}
use cinema_loyalty_service.Store.Types.{
  Db, ProcessedEvent, Profile, operation_eq, deduct_points_op, refund_points_op, Operation,
}

operation_eq_refl : (o : Operation) → operation_eq o o ≡ true
operation_eq_refl deduct_points_op = refl
operation_eq_refl refund_points_op = refl

find_processed-head :
    (e : ProcessedEvent) (es : List ProcessedEvent) → find_processed e.event_id (e ∷ es) ≡ some e
unfolding find_processed
find_processed-head e es = rw (text_eq_refl e.event_id) refl

replay_row-own :
    (c : PointCommand) (after : ℤ) → replay_row (command_row c after) c ≡ returned (accepted after)
unfolding replay_row
replay_row-own c after =
    rw (operation_eq_refl c.operation, ==-refl c.user_id, ==-refl c.order_id, eqb_ℤ-refl c.amount)
      refl

-- The rows of processed_events answer a command.
abbrev pub Answers : PointCommand → PointResult → List ProcessedEvent → Type 0
Answers c r rows =
    (e : ProcessedEvent) × (find_processed c.idempotency_key rows ≡ some e)
    × (replay_row e c ≡ returned r)

replay_point_command-Answers :
    (c : PointCommand) (r : PointResult) (db d : Db)
    → replay_point_command c db ≡ done (some r) d
    → Answers c r d.processed
unfolding replay_point_command
replay_point_command-Answers c r db d h =
    elim (Option-cases (find_processed c.idempotency_key db.processed)) [
      | inl missing ↦ ground arith
      | inr (e, found) ↦ (e, ground arith, ground arith)
    ]

claim_after_race-claimed :
    (c : PointCommand) (after : ℤ) (db d : Db)
    → claim_after_race c after db ≡ done none d
    → Answers c (accepted after) d.processed
unfolding claim_after_race replay_point_command
claim_after_race-claimed c after db d h =
    let e = command_row c after in
    elim (Option-cases (find_processed c.idempotency_key db.processed)) [
      | inl missing ↦ (e, own missing, replay_row-own c after)
      | inr (e', found) ↦ ground arith
    ]
  where
    own :
        find_processed c.idempotency_key db.processed ≡ none
        → find_processed c.idempotency_key d.processed ≡ some (command_row c after)
    own missing =
        let rows : d.processed ≡ command_row c after ∷ db.processed = ground arith in
        rw rows (find_processed-head (command_row c after) db.processed)

claim_after_race-replayed :
    (c : PointCommand) (after : ℤ) (r : PointResult) (db d : Db)
    → claim_after_race c after db ≡ done (some r) d
    → Answers c r d.processed
unfolding claim_after_race replay_point_command
claim_after_race-replayed c after r db d h =
    elim (Option-cases (find_processed c.idempotency_key db.processed)) [
      | inl missing ↦ ground arith
      | inr (e, found) ↦ (e, ground arith, ground arith)
    ]

-- what the writes behind a claim leave
pub book_deduction-processed :
    (clock : Clock) (c : PointCommand) (p : Profile) (after : ℤ) (r : PointResult) (db d : Db)
    → book_deduction clock c p after db ≡ done r d
    → (r ≡ accepted after) × (d.processed ≡ db.processed)
unfolding book_deduction update_profile create_transaction
book_deduction-processed clock c p after r db d h = ground arith

Answers-replay :
    (c : PointCommand) (r : PointResult) (d : Db)
    → Answers c r d.processed
    → replay_point_command c d ≡ done (some r) d
unfolding replay_point_command
Answers-replay c r d (e, found, said) = rw (found, replay_point_command, said) refl

-- an answer that stands is given again
answered :
    (clock : Clock) (c : PointCommand) (others : List ProcessedEvent) (r : PointResult) (d : Db)
    → replay_point_command c d ≡ done (some r) d
    → deduct_body clock c others d ≡ done r d
unfolding deduct_body lock_loyalty_profile
answered clock c others r d said = rw said refl

claim_point_command-claimed :
    (c : PointCommand) (after : ℤ) (raced : List ProcessedEvent) (db d : Db)
    → claim_point_command c after raced db ≡ done none d
    → Answers c (accepted after) d.processed
unfolding claim_point_command
claim_point_command-claimed c after raced db d h = elim (Bool-cases (is_int32 after)) [
  | inl small ↦
      claim_after_race-claimed c after (add_processed raced db) d
        (rw (small, claim_point_command) at h)
  | inr large ↦ ground arith
]

claim_point_command-replayed :
    (c : PointCommand) (after : ℤ) (raced : List ProcessedEvent) (r : PointResult) (db d : Db)
    → claim_point_command c after raced db ≡ done (some r) d
    → Answers c r d.processed
unfolding claim_point_command
claim_point_command-replayed c after raced r db d h = elim (Bool-cases (is_int32 after)) [
  | inl small ↦
      claim_after_race-replayed c after r (add_processed raced db) d
        (rw (small, claim_point_command) at h)
  | inr large ↦ ground arith
]

deduct_from-Answers :
    (clock : Clock) (c : PointCommand) (raced : List ProcessedEvent) (p : Profile) (r : PointResult)
    (db d : Db)
    → deduct_from clock c raced p db ≡ done r d
    → r.success ≡ true
    → Answers c r d.processed
unfolding deduct_from
deduct_from-Answers clock c raced p r db d h won = elim (Bool-cases (ltb_ℤ p.balance c.amount)) [
  | inl short ↦ ground arith
  | inr enough ↦ claimed enough (claim_point_command c (p.balance -ℤ c.amount) raced db) refl
]
  where
    claimed :
        ltb_ℤ p.balance c.amount ≡ false
        → (o : Outcome (Option PointResult))
        → claim_point_command c (p.balance -ℤ c.amount) raced db ≡ o
        → Answers c r d.processed
    claimed enough (done none d') e =
        let (said, rows) =
          book_deduction-processed clock c p (p.balance -ℤ c.amount) r d' d (rw (enough, e) at h) in
        rw (said, rows) (claim_point_command-claimed c _ raced db d' e)
    claimed enough (done (some s) d') e =
        let h' = rw (enough, e) at h in
        let same : s ≡ r = ground (arith, h') in
        let kept : d' ≡ d = ground (arith, h') in
        rw (← same, ← kept) (claim_point_command-replayed c _ raced s db d' e)
    claimed enough (thrown f) e = let h' = rw (enough, e) at h in ground (arith, h')

deduct_fresh-Answers :
    (clock : Clock) (c : PointCommand) (raced : List ProcessedEvent) (locked : Bool)
    (r : PointResult) (db d : Db)
    → deduct_fresh clock c raced locked db ≡ done r d
    → r.success ≡ true
    → Answers c r d.processed
unfolding deduct_fresh
deduct_fresh-Answers clock c raced false r db d h won = ground arith
deduct_fresh-Answers clock c raced true r db d h won =
    elim (Bool-cases (ltb_ℤ c.amount (pos minimum_deduction_points))) [
      | inl few ↦ ground arith
      | inr many ↦ elim (Option-cases (find_profile c.user_id db.profiles)) [
        | inl missing ↦ ground arith
        | inr (p, found) ↦ deduct_from-Answers clock c raced p r db d (rw (many, found) at h) won
      ]
    ]

-- The rows that a successful deduction leaves answer its command.
pub deduct_body-Answers :
    (clock : Clock) (c : PointCommand) (raced : List ProcessedEvent) (r : PointResult) (db d : Db)
    → deduct_body clock c raced db ≡ done r d
    → r.success ≡ true
    → Answers c r d.processed
unfolding deduct_body lock_loyalty_profile
deduct_body-Answers clock c raced r db d h won = first (replay_point_command c db) refl
  where
    first :
        (o : Outcome (Option PointResult)) → replay_point_command c db ≡ o → Answers c r d.processed
    first (done none d') e = deduct_fresh-Answers clock c raced _ r d' d (rw e at h) won
    first (done (some s) d') e =
        let h' = rw e at h in
        let same : s ≡ r = ground (arith, h') in
        let kept : d' ≡ d = ground (arith, h') in
        rw (← same, ← kept) (replay_point_command-Answers c s db d' e)
    first (thrown f) e = let h' = rw e at h in ground (arith, h')

-- When a deduction succeeded, the same command on the database that it left gives the same answer
-- and changes nothing, at any later instant and whatever rows other sessions add while it runs.
pub deduct_body-replay :
    (clock later : Clock) (c : PointCommand) (raced others : List ProcessedEvent) (r : PointResult)
    (db d : Db)
    → deduct_body clock c raced db ≡ done r d
    → r.success ≡ true
    → deduct_body later c others d ≡ done r d
deduct_body-replay clock later c raced others r db d h won =
    answered later c others r d
      (Answers-replay c r d (deduct_body-Answers clock c raced r db d h won))
