-- ===== src/Points/Rejection.antt =====
-- Refused deductions.
use cinema_loyalty_service.Prelude.{
  ◌≡◌, refl, true, false, some, none, inl, inr, Bool-cases, Option-cases, Option, List, arith,
  ltb_ℤ, pos, ◌-ℤ◌, ℤ, Bool,
}
use cinema_loyalty_service.Store.Types.{Db, ProcessedEvent, Profile}
use cinema_loyalty_service.Store.Tx.{done, thrown, Outcome, return_or}
use cinema_loyalty_service.Store.Profiles.{find_profile, lock_loyalty_profile}
use cinema_loyalty_service.Calculator.{Clock}
use cinema_loyalty_service.Points.Command.{
  PointCommand, PointResult, replay_point_command, claim_point_command, claim_point_command_writes,
  replay_point_command_reads,
}
use cinema_loyalty_service.Points.Deduct.{
  minimum_deduction_points, book_deduction, deduct_from, deduct_fresh, deduct_body,
}
use cinema_loyalty_service.Points.Replay.{book_deduction-processed}

abbrev IsUnbooked : Db → Db → Type 0
IsUnbooked db d =
    (d.profiles ≡ db.profiles) × (d.transactions ≡ db.transactions) × (d.debits ≡ db.debits)

after_claim-rejected :
    (clock : Clock) (c : PointCommand) (p : Profile) (after : ℤ) (o : Option PointResult)
    (r : PointResult) (db d' d : Db)
    → return_or o (book_deduction clock c p after) d' ≡ done r d
    → r.success ≡ false
    → d' ≡ record db { processed = d'.processed }
    → IsUnbooked db d
after_claim-rejected clock c p after none r db d' d h lost same =
    let (said, rows) = book_deduction-processed clock c p after r d' d h in ground arith
after_claim-rejected clock c p after (some s) r db d' d h lost same = ground arith

deduct_from-rejected :
    (clock : Clock) (c : PointCommand) (raced : List ProcessedEvent) (p : Profile) (r : PointResult)
    (db d : Db)
    → deduct_from clock c raced p db ≡ done r d
    → r.success ≡ false
    → IsUnbooked db d
unfolding deduct_from
deduct_from-rejected clock c raced p r db d h lost = elim (Bool-cases (ltb_ℤ p.balance c.amount)) [
  | inl short ↦ ground arith
  | inr enough ↦ claimed enough (claim_point_command c (p.balance -ℤ c.amount) raced db) refl
]
  where
    claimed :
        ltb_ℤ p.balance c.amount ≡ false
        → (o : Outcome (Option PointResult))
        → claim_point_command c (p.balance -ℤ c.amount) raced db ≡ o
        → IsUnbooked db d
    claimed enough (done s d') e =
        after_claim-rejected clock c p (p.balance -ℤ c.amount) s r db d' d (rw (enough, e) at h)
          lost (claim_point_command_writes c _ raced s db d' e)
    claimed enough (thrown f) e = let h' = rw (enough, e) at h in ground (arith, h')

deduct_fresh-rejected :
    (clock : Clock) (c : PointCommand) (raced : List ProcessedEvent) (locked : Bool)
    (r : PointResult) (db d : Db)
    → deduct_fresh clock c raced locked db ≡ done r d
    → r.success ≡ false
    → IsUnbooked db d
unfolding deduct_fresh
deduct_fresh-rejected clock c raced false r db d h lost = ground arith
deduct_fresh-rejected clock c raced true r db d h lost =
    elim (Bool-cases (ltb_ℤ c.amount (pos minimum_deduction_points))) [
      | inl few ↦ ground arith
      | inr many ↦ elim (Option-cases (find_profile c.user_id db.profiles)) [
        | inl missing ↦ ground arith
        | inr (p, found) ↦ deduct_from-rejected clock c raced p r db d (rw (many, found) at h) lost
      ]
    ]

-- A deduction that is answered with a refusal books nothing: no profile, ledger entry or debit
-- changes.
pub deduct_body-rejected :
    (clock : Clock) (c : PointCommand) (raced : List ProcessedEvent) (r : PointResult) (db d : Db)
    → deduct_body clock c raced db ≡ done r d
    → r.success ≡ false
    → (d.profiles ≡ db.profiles) × (d.transactions ≡ db.transactions) × (d.debits ≡ db.debits)
unfolding deduct_body lock_loyalty_profile
deduct_body-rejected clock c raced r db d h lost = first (replay_point_command c db) refl
  where
    first : (o : Outcome (Option PointResult)) → replay_point_command c db ≡ o → IsUnbooked db d
    first (done none d') e =
        let unbooked = deduct_fresh-rejected clock c raced _ r d' d (rw e at h) lost in
        rw (replay_point_command_reads c none db d' e) at unbooked
    first (done (some s) d') e =
        let h' = rw e at h in
        let kept = replay_point_command_reads c (some s) db d' e in ground (arith, h', kept)
    first (thrown f) e = let h' = rw e at h in ground (arith, h')
