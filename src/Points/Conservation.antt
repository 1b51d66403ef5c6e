-- ===== src/Points/Conservation.antt =====
-- Deductions keep the ledger: what leaves a balance stands in an entry.
use cinema_loyalty_service.Prelude.{
  eqb_ℤ, eqb_ℤ→eq, ℕ, count_where, ◌==◌, is_some, find_first, ◌||◌, take, select, [], ◌∷◌, pos,
  Bool, Option-cases, false, true, ◌≡◌, refl, List, ℤ, ◌-ℤ◌, ◌+ℤ◌, neg, ◌≤ℤ◌, Bool-cases, inl, inr,
  Option, none, some, Option-cases, int_laws, arith, ltb_ℤ, false, true,
}
use cinema_loyalty_service.Store.Types.{PointsTransaction, Db, Profile, ProcessedEvent}
use cinema_loyalty_service.Store.Tx.{Tx, return_or, Keeps, continue-Keeps}
use cinema_loyalty_service.Store.Profiles.{find_profile, lock_loyalty_profile, update_profile-Keeps}
use cinema_loyalty_service.Calculator.{Clock}
use cinema_loyalty_service.Ledger.Steps.{LedgerStep, replace_profile-posted, LedgerStep_same}
use cinema_loyalty_service.Points.Command.{
  replay_point_command, PointCommand, PointResult, claim_point_command, replay_point_command_reads,
  claim_point_command_writes,
}
use cinema_loyalty_service.Points.Refund.{
  is_debit_of, is_refund_of, is_checkout, is_unlinked, is_linked, link_refund, book_refund,
  refund_debit, refund_from, refund_fresh, refund_body,
}
use cinema_loyalty_service.Points.Deduct.{
  minimum_deduction_points, deduct_fresh, book_deduction, deduct_from, deduct_body,
}

neg_lem : (a b : ℤ) → a -ℤ b ≡ a +ℤ neg b
neg_lem a b = omega int_laws

book_deduction-LedgerStep :
    (clock : Clock) (c : PointCommand) (p : Profile) (db : Db)
    → find_profile c.user_id db.profiles ≡ some p
    → c.amount ≤ℤ p.balance
    → Keeps (LedgerStep db) (book_deduction clock c p (p.balance -ℤ c.amount) db)
unfolding book_deduction
book_deduction-LedgerStep clock c p db found enough =
    let q : Profile = record p {
      balance = p.balance -ℤ c.amount;
      last_activity_at = some clock.now;
    } in
    update_profile-Keeps (LedgerStep db) q _ db (λ ok.
      replace_profile-posted c.user_id p q _ _ _ found refl refl (neg_lem p.balance c.amount)
        (λ h. omega int_laws))

after_claim-LedgerStep :
    (clock : Clock) (c : PointCommand) (p : Profile) (db d : Db) (r : Option PointResult)
    → find_profile c.user_id db.profiles ≡ some p
    → c.amount ≤ℤ p.balance
    → d ≡ record db { processed = d.processed }
    → Keeps (LedgerStep db) (return_or r (book_deduction clock c p (p.balance -ℤ c.amount)) d)
after_claim-LedgerStep clock c p db d (some r) found enough same = rw same LedgerStep_same
after_claim-LedgerStep clock c p db d none found enough same =
    rw same
      (book_deduction-LedgerStep clock c p (record db { processed = d.processed }) found enough)

deduct_from-LedgerStep :
    (clock : Clock) (c : PointCommand) (raced : List ProcessedEvent) (p : Profile) (db : Db)
    → find_profile c.user_id db.profiles ≡ some p
    → Keeps (LedgerStep db) (deduct_from clock c raced p db)
unfolding deduct_from
deduct_from-LedgerStep clock c raced p db found = elim (Bool-cases (ltb_ℤ p.balance c.amount)) [
  | inl short ↦ rw short LedgerStep_same
  | inr enough ↦ rw enough (
      continue-Keeps (LedgerStep db) _ (claim_point_command c (p.balance -ℤ c.amount) raced db)
        (λ r d e.
          after_claim-LedgerStep clock c p db d r found (ground arith)
            (claim_point_command_writes c _ raced r db d e)))
]

deduct_fresh-LedgerStep :
    (clock : Clock) (c : PointCommand) (raced : List ProcessedEvent) (locked : Bool) (db : Db)
    → Keeps (LedgerStep db) (deduct_fresh clock c raced locked db)
unfolding deduct_fresh
deduct_fresh-LedgerStep clock c raced false db =
    elim (Bool-cases (ltb_ℤ c.amount (pos minimum_deduction_points))) [
      | inl few ↦ rw few LedgerStep_same
      | inr many ↦ rw many tt
    ]
deduct_fresh-LedgerStep clock c raced true db =
    elim (Bool-cases (ltb_ℤ c.amount (pos minimum_deduction_points))) [
      | inl few ↦ rw few LedgerStep_same
      | inr many ↦ elim (Option-cases (find_profile c.user_id db.profiles)) [
        | inl missing ↦ rw (many, missing) tt
        | inr (p, found) ↦ rw (many, found) (deduct_from-LedgerStep clock c raced p db found)
      ]
    ]

return_or-LedgerStep :
    {A : Type 0} (r : Option A) (k : Tx A) (db : Db)
    → Keeps (LedgerStep db) (k db)
    → Keeps (LedgerStep db) (return_or r k db)
return_or-LedgerStep none k db h = h
return_or-LedgerStep (some r) k db h = LedgerStep_same

-- Every run of the deduction's transaction that commits is a step of the ledger.
pub deduct_body-LedgerStep :
    (clock : Clock) (c : PointCommand) (raced : List ProcessedEvent) (db : Db)
    → Keeps (LedgerStep db) (deduct_body clock c raced db)
unfolding deduct_body lock_loyalty_profile
deduct_body-LedgerStep clock c raced db =
    continue-Keeps (LedgerStep db) _ (replay_point_command c db) (λ r d e.
      rw (replay_point_command_reads c r db d e)
        (return_or-LedgerStep r _ db (deduct_fresh-LedgerStep clock c raced _ db)))

refunded_balance :
    (amount balance points : ℤ)
    → eqb_ℤ amount (neg points) ≡ true
    → balance -ℤ points ≡ balance +ℤ amount
refunded_balance amount balance points h =
    let e = eqb_ℤ→eq amount (neg points) h in rw e (omega int_laws)

book_refund-LedgerStep :
    (c : PointCommand) (p : Profile) (debit : ℕ) (after : ℤ) (db : Db)
    → find_profile c.user_id db.profiles ≡ some p
    → pos 0 ≤ℤ c.amount
    → after ≡ p.balance +ℤ c.amount
    → Keeps (LedgerStep db) (book_refund c p debit after db)
unfolding book_refund link_refund
book_refund-LedgerStep c p debit after db found positive sum =
    let q : Profile = record p { balance = after } in
    update_profile-Keeps (LedgerStep db) q _ db (λ ok.
      elim (Bool-cases (count_where (is_unlinked debit) db.debits == 1)) [
        | inr lost ↦ rw lost tt
        | inl owned ↦ rw owned (
            replace_profile-posted c.user_id p q _ _ _ found refl refl sum
              (λ h. rw sum (omega int_laws)))
      ])

after_refund_claim-LedgerStep :
    (c : PointCommand) (p : Profile) (debit : ℕ) (after : ℤ) (db d : Db) (r : Option PointResult)
    → find_profile c.user_id db.profiles ≡ some p
    → pos 0 ≤ℤ c.amount
    → after ≡ p.balance +ℤ c.amount
    → d ≡ record db { processed = d.processed }
    → Keeps (LedgerStep db) (return_or r (book_refund c p debit after) d)
after_refund_claim-LedgerStep c p debit after db d (some r) found positive sum same =
    rw same LedgerStep_same
after_refund_claim-LedgerStep c p debit after db d none found positive sum same = rw same (
    book_refund-LedgerStep c p debit after (record db { processed = d.processed }) found positive
      sum)

refund_debit-LedgerStep :
    (c : PointCommand) (raced : List ProcessedEvent) (p : Profile) (debit : PointsTransaction)
    (db : Db)
    → find_profile c.user_id db.profiles ≡ some p
    → pos 0 ≤ℤ c.amount
    → Keeps (LedgerStep db) (refund_debit c raced p debit db)
unfolding refund_debit
refund_debit-LedgerStep c raced p debit db found positive =
    elim (Bool-cases (
      is_some (find_first (is_refund_of c.user_id c.order_id) db.transactions)
      || is_linked (find_first (is_checkout debit.id) db.debits))) [
        | inl before ↦ rw before LedgerStep_same
        | inr first ↦ elim (Bool-cases (is_some (find_first (is_checkout debit.id) db.debits))) [
          | inr missing ↦ rw (first, missing) LedgerStep_same
          | inl present ↦ elim (Bool-cases (eqb_ℤ c.amount (neg debit.points))) [
            | inr other ↦ rw (first, present, other) LedgerStep_same
            | inl full ↦
                rw (first, present, full)
                  (continue-Keeps (LedgerStep db) _
                    (claim_point_command c (p.balance -ℤ debit.points) raced db)
                    (λ r d e.
                      after_refund_claim-LedgerStep c p debit.id _ db d r found positive
                        (refunded_balance c.amount p.balance debit.points full)
                        (claim_point_command_writes c _ raced r db d e)))
          ]
        ]
      ]

refund_from-LedgerStep :
    (c : PointCommand) (raced : List ProcessedEvent) (p : Profile) (db : Db)
    → find_profile c.user_id db.profiles ≡ some p
    → pos 0 ≤ℤ c.amount
    → Keeps (LedgerStep db) (refund_from c raced p db)
unfolding refund_from
refund_from-LedgerStep c raced p db found positive =
    cases (take 2 (select (is_debit_of c.user_id c.order_id) db.transactions)) refl
  where
    cases :
        (l : List PointsTransaction)
        → take 2 (select (is_debit_of c.user_id c.order_id) db.transactions) ≡ l
        → Keeps (LedgerStep db) (refund_from c raced p db)
    cases [] e = rw (e, refund_from) LedgerStep_same
    cases (t ∷ []) e = rw (e, refund_from) (refund_debit-LedgerStep c raced p t db found positive)
    cases (t ∷ s ∷ l) e = rw (e, refund_from) LedgerStep_same

refund_fresh-LedgerStep :
    (c : PointCommand) (raced : List ProcessedEvent) (locked : Bool) (db : Db)
    → pos 0 ≤ℤ c.amount
    → Keeps (LedgerStep db) (refund_fresh c raced locked db)
unfolding refund_fresh
refund_fresh-LedgerStep c raced false db positive = LedgerStep_same
refund_fresh-LedgerStep c raced true db positive =
    elim (Option-cases (find_profile c.user_id db.profiles)) [
      | inl missing ↦ rw (missing, refund_fresh) LedgerStep_same
      | inr (p, found) ↦
          rw (found, refund_fresh) (refund_from-LedgerStep c raced p db found positive)
    ]

-- Every run of the refund's transaction that commits is a step of the ledger.
pub refund_body-LedgerStep :
    (c : PointCommand) (raced : List ProcessedEvent) (db : Db)
    → pos 0 ≤ℤ c.amount
    → Keeps (LedgerStep db) (refund_body c raced db)
unfolding refund_body lock_loyalty_profile
refund_body-LedgerStep c raced db positive =
    continue-Keeps (LedgerStep db) _ (replay_point_command c db) (λ r d e.
      rw (replay_point_command_reads c r db d e)
        (return_or-LedgerStep r _ db (refund_fresh-LedgerStep c raced _ db positive)))
