-- ===== src/Points/Acceptance.antt =====
-- Deductions that go through.
use cinema_loyalty_service.Prelude.{
  ltb_ℤ, -ℤ_parts, refl, false, arith, ℤ, pos, ◌≤ℤ◌, ◌-ℤ◌, neg, is_int32, ℕ, ◌+◌, ◌≡◌, true, none,
  some, [], ◌∷◌,
}
use cinema_loyalty_service.Calculator.{Clock}
use cinema_loyalty_service.Points.Command.{
  replay_point_command, claim_after_race, claim_point_command, PointCommand, accepted,
  find_processed, command_row,
}
use cinema_loyalty_service.Points.Deduct.{
  book_deduction, deduct_from, deduct_fresh, minimum_deduction_points, deduct_body,
}
use cinema_loyalty_service.Store.Profiles.{
  lock_loyalty_profile, update_profile, create_transaction, find_profile, replace_profile, fits,
}
use cinema_loyalty_service.Store.Tx.{done}
use cinema_loyalty_service.Store.Types.{burn_discount, Profile, PointsTransaction, Db}

-- the row of the ledger that a deduction writes
abbrev pub debit_entry : PointCommand → ℤ → ℕ → PointsTransaction
debit_entry c after n = record {
  id = n;
  user_id = c.user_id;
  type = burn_discount;
  points = neg c.amount;
  balance_after = after;
  order_id = some c.order_id;
}

-- A database after a deduction of `c` from the profile `p`.
abbrev pub after_deduction : Clock → PointCommand → Profile → Db → Db
after_deduction clock c p db =
    let after = p.balance -ℤ c.amount in
    record db {
      profiles =
          replace_profile (record p { balance = after; last_activity_at = some clock.now })
            db.profiles;
      processed = command_row c after ∷ db.processed;
      transactions = debit_entry c after db.next_id ∷ db.transactions;
      debits = record { debit_id = db.next_id; refund_id = none } ∷ db.debits;
      next_id = db.next_id + 1;
    }

-- What a deduction needs.
abbrev pub IsCovered : PointCommand → Profile → Db → Type 0
IsCovered c p db =
    (find_processed c.idempotency_key db.processed ≡ none)
    × (find_profile c.user_id db.profiles ≡ some p)
    × (fits p ≡ true)
    × (pos minimum_deduction_points ≤ℤ c.amount)
    × (c.amount ≤ℤ p.balance)

is_int32-less : (a b : ℤ) → is_int32 b ≡ true → pos 0 ≤ℤ a → a ≤ℤ b → is_int32 (b -ℤ a) ≡ true
unfolding is_int32
is_int32-less a b h lo hi = ground (arith, h, lo, hi, -ℤ_parts b a)

pub fits-balance : (p : Profile) → fits p ≡ true → is_int32 p.balance ≡ true
unfolding fits
fits-balance p h = ground (arith, h)

fits-less :
    (clock : Clock) (p : Profile) (a : ℤ)
    → fits p ≡ true
    → pos 0 ≤ℤ a
    → a ≤ℤ p.balance
    → fits (record p { balance = p.balance -ℤ a; last_activity_at = some clock.now }) ≡ true
unfolding fits
fits-less clock p a h lo hi =
    let balance = is_int32-less a p.balance in ground (arith, h, lo, hi, balance)

-- A deduction of 75 points or more that the balance covers, under a key that is new, is accepted,
-- and does exactly what it has to: the balance falls by the amount, and the command, the entry of
-- the ledger and the debit of the order are recorded.
pub deduct_body-accepted :
    (clock : Clock) (c : PointCommand) (p : Profile) (db : Db)
    → IsCovered c p db
    → deduct_body clock c [] db
      ≡ done (accepted (p.balance -ℤ c.amount)) (after_deduction clock c p db)
unfolding deduct_body deduct_fresh deduct_from book_deduction claim_point_command claim_after_race
    replay_point_command lock_loyalty_profile update_profile create_transaction
deduct_body-accepted clock c p db (fresh, found, wide, enough, covered) =
    let few : ltb_ℤ c.amount (pos minimum_deduction_points) ≡ false = ground (arith, enough) in
    let short : ltb_ℤ p.balance c.amount ≡ false = ground (arith, covered) in
    let positive : pos 0 ≤ℤ c.amount = omega (arith, enough) in
    let row = fits-less clock p c.amount wide positive covered in
    let after = is_int32-less c.amount p.balance (fits-balance p wide) positive covered in
    rw (found, deduct_body)
      (rw (fresh, replay_point_command)
        (rw (found, few, deduct_fresh)
          (rw (short, deduct_from)
            (rw (after, claim_point_command)
              (rw (fresh, claim_after_race) (rw (row, update_profile) refl))))))
