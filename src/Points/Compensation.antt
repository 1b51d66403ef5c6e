-- ===== src/Points/Compensation.antt =====
-- A refund after the deduction that it compensates.
use cinema_loyalty_service.Prelude.{
  neg_part, eqb_ℤ, eqb_ℤ-refl, ◌≤◌, ltb_ℤ, ◌+◌, true, ==-refl, update_where, Text, text_eq, ℤ, pos,
  ◌≤ℤ◌, int_laws, ◌-ℤ◌, neg, ℕ, ◌≡◌, refl, false, none, some, List, [], ◌∷◌, arith, select,
  find_first, count_where,
}
use cinema_loyalty_service.Calculator.{Clock}
use cinema_loyalty_service.Points.Acceptance.{
  fits-balance, deduct_body-accepted, after_deduction, IsCovered, debit_entry,
}
use cinema_loyalty_service.Points.Command.{
  accepted, replay_point_command, command_row, claim_after_race, claim_point_command, PointCommand,
  find_processed,
}
use cinema_loyalty_service.Points.Deduct.{deduct_body}
use cinema_loyalty_service.Points.Refund.{
  link_refund, book_refund, refund_debit, refund_from, refund_fresh, refund_body, is_debit_of,
  is_refund_of, is_checkout, is_unlinked,
}
use cinema_loyalty_service.Store.Profiles.{
  balance_of-found, balance_of-replace_profile, balance_of, find_profile-replace_profile,
  find_profile-user_id, lock_loyalty_profile, fits, update_profile, create_transaction,
  find_profile, replace_profile,
}
use cinema_loyalty_service.Store.Tx.{done}
use cinema_loyalty_service.Store.Types.{
  Uuid, refund, refund_points_op, Profile, PointsTransaction, CheckoutDebit, Db,
}

-- the command that refunds what `c` deducted, under the key `k`
abbrev pub refund_of : PointCommand → Text → PointCommand
refund_of c k = record c { operation = refund_points_op; idempotency_key = k }

-- The order has no other debit and no refund, and the keys and the next id are new.
abbrev pub IsFirstCheckout : PointCommand → Text → Db → Type 0
IsFirstCheckout c k db =
    (text_eq c.idempotency_key k ≡ false)
    × (find_processed k db.processed ≡ none)
    × (select (is_debit_of c.user_id c.order_id) db.transactions ≡ [])
    × (find_first (is_refund_of c.user_id c.order_id) db.transactions ≡ none)
    × (find_first (is_checkout db.next_id) db.debits ≡ none)

none_unlinked :
    (n : ℕ) (cs : List CheckoutDebit)
    → find_first (is_checkout n) cs ≡ none
    → count_where (is_unlinked n) cs ≡ 0
unfolding find_first count_where
none_unlinked n [] h = refl
none_unlinked n (c ∷ cs) h = ground (arith, h, none_unlinked n cs)

neg-neg : (a : ℤ) → neg (neg a) ≡ a
neg-neg a = omega int_laws

minus_neg : (a b : ℤ) → (a -ℤ b) -ℤ neg b ≡ a
minus_neg a b = omega int_laws

is_negative : (a : ℤ) → 1 ≤ neg_part a → ltb_ℤ a (pos 0) ≡ true
is_negative a h = ground (arith, h)

still_fits :
    (p q : Profile)
    → fits p ≡ true
    → q.balance ≡ p.balance
    → q.lifetime_points ≡ p.lifetime_points
    → q.year_points ≡ p.year_points
    → q.year_visits ≡ p.year_visits
    → fits q ≡ true
unfolding fits
still_fits p q h a b c d = rw (a, b, c, d) h

module _ (clock : Clock) (c : PointCommand) (p : Profile) (db : Db) (k : Text) where
  abbrev pub paid : Profile
  paid = record p { balance = p.balance -ℤ c.amount; last_activity_at = some clock.now }

  abbrev debit : PointsTransaction
  debit = debit_entry c (p.balance -ℤ c.amount) db.next_id

  -- the one debit of the order is found
  debit_found :
      pos 1 ≤ℤ c.amount
      → select (is_debit_of c.user_id c.order_id) db.transactions ≡ []
      → select (is_debit_of c.user_id c.order_id) (debit ∷ db.transactions) ≡ debit ∷ []
  unfolding select
  debit_found some_points h =
      let below : 1 ≤ neg_part (neg c.amount) = omega (int_laws, some_points) in
      let owed : ltb_ℤ (neg c.amount) (pos 0) ≡ true =
        ground (arith, below, is_negative (neg c.amount)) in
      rw (==-refl c.user_id) (rw (==-refl c.order_id) (rw owed (rw h refl)))

  paid_found :
      find_profile c.user_id db.profiles ≡ some p
      → find_profile c.user_id (replace_profile paid db.profiles) ≡ some paid
  paid_found h =
      let same : p.user_id ≡ c.user_id = find_profile-user_id c.user_id db.profiles p h in
      let moved = find_profile-replace_profile c.user_id paid db.profiles in
      ground (arith, same, moved, h)

  -- the database after the refund
  abbrev pub after_refund : Db
  after_refund =
      let d = after_deduction clock c p db in
      record d {
        profiles = replace_profile (record paid { balance = p.balance }) d.profiles;
        processed = command_row (refund_of c k) p.balance ∷ d.processed;
        transactions =
            record {
              id = d.next_id;
              user_id = c.user_id;
              type = refund;
              points = c.amount;
              balance_after = p.balance;
              order_id = some c.order_id;
            }
            ∷ d.transactions;
        debits =
            record { debit_id = db.next_id; refund_id = some d.next_id }
            ∷ update_where (is_unlinked db.next_id) (λ x. record x { refund_id = some d.next_id })
                db.debits;
        next_id = d.next_id + 1;
      }

  booked :
      fits p ≡ true
      → find_first (is_checkout db.next_id) db.debits ≡ none
      → book_refund
          (refund_of c k)
          paid
          db.next_id
          p.balance
          (record (after_deduction clock c p db) {
            processed =
                command_row (refund_of c k) p.balance ∷ (after_deduction clock c p db).processed;
          })
        ≡ done (accepted p.balance) after_refund
  unfolding book_refund link_refund count_where update_where update_profile create_transaction
  booked wide first =
      let row = still_fits p (record paid { balance = p.balance }) wide refl refl refl refl in
      rw (row, update_profile)
        (rw (==-refl db.next_id, none_unlinked db.next_id db.debits first, link_refund) refl)

  refunded :
      IsCovered c p db
      → IsFirstCheckout c k db
      → refund_debit (refund_of c k) [] paid debit (after_deduction clock c p db)
        ≡ done (accepted p.balance) after_refund
  unfolding refund_debit find_first claim_point_command claim_after_race find_processed
  refunded (fresh, found, wide, enough, enough2)
        (other_key, new_key, no_debit, no_refund, no_checkout) =
      let same : eqb_ℤ c.amount (neg (neg c.amount)) ≡ true =
        rw (neg-neg c.amount) (eqb_ℤ-refl c.amount) in
      rw (==-refl c.user_id, ==-refl c.order_id, no_refund, refund_debit)
        (rw (==-refl db.next_id) (
          rw same (
            rw (minus_neg p.balance c.amount) (
              rw (fits-balance p wide, claim_point_command)
                (rw (other_key, new_key, claim_after_race) (booked wide no_checkout))))))

  answered :
      IsCovered c p db
      → IsFirstCheckout c k db
      → refund_body (refund_of c k) [] (after_deduction clock c p db)
        ≡ done (accepted p.balance) after_refund
  unfolding refund_body refund_fresh refund_from replay_point_command lock_loyalty_profile
      find_processed
  answered (fresh, found, wide, enough, enough2)
        (other_key, new_key, no_debit, no_refund, no_checkout) =
      let q = paid_found found in
      rw (q, refund_body)
        (rw (other_key, new_key, replay_point_command)
          (rw (q, refund_fresh)
            (rw (debit_found (omega (arith, enough)) no_debit, refund_from)
              (refunded (fresh, found, wide, enough, enough2)
                (other_key, new_key, no_debit, no_refund, no_checkout)))))

  balances :
      find_profile c.user_id db.profiles ≡ some p
      → (v : Uuid) → balance_of v after_refund.profiles ≡ balance_of v db.profiles
  balances found v =
      let same : p.user_id ≡ c.user_id = find_profile-user_id c.user_id db.profiles p found in
      let first = balance_of-replace_profile c.user_id paid p v db.profiles found same in
      let second =
        balance_of-replace_profile c.user_id (record paid { balance = p.balance }) paid v
          (replace_profile paid db.profiles) (paid_found found) same in
      let before = balance_of-found c.user_id db.profiles p found in
      ground (arith, first, second, before)

  -- A deduction that is accepted can be taken back: the refund of its amount to the same order, under
  -- a key of its own, is accepted on the database that the deduction leaves, answers with the balance
  -- from before it, and gives every user the balance from before it. The order has no other debit and
  -- no refund.
  pub refund_body-restores :
      IsCovered c p db
      → IsFirstCheckout c k db
      → (d : Db) × (d' : Db) × (deduct_body clock c [] db
          ≡ done (accepted (p.balance -ℤ c.amount)) d)
        × (refund_body (refund_of c k) [] d ≡ done (accepted p.balance) d')
        × ((v : Uuid) → balance_of v d'.profiles ≡ balance_of v db.profiles)
  refund_body-restores covered first = (
    after_deduction clock c p db,
    after_refund,
    deduct_body-accepted clock c p db covered,
    answered covered first,
    λ v. balances covered.1 v,
  )
