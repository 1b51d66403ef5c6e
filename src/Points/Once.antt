-- ===== src/Points/Once.antt =====
-- One refund for an order.
use cinema_loyalty_service.Prelude.{
  ℕ, Text, ℤ, ◌≡◌, ◌≤◌, refl, sym, subst, true, false, some, none, inl, inr, Bool-cases,
  Option-cases, Option, List, [], ◌∷◌, arith, is_some, find_first, count_where,
  find_first-count_where, Bool, ◌==◌, eqb_ℤ, neg, ◌-ℤ◌, take, select,
}
use cinema_loyalty_service.Store.Types.{Db, Uuid, Profile, PointsTransaction, ProcessedEvent}
use cinema_loyalty_service.Store.Tx.{
  Keeps, Attempt, retry_from_inv, with_transaction_retry, continue-Keeps, return_or,
}
use cinema_loyalty_service.Store.Profiles.{find_profile, lock_loyalty_profile, update_profile-Keeps}
use cinema_loyalty_service.Store.Rules.{Keeps-mono}
use cinema_loyalty_service.Points.Command.{
  RawCommand, parse_point_command, PointCommand, PointResult, replay_point_command,
  claim_point_command, replay_point_command_reads, claim_point_command_writes,
}
use cinema_loyalty_service.Points.Refund.{
  refund_points, is_refund_of, is_debit_of, is_checkout, is_linked, is_unlinked, link_refund,
  book_refund, refund_debit, refund_from, refund_fresh, refund_body,
}

-- At most one refund is booked for an order of a user.
abbrev pub IsRefundedOnce : List PointsTransaction → Type 0
IsRefundedOnce ts = (u o : Uuid) → count_where (is_refund_of u o) ts ≤ 1

abbrev KeepsOnce : Db → Db → Type 0
KeepsOnce db d = IsRefundedOnce db.transactions → IsRefundedOnce d.transactions

refunded-IsRefundedOnce :
    (c : PointCommand) (t : PointsTransaction) (ts : List PointsTransaction)
    → t.user_id ≡ c.user_id
    → t.order_id ≡ some c.order_id
    → find_first (is_refund_of c.user_id c.order_id) ts ≡ none
    → IsRefundedOnce ts
    → IsRefundedOnce (t ∷ ts)
unfolding count_where
refunded-IsRefundedOnce c t ts own of free h u o =
    let none_yet = find_first-count_where (is_refund_of c.user_id c.order_id) ts free in
    elim (Bool-cases (is_refund_of u o t)) [
      | inl same ↦
          let (mine, at) = refund_of u o same in
          let none_here : count_where (is_refund_of u o) ts ≡ 0 =
            subst (λ v. count_where (is_refund_of v o) ts ≡ 0) (sym mine)
              (subst (λ n. count_where (is_refund_of c.user_id n) ts ≡ 0) (sym at) none_yet) in
          rw same (omega (arith, none_here))
      | inr other ↦ rw other (omega (arith, h u o))
    ]
  where
    refund_of : (u o : Uuid) → is_refund_of u o t ≡ true → (u ≡ c.user_id) × (o ≡ c.order_id)
    refund_of u o h = ground arith

book_refund-IsRefundedOnce :
    (c : PointCommand) (p : Profile) (debit : ℕ) (after : ℤ) (db : Db)
    → find_first (is_refund_of c.user_id c.order_id) db.transactions ≡ none
    → Keeps (KeepsOnce db) (book_refund c p debit after db)
unfolding book_refund link_refund
book_refund-IsRefundedOnce c p debit after db free =
    let q : Profile = record p { balance = after } in
    update_profile-Keeps (KeepsOnce db) q _ db (λ ok.
      elim (Bool-cases (count_where (is_unlinked debit) db.debits == 1)) [
        | inr lost ↦ rw lost tt
        | inl owned ↦ rw owned (λ h. refunded-IsRefundedOnce c _ _ refl refl free h)
      ])

after_claim-IsRefundedOnce :
    (c : PointCommand) (p : Profile) (debit : ℕ) (after : ℤ) (db d : Db) (r : Option PointResult)
    → find_first (is_refund_of c.user_id c.order_id) db.transactions ≡ none
    → d ≡ record db { processed = d.processed }
    → Keeps (KeepsOnce db) (return_or r (book_refund c p debit after) d)
after_claim-IsRefundedOnce c p debit after db d (some r) free same = rw same (λ h. h)
after_claim-IsRefundedOnce c p debit after db d none free same =
    rw same
      (book_refund-IsRefundedOnce c p debit after (record db { processed = d.processed }) free)

refund_debit-IsRefundedOnce :
    (c : PointCommand) (raced : List ProcessedEvent) (p : Profile) (debit : PointsTransaction)
    (db : Db)
    → Keeps (KeepsOnce db) (refund_debit c raced p debit db)
unfolding refund_debit
refund_debit-IsRefundedOnce c raced p debit db =
    elim (Option-cases (find_first (is_refund_of c.user_id c.order_id) db.transactions)) [
      | inr (t, taken) ↦ rw taken (λ h. h)
      | inl free ↦ elim (Bool-cases (is_linked (find_first (is_checkout debit.id) db.debits))) [
        | inl linked ↦ rw (free, linked) (λ h. h)
        | inr first ↦ elim (Bool-cases (is_some (find_first (is_checkout debit.id) db.debits))) [
          | inr missing ↦ rw (free, first, missing) (λ h. h)
          | inl present ↦ elim (Bool-cases (eqb_ℤ c.amount (neg debit.points))) [
            | inr other ↦ rw (free, first, present, other) (λ h. h)
            | inl full ↦
                rw (free, first, present, full)
                  (continue-Keeps (KeepsOnce db) _
                    (claim_point_command c (p.balance -ℤ debit.points) raced db)
                    (λ r d e.
                      after_claim-IsRefundedOnce c p debit.id _ db d r free
                        (claim_point_command_writes c _ raced r db d e)))
          ]
        ]
      ]
    ]

refund_from-IsRefundedOnce :
    (c : PointCommand) (raced : List ProcessedEvent) (p : Profile) (db : Db)
    → Keeps (KeepsOnce db) (refund_from c raced p db)
unfolding refund_from
refund_from-IsRefundedOnce c raced p db =
    cases (take 2 (select (is_debit_of c.user_id c.order_id) db.transactions)) refl
  where
    cases :
        (l : List PointsTransaction)
        → take 2 (select (is_debit_of c.user_id c.order_id) db.transactions) ≡ l
        → Keeps (KeepsOnce db) (refund_from c raced p db)
    cases [] e = rw (e, refund_from) (λ h. h)
    cases (t ∷ []) e = rw (e, refund_from) (refund_debit-IsRefundedOnce c raced p t db)
    cases (t ∷ s ∷ l) e = rw (e, refund_from) (λ h. h)

refund_fresh-IsRefundedOnce :
    (c : PointCommand) (raced : List ProcessedEvent) (locked : Bool) (db : Db)
    → Keeps (KeepsOnce db) (refund_fresh c raced locked db)
unfolding refund_fresh
refund_fresh-IsRefundedOnce c raced false db = λ h. h
refund_fresh-IsRefundedOnce c raced true db =
    elim (Option-cases (find_profile c.user_id db.profiles)) [
      | inl missing ↦ rw (missing, refund_fresh) (λ h. h)
      | inr (p, found) ↦ rw (found, refund_fresh) (refund_from-IsRefundedOnce c raced p db)
    ]

refund_body-IsRefundedOnce :
    (c : PointCommand) (raced : List ProcessedEvent) (db : Db)
    → Keeps (KeepsOnce db) (refund_body c raced db)
unfolding refund_body lock_loyalty_profile
refund_body-IsRefundedOnce c raced db =
    continue-Keeps (KeepsOnce db) _ (replay_point_command c db)
      (λ r d e. rw (replay_point_command_reads c r db d e) (after_replay r))
  where
    after_replay :
        (r : Option PointResult)
        → Keeps
            (KeepsOnce db)
            (return_or r (refund_fresh c raced (is_some (find_profile c.user_id db.profiles))) db)
    after_replay none = refund_fresh-IsRefundedOnce c raced _ db
    after_replay (some r) = λ h. h

-- If no order of a user has two refunds, and the other sessions keep it so, then no refund request,
-- under any key and however often its transaction fails and is retried, books a second one.
pub refund_points-IsRefundedOnce :
    (uuid : Text → Option Uuid) (env : ℕ → Attempt) (input : RawCommand) (db : Db)
    → ((n : ℕ) (d : Db)
        → IsRefundedOnce d.transactions
        → IsRefundedOnce ((env n).before d).transactions)
    → IsRefundedOnce db.transactions
    → IsRefundedOnce (refund_points uuid env input db).1.transactions
unfolding refund_points with_transaction_retry
refund_points-IsRefundedOnce uuid env input db fair h =
    elim (Option-cases (parse_point_command uuid input)) [
      | inl wrong ↦ rw (wrong, refund_points) h
      | inr (c, parsed) ↦
          rw (parsed, refund_points)
            (retry_from_inv (λ d. IsRefundedOnce d.transactions) env (refund_body c) fair
              (λ n d k. k)
              (λ n d k.
                Keeps-mono (KeepsOnce d) (λ e. IsRefundedOnce e.transactions) _ (λ e keep. keep k)
                  (refund_body-IsRefundedOnce c (env n).raced d))
              2 db h)
    ]
