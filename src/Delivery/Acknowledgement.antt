-- ===== src/Delivery/Acknowledgement.antt =====
-- When the loop of `handle` acknowledges a message.
use cinema_loyalty_service.Prelude.{
  ℕ, ◌≡◌, refl, ◌⊎◌, inl, inr, Bool, true, false, ◌||◌, Option, none, some, List, [], ◌∷◌, is_some,
}
use cinema_loyalty_service.Delivery.{
  DeliveryOperation, DeliveryOptions, Delivery, Verdict, acknowledged, waiting, working, poll,
}
use cinema_loyalty_service.Delivery.Budget.{poll-acknowledged}
use cinema_loyalty_service.Delivery.Handle.{
  is_outage, Pass, acked, Handled, Loop, run_work, after_poll, admitted_row, pass, handle_from,
  handle,
}
use cinema_loyalty_service.Store.Tx.{Failure}
use cinema_loyalty_service.Store.Types.{Instant}

-- The work ended well in this loop, or the row says that the message is done or put aside.
abbrev pub IsAccounted : Handled → Type 0
IsAccounted h =
    (h.succeeded ≡ true)
    ⊎ ((d : Delivery) × (h.row ≡ some d)
        × ((is_some d.completed_at || is_some d.quarantined_at) ≡ true))

abbrev IsSafe : Handled → Type 0
IsSafe h = h.ending ≡ acked → IsAccounted h

module _ (o : DeliveryOptions) (p : Pass) (next : Loop → Option Delivery → Handled)
    (rest : (l : Loop) (row : Option Delivery) → IsSafe (next l row)) where
  run_work-IsSafe : (l : Loop) (d : Delivery) → IsSafe (run_work o p next l d)
  unfolding run_work
  run_work-IsSafe l d = cases p.aborted_in_work refl p.work refl
    where
      cases :
          (b : Bool)
          → p.aborted_in_work ≡ b
          → (w : Option Failure) → p.work ≡ w
          → IsSafe (run_work o p next l d)
      cases true gone w e = rw (gone, run_work) (λ h. cc)
      cases false here none e = rw (here, run_work) (rw e (λ h. inl refl))
      cases false here (some f) e = rw (here, run_work) (rw e (rest _ _))

  after_poll-IsSafe :
      (l : Loop) (token : ℕ) (now : Instant) (d : Delivery)
      → IsSafe (after_poll o p next l (poll o now token d))
  unfolding after_poll
  after_poll-IsSafe l token now d = cases (poll o now token d) refl
    where
      cases : (x : Delivery × Verdict) → poll o now token d ≡ x → IsSafe (after_poll o p next l x)
      cases (e, acknowledged) q =
          let settled = poll-acknowledged o now token d (rw q refl) in
          λ h. inr (e, refl, rw q at settled)
      cases (e, waiting) q = rest _ _
      cases (e, working) q = run_work-IsSafe l e

  pass-IsSafe :
      (op : DeliveryOperation) (l : Loop) (row : Option Delivery) → IsSafe (pass o op p next l row)
  unfolding pass after_poll run_work
  pass-IsSafe op l row =
      cases p.aborted refl (is_outage p.outage) refl (admitted_row o op p l row) refl
    where
      cases :
          (a : Bool)
          → p.aborted ≡ a
          → (b : Bool) → is_outage p.outage ≡ b
          → (r : Option Delivery) → admitted_row o op p l row ≡ r
          → IsSafe (pass o op p next l row)
      cases true gone b e r q = rw (gone, pass) (λ h. cc)
      cases false going true e r q = rw (going, pass) (rw e (rest _ _))
      cases false going false e none q = rw (q, pass) (rw going (rw e (rest _ _)))
      cases false going false e (some d) q =
          rw (q, pass)
            (rw going (rw e (after_poll-IsSafe (record l { admitted = true }) p.token l.clock d)))

handle_from-IsSafe :
    (o : DeliveryOptions) (op : DeliveryOperation) (ps : List Pass) (l : Loop)
    (row : Option Delivery)
    → IsSafe (handle_from o op ps l row)
unfolding handle_from
handle_from-IsSafe o op [] l row = λ h. cc
handle_from-IsSafe o op (p ∷ ps) l row =
    pass-IsSafe o p (handle_from o op ps) (handle_from-IsSafe o op ps) op l row

-- No message is acknowledged unless its work has ended well in this loop or its row, as it then is,
-- says that it is completed or quarantined: whatever other consumers do, whichever statements fail
-- and whenever the service shuts down.
pub handle-IsAccounted :
    (o : DeliveryOptions) (op : DeliveryOperation) (ps : List Pass) (now : Instant)
    (row : Option Delivery)
    → (handle o op ps now row).ending ≡ acked
    → IsAccounted (handle o op ps now row)
unfolding handle
handle-IsAccounted o op ps now row h = handle_from-IsSafe o op ps _ row h
