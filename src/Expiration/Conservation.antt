-- ===== src/Expiration/Conservation.antt =====
-- The scheduled jobs and the ledger.
use cinema_loyalty_service.Prelude.{
  ℕ, zero, suc, ◌+◌, ◌≡◌, ◌==◌, refl, some, Bool-cases, Option-cases, inl, inr, List, [], ◌∷◌, Bool,
  Option, pos, neg, ◌∙◌, ◌+ℤ◌, ℤ, int_laws, arith, map, if◌then◌else◌,
}
use cinema_loyalty_service.Expiration.{
  is_expired, book_expiration, expire_body, reset_body, used_before, gold_reset_body, Progress,
  run_batch, scan, next_batch, mark_notified, notify_from, wants_notice, Notice,
}
use cinema_loyalty_service.Ledger.Steps.{
  LedgerStep, LedgerStep_same, unposted, replace_profile-posted, replace_profile-unposted,
}
use cinema_loyalty_service.Store.Profiles.{
  balance_of, find_profile, find_profile-user_id, update_profile-Keeps, create_transaction,
}
use cinema_loyalty_service.Store.Tx.{Keeps, Answer, returned, raised}
use cinema_loyalty_service.Store.Types.{Db, Uuid, Profile, Instant, MonthKey}

spent : (b : ℤ) → pos 0 ≡ b +ℤ neg b
spent b = omega int_laws

book_expiration-LedgerStep :
    (u : Uuid) (p : Profile) (db : Db)
    → find_profile u db.profiles ≡ some p
    → p.user_id ≡ u
    → Keeps (LedgerStep db) (book_expiration p db)
unfolding book_expiration create_transaction
book_expiration-LedgerStep u p db found own =
    let q : Profile = record p { balance = pos 0 } in
    update_profile-Keeps (LedgerStep db) q _ db (λ ok.
      replace_profile-posted u p q _ _ _ found refl own (spent p.balance) (λ h. omega int_laws))

-- Every run of an expiration that commits is a step of the ledger.
pub expire_body-LedgerStep :
    (now : Instant) (u : Uuid) (db : Db) → Keeps (LedgerStep db) (expire_body now u db)
unfolding expire_body
expire_body-LedgerStep now u db = elim (Option-cases (find_profile u db.profiles)) [
  | inl missing ↦ rw (missing, expire_body) LedgerStep_same
  | inr (p, found) ↦ elim (Bool-cases (is_expired now p)) [
    | inl ripe ↦
        rw (found, expire_body, ripe)
          (book_expiration-LedgerStep u p db found (find_profile-user_id u _ p found))
    | inr unripe ↦ rw (found, expire_body, unripe) LedgerStep_same
  ]
]

-- The annual reset moves no points.
pub reset_body-LedgerStep : (u : Uuid) (db : Db) → Keeps (LedgerStep db) (reset_body u db)
unfolding reset_body
reset_body-LedgerStep u db = elim (Option-cases (find_profile u db.profiles)) [
  | inl missing ↦ rw (missing, reset_body) LedgerStep_same
  | inr (p, found) ↦
      rw (found, reset_body)
        (update_profile-Keeps (LedgerStep db) _ _ _
          (λ ok. replace_profile-unposted u p _ _ _ found refl refl))
]

-- The monthly reset moves no points.
pub gold_reset_body-LedgerStep :
    (m : MonthKey) (u : Uuid) (db : Db) → Keeps (LedgerStep db) (gold_reset_body m u db)
unfolding gold_reset_body
gold_reset_body-LedgerStep m u db = elim (Option-cases (find_profile u db.profiles)) [
  | inl missing ↦ rw (missing, gold_reset_body) LedgerStep_same
  | inr (p, found) ↦ elim (Bool-cases (used_before m p.gold_upgrade_used_month)) [
    | inl old ↦
        rw (found, gold_reset_body, old)
          (update_profile-Keeps (LedgerStep db) _ _ _
            (λ ok. replace_profile-unposted u p _ _ _ found refl refl))
    | inr new ↦ rw (found, gold_reset_body, new) LedgerStep_same
  ]
]

module _ (P : Db → Type 0) (work : Profile → Db → Progress)
    (keeps : (p : Profile) (db : Db) → P db → P (work p db).1) where
  run_batch_inv :
      (ps : List Profile) (total : ℕ) (db : Db) → P db → P (run_batch work ps total db).1
  unfolding run_batch
  run_batch_inv [] total db h = h
  run_batch_inv (p ∷ ps) total db h =
      cases (λ n d. run_batch_inv ps (total + n) d) (work p db).0 refl
    where
      cases :
          ((n : ℕ) (d : Db) → P d → P (run_batch work ps (total + n) d).1)
          → (x : Answer ℕ) → (work p db).0 ≡ x
          → P (run_batch work (p ∷ ps) total db).1
      cases rest (returned n) e = rw (e, run_batch) (rest n _ (keeps p db h))
      cases rest (raised f) e = rw (e, run_batch) (keeps p db h)

  -- What the work on each profile keeps, a scan keeps, wherever a failure stops it.
  pub scan_inv :
      (wanted : Profile → Bool) (fuel : ℕ) (cursor : Option ℕ) (total : ℕ) (db : Db)
      → P db
      → P (scan wanted work fuel cursor total db).1
  unfolding scan
  scan_inv wanted zero cursor total db h = h
  scan_inv wanted (suc fuel) cursor total db h =
      batch (λ c n d. scan_inv wanted fuel c n d) (next_batch wanted cursor db) refl
    where
      after :
          ((c : Option ℕ) (n : ℕ) (d : Db) → P d → P (scan wanted work fuel c n d).1)
          → (p : Profile) (ps : List Profile) (x : Answer ℕ)
          → (run_batch work (p ∷ ps) total db).0 ≡ x
          → next_batch wanted cursor db ≡ p ∷ ps
          → P (scan wanted work (suc fuel) cursor total db).1
      after rest p ps (returned n) e b =
          rw (b, scan, e) (rest _ n _ (run_batch_inv (p ∷ ps) total db h))
      after rest p ps (raised f) e b = rw (b, scan, e) (run_batch_inv (p ∷ ps) total db h)

      batch :
          ((c : Option ℕ) (n : ℕ) (d : Db) → P d → P (scan wanted work fuel c n d).1)
          → (l : List Profile) → next_batch wanted cursor db ≡ l
          → P (scan wanted work (suc fuel) cursor total db).1
      batch rest [] b = rw (b, scan) h
      batch rest (p ∷ ps) b = after rest p ps _ refl b

marked_balances :
    (now n : ℕ) (rows : List Profile) (v : Uuid)
    → balance_of v (
        map
          (λ (q : Profile).
            if q.id == n then record q { last_expiry_notification_at = some now } else q)
          rows)
      ≡ balance_of v rows
unfolding balance_of find_profile
marked_balances now n [] v = refl
marked_balances now n (q ∷ rows) v = ground (arith, marked_balances now n rows v)

mark_notified-balances :
    (now : Instant) (ps rows : List Profile) (v : Uuid)
    → balance_of v (mark_notified now ps rows) ≡ balance_of v rows
unfolding mark_notified
mark_notified-balances now [] rows v = refl
mark_notified-balances now (p ∷ ps) rows v =
    mark_notified-balances now ps _ v ∙ marked_balances now p.id rows v

-- Notices move no points.
pub notify_from_inv :
    (P : Db → Type 0)
    → ((db d : Db) → LedgerStep db d → P db → P d)
    → (now : Instant) (fuel : ℕ) (cursor : Option ℕ) (sent : List Notice) (db : Db) → P db
    → P (notify_from now fuel cursor sent db).1
unfolding notify_from
notify_from_inv P step now zero cursor sent db h = h
notify_from_inv P step now (suc fuel) cursor sent db h =
    batch (λ c n d. notify_from_inv P step now fuel c n d) (next_batch (wants_notice now) cursor db)
      refl
  where
    batch :
        ((c : Option ℕ) (n : List Notice) (d : Db) → P d → P (notify_from now fuel c n d).1)
        → (l : List Profile) → next_batch (wants_notice now) cursor db ≡ l
        → P (notify_from now (suc fuel) cursor sent db).1
    batch rest [] b = rw (b, notify_from) h
    batch rest (p ∷ ps) b =
        rw (b, notify_from)
          (rest _ _ _
            (step db _ (unposted (mark_notified-balances now (p ∷ ps) db.profiles) refl) h))
