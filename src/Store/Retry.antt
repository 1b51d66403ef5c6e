-- ===== src/Store/Retry.antt =====
-- How often a transaction runs.
use cinema_loyalty_service.Prelude.{
  Bool, some, ◌∙◌, none, ℕ, zero, suc, ◌≡◌, refl, true, false, List, Bool-cases, inl, inr, ◌⊎◌,
}
use cinema_loyalty_service.Store.Tx.{
  run_attempt-thrown, add_processed, run_attempt-undisturbed, Keeps, run_attempt-Keeps, Tx, Attempt,
  Answer, returned, raised, Failure, done, thrown, run_attempt, retry_from, is_retryable_conflict,
  rolled_back, with_transaction_retry, Outcome-cases,
}
use cinema_loyalty_service.Store.Types.{Db, ProcessedEvent}

-- How the loop of transactions ends, attempt by attempt.
pub data Ends {A : Type 0} (operation : List ProcessedEvent → Tx A) (env : ℕ → Attempt)
    : ℕ → Db → Answer A → Db → Type 0 where
  committed :
      (left : ℕ) (db d : Db) (r : A)
      → run_attempt operation (env left) db ≡ done r d
      → Ends operation env left db (returned r) d
  gave_up :
      (left : ℕ) (db : Db) (e : Failure)
      → run_attempt operation (env left) db ≡ thrown e
      → (is_retryable_conflict e ≡ false) ⊎ (left ≡ 0)
      → Ends operation env left db (raised e) (rolled_back (env left) db)
  retried :
      (left : ℕ) (db d : Db) (e : Failure) (a : Answer A)
      → run_attempt operation (env (suc left)) db ≡ thrown e
      → is_retryable_conflict e ≡ true
      → Ends operation env left (rolled_back (env (suc left)) db) a d
      → Ends operation env (suc left) db a d

module _ {A : Type 0} (operation : List ProcessedEvent → Tx A) (env : ℕ → Attempt) where
  retry_from-Ends :
      (left : ℕ) (db : Db)
      → Ends operation env left db
          (retry_from left env operation db).0
          (retry_from left env operation db).1
  unfolding retry_from
  retry_from-Ends zero db = elim (Outcome-cases (run_attempt operation (env 0) db)) [
    | inl (e, q) ↦ rw (q, retry_from) (gave_up 0 db e q (inr refl))
    | inr (r, d, q) ↦ rw (q, retry_from) (committed 0 db d r q)
  ]
  retry_from-Ends (suc left) db =
      let again = retry_from-Ends left (rolled_back (env (suc left)) db) in
      elim (Outcome-cases (run_attempt operation (env (suc left)) db)) [
        | inr (r, d, q) ↦ rw (q, retry_from) (committed (suc left) db d r q)
        | inl (e, q) ↦ elim (Bool-cases (is_retryable_conflict e)) [
          | inl conflict ↦ rw (q, retry_from, conflict) (retried left db _ e _ q conflict again)
          | inr other ↦ rw (q, retry_from, other) (gave_up (suc left) db e q (inl other))
        ]
      ]

-- A transaction ends in the result of the first attempt that commits, or in the first failure that
-- is no conflict or is that of the third attempt; the attempts before it were all undone, and it
-- runs at most three times.
pub with_transaction_retry-Ends :
    {A : Type 0} (operation : List ProcessedEvent → Tx A) (env : ℕ → Attempt) (db : Db)
    → Ends operation env 2 db
        (with_transaction_retry env operation db).0
        (with_transaction_retry env operation db).1
unfolding with_transaction_retry
with_transaction_retry-Ends operation env db = retry_from-Ends operation env 2 db

-- What the other sessions commit keeps a predicate.
abbrev pub IsFair : (Db → Type 0) → (ℕ → Attempt) → Type 0
IsFair P env = (n : ℕ) (db : Db) → P db → P ((env n).before db)

-- An attempt that no other session disturbs and that the database commits.
abbrev pub IsUndisturbed : Attempt → Type 0
IsUndisturbed a = ((db : Db) → a.before db ≡ db) × (a.fault ≡ none)

module _ {A : Type 0} (P Q : Db → Type 0) (operation : List ProcessedEvent → Tx A)
    (env : ℕ → Attempt) (others : (n : ℕ) (db : Db) → P db → P ((env n).before db))
    (rows : (n : ℕ) (db : Db) → P db → P (add_processed (env n).raced db))
    (keeps : (n : ℕ) (db : Db) → P db → Keeps Q (operation (env n).raced db)) where
  Ends-Keeps :
      (left : ℕ) (db d : Db) (a : Answer A) (r : A)
      → Ends operation env left db a d
      → P db
      → a ≡ returned r
      → Q d
  Ends-Keeps left db d a r (committed _ _ _ s q) h e =
      rw q at (run_attempt-Keeps Q operation (env left) db (keeps left _ (others left db h)))
  Ends-Keeps left db d a r (gave_up _ _ f q stop) h e = cc
  Ends-Keeps left db d a r (retried rest _ _ f _ q conflict more) h e =
      Ends-Keeps rest _ d a r more (rows (suc rest) _ (others (suc rest) db h)) e

  -- A transaction that returns satisfies what every commit of its operation does, on the databases
  -- that the other sessions and the attempts that were undone leave.
  pub with_transaction_retry-committed :
      (db : Db) (r : A)
      → P db
      → (with_transaction_retry env operation db).0 ≡ returned r
      → Q (with_transaction_retry env operation db).1
  with_transaction_retry-committed db r h e =
      Ends-Keeps 2 db _ _ r (with_transaction_retry-Ends operation env db) h e

-- The same for a condition that every commit satisfies.
pub with_transaction_retry-returned :
    {A : Type 0} (Q : Db → Type 0) (operation : List ProcessedEvent → Tx A) (env : ℕ → Attempt)
    → ((n : ℕ) (db : Db) → Keeps Q (operation (env n).raced db))
    → (db : Db) (r : A) → (with_transaction_retry env operation db).0 ≡ returned r
    → Q (with_transaction_retry env operation db).1
with_transaction_retry-returned Q operation env keeps db r e =
    with_transaction_retry-committed (λ d. Unit) Q operation env (λ n d h. tt) (λ n d h. tt)
      (λ n d h. keeps n d) db r tt e

-- An operation that commits in the first attempt, with no other session, answers at once.
pub with_transaction_retry-undisturbed :
    {A : Type 0} (operation : List ProcessedEvent → Tx A) (env : ℕ → Attempt) (db d : Db) (r : A)
    → IsUndisturbed (env 2)
    → operation (env 2).raced db ≡ done r d
    → with_transaction_retry env operation db ≡ (returned r, d)
unfolding with_transaction_retry retry_from
with_transaction_retry-undisturbed operation env db d r (same, sound) h =
    rw (run_attempt-undisturbed operation (env 2) db (same db) sound ∙ h, retry_from) refl

module _ {A : Type 0} (bad : Failure → Bool) (operation : List ProcessedEvent → Tx A)
    (env : ℕ → Attempt)
    (throws : (n : ℕ) (db : Db) (e : Failure)
      → operation (env n).raced db ≡ thrown e
      → bad e ≡ false)
    (faults : (n : ℕ) (e : Failure) → (env n).fault ≡ some e → bad e ≡ false) where
  Ends-raised :
      (left : ℕ) (db d : Db) (a : Answer A) (e : Failure)
      → Ends operation env left db a d
      → a ≡ raised e
      → bad e ≡ false
  Ends-raised left db d a e (committed _ _ _ s q) h = cc
  Ends-raised left db d a e (gave_up _ _ f q stop) h =
      let same : f ≡ e = cc in
      elim (run_attempt-thrown operation (env left) db f q) [
        | inl own ↦ rw (← same) (throws left _ f own)
        | inr late ↦ rw (← same) (faults left f late)
      ]
  Ends-raised left db d a e (retried rest _ _ f _ q conflict more) h =
      Ends-raised rest _ d a e more h

  -- A transaction raises only what its operation throws or what the database does at a commit.
  pub with_transaction_retry-raised :
      (db : Db) (e : Failure)
      → (with_transaction_retry env operation db).0 ≡ raised e
      → bad e ≡ false
  with_transaction_retry-raised db e h =
      Ends-raised 2 db _ _ e (with_transaction_retry-Ends operation env db) h
