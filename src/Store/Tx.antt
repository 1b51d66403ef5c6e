-- ===== src/Store/Tx.antt =====
-- A database transaction as a state monad with failure, and the retry loop around it
-- (src/prisma/profile-transaction.ts). A failure carries no database: the transaction is rolled
-- back.
use cinema_loyalty_service.Prelude.{
  ◌∙◌, arith, ℕ, zero, suc, ◌-◌, ◌≡◌, refl, Bool, true, false, Option, none, some, if◌then◌else◌,
  List, ◌++◌, ◌⊎◌, inl, inr, Bool-cases,
}
use cinema_loyalty_service.Store.Types.{Db, ProcessedEvent}

-- the Prisma and socket codes that the program names
pub data ErrorCode : Type 0 where
  p1001 p1002 p1008 p1017 p2002 p2010 p2020 p2024 p2025 p2034 : ErrorCode
  econnreset etimedout other_code : ErrorCode

-- the SQLSTATE in a driver error's cause
pub data SqlState : Type 0 where
  s40001 s40p01 other_state : SqlState

pub data GrpcStatus : Type 0 where
  invalid_argument not_found already_exists failed_precondition internal unauthenticated :
      GrpcStatus

pub data PermanentCode : Type 0 where
  accounting_range_exceeded invalid_purchase_payload invalid_dob_payload : PermanentCode
  invalid_date_of_birth purchase_idempotency_conflict : PermanentCode

-- ERROR_MESSAGES, and the other texts of responses and of thrown errors
pub data Message : Type 0 where
  no_message profile_not_found insufficient_points internal_error not_gold_tier : Message
  gold_quota_exceeded gold_reservation_released gold_reservation_not_found : Message
  gold_legacy_reconciliation internal_gold_upgrade internal_gold_rollback internal_refund : Message
  refund_debit_not_found refund_amount_mismatch refund_already_compensated : Message
  refund_reconciliation invalid_point_command idempotency_conflict legacy_idempotency : Message
  minimum_deduction points_must_be_nonzero insufficient_for_deduction already_vip : Message
  modify_points_failed invalid_pagination command_result_missing command_disappeared : Message
  checkout_ownership_changed invalid_action_event key_used_for_point_command : Message
  achievement_exists achievement_not_found invalid_achievement : Message
  achievement_failures queue_unavailable invalid_api_key invalid_request_fields : Message
  internal_server_error : Message

pub data Failure : Type 0 where
  rpc_exception : GrpcStatus → Message → Failure
  permanent_message : PermanentCode → Failure
  known_request : ErrorCode → Option SqlState → Failure
  driver_adapter : Option SqlState → Failure
  plain_error : Message → Failure

pub data Outcome (A : Type 0) : Type 0 where
  done : A → Db → Outcome A
  thrown : Failure → Outcome A

abbrev pub Tx : Type 0 → Type 0
Tx A = Db → Outcome A

abbrev pub continue : {A B : Type 0} → (A → Tx B) → Outcome A → Outcome B
continue f (done a db) = f a db
continue f (thrown e) = thrown e

infixl 5 ◌>>=◌ ◌>>◌
abbrev pub ◌>>=◌ : {A B : Type 0} → Tx A → (A → Tx B) → Tx B
◌>>=◌ m f db = continue f (m db)

abbrev pub ◌>>◌ : {A B : Type 0} → Tx A → Tx B → Tx B
m >> k = m >>= λ _. k

module _ {A : Type 0} where
  abbrev pub pure : A → Tx A
  pure a db = done a db

  abbrev pub throw : Failure → Tx A
  throw e db = thrown e

  abbrev pub gets : (Db → A) → Tx A
  gets f db = done (f db) db

  -- an early `return` of a value that was found
  abbrev pub return_or : Option A → Tx A → Tx A
  return_or none k = k
  return_or (some a) k = pure a

abbrev pub modify : (Db → Db) → Tx (Unit {0})
modify f db = done tt (f db)

-- an `if (...) throw`
abbrev pub throw_if : Bool → Failure → Tx (Unit {0})
throw_if b e db = if b then thrown e else done tt db

abbrev is_postgres_conflict : Option SqlState → Bool
is_postgres_conflict (some s40001) = true
is_postgres_conflict (some s40p01) = true
is_postgres_conflict _ = false

pub is_retryable_conflict : Failure → Bool
is_retryable_conflict (driver_adapter cause) = is_postgres_conflict cause
is_retryable_conflict (known_request p2034 _) = true
is_retryable_conflict (known_request p2010 cause) = is_postgres_conflict cause
is_retryable_conflict _ = false

abbrev pub max_transaction_attempts : ℕ
max_transaction_attempts = 3

-- What surrounds one attempt: what other sessions committed before it, the rows of processed_events
-- that they commit while it runs, and a failure of the database at the commit.
pub record Attempt : Type 0 where
  pub before : Db → Db
  pub raced : List ProcessedEvent
  pub fault : Option Failure

abbrev pub add_processed : List ProcessedEvent → Db → Db
add_processed rows db = record db { processed = rows ++ db.processed }

-- A transaction that commits, commits a database that satisfies the invariant.
abbrev pub Keeps : {A : Type 0} → (Db → Type 0) → Outcome A → Type 0
Keeps P (done _ db) = P db
Keeps P (thrown _) = Unit

-- The rule for a statement and what follows it.
pub continue-Keeps :
    {A B : Type 0} (P : Db → Type 0) (k : A → Tx B) (o : Outcome A)
    → ((r : A) (db : Db) → o ≡ done r db → Keeps P (k r db))
    → Keeps P (continue k o)
continue-Keeps P k (done r db) h = h r db refl
continue-Keeps P k (thrown e) h = tt

pub Outcome-cases :
    {A : Type 0} (o : Outcome A)
    → ((e : Failure) × (o ≡ thrown e)) ⊎ ((r : A) × (db : Db) × (o ≡ done r db))
Outcome-cases (done r db) = inr (r, db, refl)
Outcome-cases (thrown e) = inl (e, refl)

-- What a call leaves behind: its answer or the error that it throws, and the database.
pub data Answer (A : Type 0) : Type 0 where
  returned : A → Answer A
  raised : Failure → Answer A

pub Answer-cases :
    {A : Type 0} (r : Answer A) → ((e : Failure) × (r ≡ raised e)) ⊎ ((a : A) × (r ≡ returned a))
Answer-cases (raised e) = inl (e, refl)
Answer-cases (returned a) = inr (a, refl)

-- the database after an attempt that was rolled back
abbrev pub rolled_back : Attempt → Db → Db
rolled_back a db = add_processed a.raced (a.before db)

module _ {A : Type 0} where
  -- the commit, which the database may refuse
  commit : Option Failure → Outcome A → Outcome A
  commit fault (thrown e) = thrown e
  commit none (done r db) = done r db
  commit (some e) (done r db) = thrown e

  -- one `prisma.$transaction(operation)`
  pub run_attempt : (List ProcessedEvent → Tx A) → Attempt → Db → Outcome A
  unfolding commit
  run_attempt operation a db = commit a.fault (operation a.raced (a.before db))

  -- The loop from attempt 3 - left on; `attempt >= MAX_TRANSACTION_ATTEMPTS` is `left ≡ 0`.
  unfoldable pub retry_from : ℕ → (ℕ → Attempt) → (List ProcessedEvent → Tx A) → Db → Answer A × Db
  unfolding run_attempt is_retryable_conflict
  retry_from zero env operation db = elim (run_attempt operation (env 0) db) [
    | done r db' ↦ (returned r, db')
    | thrown e ↦ (raised e, rolled_back (env 0) db)
  ]
  retry_from (suc left) env operation db =
      let again = retry_from left env operation (rolled_back (env (suc left)) db) in
      elim (run_attempt operation (env (suc left)) db) [
        | done r db' ↦ (returned r, db')
        | thrown e ↦
            if is_retryable_conflict e then again else (raised e, rolled_back (env (suc left)) db)
      ]

  -- `env 2`, `env 1` and `env 0` surround the first, the second and the third attempt.
  unfoldable pub with_transaction_retry :
      (ℕ → Attempt) → (List ProcessedEvent → Tx A) → Db → Answer A × Db
  unfolding retry_from
  with_transaction_retry env operation db =
      retry_from (max_transaction_attempts - 1) env operation db

  commit-Keeps :
      (P : Db → Type 0) (fault : Option Failure) (o : Outcome A)
      → Keeps P o
      → Keeps P (commit fault o)
  unfolding commit
  commit-Keeps P fault (thrown e) h = tt
  commit-Keeps P none (done r db) h = h
  commit-Keeps P (some e) (done r db) h = tt

  pub run_attempt-Keeps :
      (P : Db → Type 0) (operation : List ProcessedEvent → Tx A) (a : Attempt) (db : Db)
      → Keeps P (operation a.raced (a.before db))
      → Keeps P (run_attempt operation a db)
  unfolding run_attempt
  run_attempt-Keeps P operation a db h = commit-Keeps P a.fault _ h

  pub run_attempt-undisturbed :
      (operation : List ProcessedEvent → Tx A) (a : Attempt) (db : Db)
      → a.before db ≡ db
      → a.fault ≡ none
      → run_attempt operation a db ≡ operation a.raced db
  unfolding run_attempt commit
  run_attempt-undisturbed operation a db same sound =
      rw (same, run_attempt) (rw sound (kept (operation a.raced db)))
    where
      kept : (o : Outcome A) → commit none o ≡ o
      kept (done r d) = refl
      kept (thrown e) = refl

  -- An invariant that the other sessions and the operation keep holds after the loop, whatever
  -- fails and however often it runs.
  pub retry_from_inv :
      (P : Db → Type 0) (env : ℕ → Attempt) (operation : List ProcessedEvent → Tx A)
      → ((n : ℕ) (db : Db) → P db → P ((env n).before db))
      → ((n : ℕ) (db : Db) → P db → P (add_processed (env n).raced db))
      → ((n : ℕ) (db : Db) → P db → Keeps P (operation (env n).raced db))
      → (left : ℕ) (db : Db) → P db
      → P (retry_from left env operation db).1
  unfolding retry_from
  retry_from_inv P env operation others rows keeps zero db h =
      let kept = run_attempt-Keeps P operation (env 0) db (keeps 0 _ (others 0 db h)) in
      elim (Outcome-cases (run_attempt operation (env 0) db)) [
        | inl (e, q) ↦ rw (q, retry_from) (rows 0 _ (others 0 db h))
        | inr (r, db', q) ↦ rw (q, retry_from) (rw q at kept)
      ]
  retry_from_inv P env operation others rows keeps (suc left) db h =
      let back = rows (suc left) _ (others (suc left) db h) in
      let again = retry_from_inv P env operation others rows keeps left _ back in
      let kept = run_attempt-Keeps P operation (env (suc left)) db (keeps _ _ (others _ db h)) in
      elim (Outcome-cases (run_attempt operation (env (suc left)) db)) [
        | inl (e, q) ↦
            rw (q, retry_from)
              (elim (Bool-cases (is_retryable_conflict e)) [
                | inl yes_again ↦ rw yes_again again
                | inr stop ↦ rw stop back
              ])
        | inr (r, db', q) ↦ rw (q, retry_from) (rw q at kept)
      ]

  -- An attempt fails as its operation does, or at its commit.
  pub run_attempt-thrown :
      (operation : List ProcessedEvent → Tx A) (a : Attempt) (db : Db) (e : Failure)
      → run_attempt operation a db ≡ thrown e
      → (operation a.raced (a.before db) ≡ thrown e) ⊎ (a.fault ≡ some e)
  unfolding run_attempt commit
  run_attempt-thrown operation a db e h = split (operation a.raced (a.before db)) refl a.fault refl
    where
      split :
          (o : Outcome A)
          → operation a.raced (a.before db) ≡ o
          → (fault : Option Failure) → a.fault ≡ fault
          → (operation a.raced (a.before db) ≡ thrown e) ⊎ (a.fault ≡ some e)
      split (thrown f) q fault k = inl (q ∙ (rw (q, run_attempt) at h))
      split (done r d) q none k = let h' = rw (q, run_attempt, k) at h in cc
      split (done r d) q (some f) k =
          let h' = rw (q, run_attempt, k) at h in inr (ground (arith, k, h'))
