-- ===== src/Outbox.antt =====
-- The transactional outbox (src/loyalty/outbox-publisher.service.ts). Each statement acts on the
-- rows of outbox_events at an instant of the database's clock; several publishers interleave.
pub mod Lease
pub mod Waves
pub mod Runs
use cinema_loyalty_service.Prelude.{
  ◌/◌, ℕ, zero, suc, ◌+◌, ◌-◌, ◌*◌, ◌^◌, ◌≤◌, ◌<◌, min, max, Bool, true, false, ◌&&◌, ◌||◌, not,
  Option, none, some, if◌then◌else◌, List, [], ◌∷◌, ltb, leb, ◌==◌, map, is_some,
}
use cinema_loyalty_service.Store.Types.{
  OutboxEvent, OutboxStatus, pending, processing, completed, failed, Instant,
}

abbrev pub outbox_batch_size : ℕ
outbox_batch_size = 50

abbrev pub retry_base_ms : ℕ
retry_base_ms = 5000

abbrev pub retry_max_ms : ℕ
retry_max_ms = 60000

abbrev pub status_eq : OutboxStatus → OutboxStatus → Bool
status_eq pending pending = true
status_eq processing processing = true
status_eq completed completed = true
status_eq failed failed = true
status_eq _ _ = false

-- `LEAST(max, base * power(2, LEAST(GREATEST(attempts - 1, 0), 4)))`, in SQL
unfoldable pub sql_delay : ℕ → ℕ
sql_delay attempts = min retry_max_ms (retry_base_ms * 2 ^ min (max (attempts - 1) 0) 4)

-- `Math.min(max, base * 2 ** Math.min(attempts - 1, 4))`, in the publisher: the power is halved in
-- place of its exponent, which is -1 without an attempt
unfoldable pub publisher_delay : ℕ → ℕ
publisher_delay attempts = min retry_max_ms (retry_base_ms * 2 ^ min attempts 5 / 2)

abbrev pub lease_expired : Instant → OutboxEvent → Bool
lease_expired now e = elim e.lease_expires_at [ none ↦ false | some t ↦ leb t now ]

abbrev pub lease_live : Instant → OutboxEvent → Bool
lease_live now e = elim e.lease_expires_at [ none ↦ false | some t ↦ ltb now t ]

-- PENDING again, or FAILED once the attempts are used up; the lease is given up
unfoldable pub give_back : Instant → ℕ → OutboxEvent → OutboxEvent
give_back now delay e = record e {
  status = if leb e.max_attempts e.attempts then failed else pending;
  next_attempt_at = now + delay;
  lease_token = none;
  lease_expires_at = none;
}

-- the condition of `recoverExpiredClaims`: rows with no token are never taken back
unfoldable pub is_abandoned : Instant → OutboxEvent → Bool
is_abandoned now e = status_eq e.status processing && (is_some e.lease_token && lease_expired now e)

unfoldable pub recover_row : Instant → OutboxEvent → OutboxEvent
unfolding give_back sql_delay
recover_row now e = give_back now (sql_delay e.attempts) e

-- the condition of `failExhaustedPending`
unfoldable pub is_exhausted_pending : OutboxEvent → Bool
is_exhausted_pending e = status_eq e.status pending && leb e.max_attempts e.attempts

unfoldable pub fail_row : Instant → OutboxEvent → OutboxEvent
unfolding sql_delay
fail_row now e = record e {
  status = failed;
  next_attempt_at = now + sql_delay e.attempts;
  lease_token = none;
  lease_expires_at = none;
}

-- the condition of `claimEvents`
unfoldable pub is_claimable : Instant → OutboxEvent → Bool
is_claimable now e =
    status_eq e.status pending && (ltb e.attempts e.max_attempts && leb e.next_attempt_at now)

-- a claim, with the token that the database generates
unfoldable pub claim_row : Instant → ℕ → ℕ → OutboxEvent → OutboxEvent
claim_row now lease_ms token e = record e {
  status = processing;
  attempts = e.attempts + 1;
  lease_token = some token;
  lease_expires_at = some (now + lease_ms);
}

abbrev pub has_token : Option ℕ → ℕ → Bool
has_token none n = false
has_token (some m) n = m == n

-- the ownership test of both results: this row, still PROCESSING, under this live claim
unfoldable pub owns : Instant → ℕ → ℕ → OutboxEvent → Bool
owns now id token e =
    e.id == id
    && (status_eq e.status processing && (has_token e.lease_token token && lease_live now e))

-- the result of a failed publication
unfoldable pub record_failure : Instant → ℕ → ℕ → ℕ → OutboxEvent → OutboxEvent
unfolding owns give_back
record_failure now id token delay e = if owns now id token e then give_back now delay e else e

-- the result of a confirmed publication
unfoldable pub record_success : Instant → ℕ → ℕ → OutboxEvent → OutboxEvent
unfolding owns
record_success now id token e =
    if owns now id token e
    then record e {
      status = completed;
      published_at = some now;
      lease_token = none;
      lease_expires_at = none;
    }
    else e

-- `UPDATE ... WHERE id IN (SELECT ... LIMIT n FOR UPDATE SKIP LOCKED)`: at most `n` rows
unfoldable pub update_limited :
    (OutboxEvent → Bool) → (OutboxEvent → OutboxEvent) → ℕ → List OutboxEvent → List OutboxEvent
update_limited wanted f n [] = []
update_limited wanted f n (e ∷ es) =
    let hit = wanted e && ltb 0 n in
    (if hit then f e else e) ∷ update_limited wanted f (if hit then n - 1 else n) es

unfoldable pub recover_expired_claims : Instant → List OutboxEvent → List OutboxEvent
unfolding update_limited is_abandoned recover_row
recover_expired_claims now = update_limited (is_abandoned now) (recover_row now) outbox_batch_size

unfoldable pub fail_exhausted_pending : Instant → List OutboxEvent → List OutboxEvent
unfolding update_limited is_exhausted_pending fail_row
fail_exhausted_pending now = update_limited is_exhausted_pending (fail_row now) outbox_batch_size

-- A claim of a wave of rows; the tokens are fresh from `token` on. It returns the claimed rows.
unfoldable pub claim_events :
    Instant → ℕ → ℕ → ℕ → List OutboxEvent → List OutboxEvent × List OutboxEvent
unfolding claim_row is_claimable
claim_events now lease_ms token limit [] = ([], [])
claim_events now lease_ms token limit (e ∷ es) =
    let hit = is_claimable now e && ltb 0 limit in
    let (claimed, rows) =
      claim_events now lease_ms (if hit then token + 1 else token)
        (if hit then limit - 1 else limit) es in
    let e' = claim_row now lease_ms token e in
    if hit then (e' ∷ claimed, e' ∷ rows) else (claimed, e ∷ rows)

-- What a publication ends in: the listeners' results (none if no listener is registered), or an
-- error or a timeout.
pub data Publication : Type 0 where
  emitted : ℕ → Publication
  publication_failed : Publication

abbrev pub is_confirmed : Publication → Bool
is_confirmed (emitted n) = ltb 0 n
is_confirmed publication_failed = false

-- `processEvent` for a claimed row, its result recorded at `now`
unfoldable pub process_event :
    Instant → Publication → OutboxEvent → ℕ → List OutboxEvent → List OutboxEvent
unfolding record_success record_failure publisher_delay
process_event now outcome claimed token rows =
    if is_confirmed outcome
    then map (record_success now claimed.id token) rows
    else map (record_failure now claimed.id token (publisher_delay claimed.attempts)) rows
