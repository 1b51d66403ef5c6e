-- ===== src/Outbox/Lease.antt =====
-- The leases, the attempts and the delays of the outbox.
use cinema_loyalty_service.Prelude.{
  ◌-◌, ◌⊎◌, Bool, false, List, [], ◌∷◌, map, ◌==◌, length, if◌then◌else◌, ◌<◌, ℕ, zero, suc, ◌+◌,
  ◌≤◌, ◌≡◌, inl, inr, refl, true, Bool-cases, arith, ltb, is_some,
}
use cinema_loyalty_service.Outbox.{
  update_limited, recover_expired_claims, fail_exhausted_pending, claim_events, Publication,
  is_confirmed, process_event, retry_base_ms, retry_max_ms, sql_delay, publisher_delay, status_eq,
  give_back, is_abandoned, recover_row, is_exhausted_pending, fail_row, is_claimable, claim_row,
  owns, record_failure, record_success,
}
use cinema_loyalty_service.Store.Types.{completed, OutboxEvent, Instant, processing}

-- once an attempt is counted, the delay of the SQL is that of the publisher
sql_delay-publisher_delay :
    (n : ℕ)
    → (sql_delay (n + 1) ≡ publisher_delay (n + 1))
      × (retry_base_ms ≤ sql_delay (n + 1))
      × (sql_delay (n + 1) ≤ retry_max_ms)
unfolding sql_delay publisher_delay
sql_delay-publisher_delay zero = ground arith
sql_delay-publisher_delay (suc zero) = ground arith
sql_delay-publisher_delay (suc (suc zero)) = ground arith
sql_delay-publisher_delay (suc (suc (suc zero))) = ground arith
sql_delay-publisher_delay (suc (suc (suc (suc n)))) = ground arith

-- A failure that the publisher records under its live claim leaves the row that a recovery of the
-- claim at that instant would leave: the delay of the program is that of the SQL, for every claim;
-- and the next attempt comes after the base of the delays and before their maximum.
pub failure_matches_recovery :
    (claimed_at now lease_ms token : ℕ) (e : OutboxEvent)
    → now < claimed_at + lease_ms
    → let c = claim_row claimed_at lease_ms token e in
      (record_failure now e.id token (publisher_delay c.attempts) c ≡ recover_row now c)
      × (now + retry_base_ms ≤ (recover_row now c).next_attempt_at)
      × ((recover_row now c).next_attempt_at ≤ now + retry_max_ms)
unfolding record_failure recover_row owns claim_row give_back
failure_matches_recovery claimed_at now lease_ms token e live =
    let (same, low, high) = sql_delay-publisher_delay e.attempts in
    (ground (arith, same, live), omega (arith, low), omega (arith, high))

-- A row under a claim has a token and a lease, every other row has neither; the attempts are
-- within the budget.
pub record IsLeased (e : OutboxEvent) : Type 0 where
  pub token : is_some e.lease_token ≡ status_eq e.status processing
  pub lease : is_some e.lease_expires_at ≡ status_eq e.status processing
  pub budget : e.attempts ≤ e.max_attempts

-- what one statement does to one row
pub data RowStep (now : Instant) (e : OutboxEvent) : OutboxEvent → Type 0 where
  recovered : is_abandoned now e ≡ true → RowStep now e (recover_row now e)
  exhausted : is_exhausted_pending e ≡ true → RowStep now e (fail_row now e)
  claimed :
      (lease_ms token : ℕ)
      → is_claimable now e ≡ true
      → RowStep now e (claim_row now lease_ms token e)
  unpublished : (id token delay : ℕ) → RowStep now e (record_failure now id token delay e)
  published : (id token : ℕ) → RowStep now e (record_success now id token e)

give_back-IsLeased :
    (now delay : ℕ) (e : OutboxEvent) → IsLeased e → IsLeased (give_back now delay e)
unfolding give_back
give_back-IsLeased now delay e h = ground (arith, h.budget)

claimable_budget :
    (now : Instant) (e : OutboxEvent) → is_claimable now e ≡ true → e.attempts + 1 ≤ e.max_attempts
unfolding is_claimable
claimable_budget now e h = ground arith

-- Every statement of the outbox, at any instant and in any order, keeps the leases.
pub RowStep-IsLeased :
    (now : Instant) (e d : OutboxEvent) → RowStep now e d → IsLeased e → IsLeased d
unfolding recover_row fail_row claim_row record_failure record_success
RowStep-IsLeased now e d (recovered _) h = give_back-IsLeased now _ e h
RowStep-IsLeased now e d (exhausted _) h = record { token = refl; lease = refl; budget = h.budget }
RowStep-IsLeased now e d (claimed l t can) h = record {
  token = refl;
  lease = refl;
  budget = claimable_budget now e can;
}
RowStep-IsLeased now e d (unpublished id token delay) h = elim (Bool-cases (owns now id token e)) [
  | inl mine ↦ rw mine (give_back-IsLeased now delay e h)
  | inr other ↦ rw other h
]
RowStep-IsLeased now e d (published id token) h = elim (Bool-cases (owns now id token e)) [
  | inl mine ↦ rw mine (record { token = refl; lease = refl; budget = h.budget })
  | inr other ↦ rw other h
]

-- A confirm that arrives while the claim lives completes the row. When the claim was recovered in
-- between, its result changes nothing any more, be it a confirm or a failure: neither on the row that
-- waits again, nor once another publisher has claimed it with a token of its own.
pub late_result_ignored :
    (claimed_at now lease_ms token : ℕ) (recovered_at again other delay : ℕ) (e : OutboxEvent)
    → (token ≡ other → ⊥)
    → let c = claim_row claimed_at lease_ms token e in
      let r = recover_row recovered_at c in
      let o = claim_row again lease_ms other r in
      ((record_success now e.id token c).status
        ≡ (if ltb now (claimed_at + lease_ms) then completed else processing))
      × ((record_success now e.id token r ≡ r) × (record_failure now e.id token delay r ≡ r))
      × ((record_success now e.id token o ≡ o) × (record_failure now e.id token delay o ≡ o))
unfolding record_failure record_success recover_row owns claim_row give_back
late_result_ignored claimed_at now lease_ms token recovered_at again other delay e apart =
    (ground arith, (ground arith, ground arith), (ground (arith, apart), ground (arith, apart)))

-- Of two publishers with different tokens, at least one can change nothing in a row, by a success or
-- by a failure.
pub owns_unique :
    (now id first second delay : ℕ) (e : OutboxEvent)
    → (first == second) ≡ false
    → ((record_success now id first e ≡ e) × (record_failure now id first delay e ≡ e))
      ⊎ ((record_success now id second e ≡ e) × (record_failure now id second delay e ≡ e))
unfolding record_failure record_success owns
owns_unique now id first second delay e apart = ground arith

-- every row is leased
abbrev pub AreLeased : List OutboxEvent → Type 0
AreLeased [] = Unit
AreLeased (e ∷ es) = IsLeased e × AreLeased es

update_limited-AreLeased :
    (wanted : OutboxEvent → Bool) (f : OutboxEvent → OutboxEvent)
    → ((e : OutboxEvent) → wanted e ≡ true → IsLeased e → IsLeased (f e))
    → (n : ℕ) (es : List OutboxEvent) → AreLeased es
    → AreLeased (update_limited wanted f n es)
unfolding update_limited
update_limited-AreLeased wanted f keeps n [] h = tt
update_limited-AreLeased wanted f keeps n (e ∷ es) (h, hs) = elim (Bool-cases (wanted e)) [
  | inr other ↦ rw other (h, update_limited-AreLeased wanted f keeps n es hs)
  | inl hit ↦ elim (Bool-cases (ltb 0 n)) [
    | inl room ↦
        rw (hit, room) (keeps e hit h, update_limited-AreLeased wanted f keeps (n - 1) es hs)
    | inr full ↦ rw (hit, full) (h, update_limited-AreLeased wanted f keeps n es hs)
  ]
]

map-AreLeased :
    (f : OutboxEvent → OutboxEvent)
    → ((e : OutboxEvent) → IsLeased e → IsLeased (f e))
    → (es : List OutboxEvent) → AreLeased es
    → AreLeased (map f es)
map-AreLeased f keeps [] h = tt
map-AreLeased f keeps (e ∷ es) (h, hs) = (keeps e h, map-AreLeased f keeps es hs)

claim_events-AreLeased :
    (now lease_ms token limit : ℕ) (es : List OutboxEvent)
    → AreLeased es
    → AreLeased (claim_events now lease_ms token limit es).1
unfolding claim_events
claim_events-AreLeased now lease_ms token limit [] h = tt
claim_events-AreLeased now lease_ms token limit (e ∷ es) (h, hs) =
    elim (Bool-cases (is_claimable now e)) [
      | inr other ↦ rw other (h, claim_events-AreLeased now lease_ms token limit es hs)
      | inl hit ↦ elim (Bool-cases (ltb 0 limit)) [
        | inl room ↦
            rw (hit, room)
              (
                RowStep-IsLeased now e _ (claimed lease_ms token hit) h,
                claim_events-AreLeased now lease_ms (token + 1) (limit - 1) es hs,
              )
        | inr full ↦ rw (hit, full) (h, claim_events-AreLeased now lease_ms token limit es hs)
      ]
    ]

-- what the publishers do to the table
pub data TableStep (rows : List OutboxEvent) : List OutboxEvent → Type 0 where
  recovering : (now : Instant) → TableStep rows (recover_expired_claims now rows)
  failing : (now : Instant) → TableStep rows (fail_exhausted_pending now rows)
  claiming :
      (now lease_ms token limit : ℕ) → TableStep rows (claim_events now lease_ms token limit rows).1
  finishing :
      (now : Instant) (outcome : Publication) (e : OutboxEvent) (token : ℕ)
      → TableStep rows (process_event now outcome e token rows)

-- Whatever the publishers do, in any order and at any instants, every row keeps its lease exactly
-- while it is in processing, and never counts more attempts than its budget.
pub TableStep-AreLeased :
    (rows rows' : List OutboxEvent) → TableStep rows rows' → AreLeased rows → AreLeased rows'
unfolding recover_expired_claims fail_exhausted_pending process_event
TableStep-AreLeased rows _ (recovering now) h =
    update_limited-AreLeased _ _ (λ e hit k. RowStep-IsLeased now e _ (recovered hit) k) _ rows h
TableStep-AreLeased rows _ (failing now) h =
    update_limited-AreLeased _ _ (λ e hit k. RowStep-IsLeased now e _ (exhausted hit) k) _ rows h
TableStep-AreLeased rows _ (claiming now lease_ms token limit) h =
    claim_events-AreLeased now lease_ms token limit rows h
TableStep-AreLeased rows _ (finishing now outcome e token) h =
    elim (Bool-cases (is_confirmed outcome)) [
      | inl sent ↦
          rw sent
            (map-AreLeased _ (λ d k. RowStep-IsLeased now d _ (published e.id token) k) rows h)
      | inr lost ↦
          rw lost
            (map-AreLeased _ (λ d k. RowStep-IsLeased now d _ (unpublished e.id token _) k) rows h)
    ]

-- A wave claims no more rows than its limit, and leaves as many rows in the table as there were.
pub claim_events-length :
    (now lease_ms token limit : ℕ) (es : List OutboxEvent)
    → (length (claim_events now lease_ms token limit es).0 ≤ limit)
      × (length (claim_events now lease_ms token limit es).1 ≡ length es)
unfolding claim_events
claim_events-length now lease_ms token limit [] = ground arith
claim_events-length now lease_ms token limit (e ∷ es) = ground (
  arith,
  claim_events-length now lease_ms (token + 1) (limit - 1) es,
  claim_events-length now lease_ms token limit es,
)
