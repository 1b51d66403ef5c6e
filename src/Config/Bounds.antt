-- ===== src/Config/Bounds.antt =====
-- What an accepted configuration guarantees.
use cinema_loyalty_service.Prelude.{
  subst, inl, inr, Bool-cases, Text, int32_max, ℕ, ◌≤◌, ◌<◌, ◌≡◌, refl, Option, none, some, arith,
}
use cinema_loyalty_service.Achievements.Catalogue.{bind_option}
use cinema_loyalty_service.Config.{
  required_integer, parse_environment, RuntimeEnv, number_of, in_range, optional_integer, texts_ok,
  read_numbers, refined, create_app_config, rmq_delivery_config, EnvInput, Formats, integer,
  or_default, AppConfig, create_runtime_configuration,
}
use cinema_loyalty_service.Delivery.{DeliveryOptions}

abbrev IsWithin : ℕ → ℕ → ℕ → Type 0
IsWithin lo hi n = (lo ≤ n) × (n ≤ hi)

in_range-IsWithin :
    (lo hi : ℕ) (o : Option ℕ) (n : ℕ) → in_range lo hi o ≡ some n → IsWithin lo hi n
in_range-IsWithin lo hi none n h = cc
in_range-IsWithin lo hi (some k) n h = ground (arith, h)

or_default-IsWithin :
    (lo hi value : ℕ) (t : Option Text) (n : ℕ)
    → IsWithin lo hi value
    → or_default lo hi value t ≡ some n
    → IsWithin lo hi n
unfolding integer
or_default-IsWithin lo hi value none n ok h = ground (arith, ok, h)
or_default-IsWithin lo hi value (some t) n ok h = in_range-IsWithin lo hi (number_of t) n h

-- A step of `bind_option` that succeeds.
bind_option-some :
    {A B : Type 0} (o : Option A) (f : A → Option B) (b : B)
    → bind_option o f ≡ some b
    → (a : A) × (o ≡ some a) × (f a ≡ some b)
bind_option-some none f b h = cc
bind_option-some (some a) f b h = (a, refl, h)

abbrev AreNumbersIn : RuntimeEnv → Type 0
AreNumbersIn v =
    (1 ≤ v.outbox_publish_timeout_ms)
    × IsWithin 1 50 v.outbox_publish_concurrency
    × IsWithin 1 10 v.rmq_max_attempts
    × (50 ≤ v.rmq_retry_base_ms)
    × (v.rmq_retry_max_ms ≤ 300000)
    × IsWithin 10000 300000 v.rmq_delivery_lease_ms

read_numbers-bounds : (e : EnvInput) (v : RuntimeEnv) → read_numbers e ≡ some v → AreNumbersIn v
unfolding read_numbers
read_numbers-bounds e v h =
    let (port, q0, h0) = bind_option-some (or_default 1 65535 3000 e.port) _ v h in
    let (redis, q1, h1) = bind_option-some (required_integer 1 65535 e.redis_port) _ v h0 in
    let (timeout, q2, h2) =
      bind_option-some (or_default 1 int32_max 10000 e.outbox_publish_timeout_ms) _ v h1 in
    let (lease, q3, h3) =
      bind_option-some (optional_integer 1 int32_max e.outbox_lease_ms) _ v h2 in
    let (wave, q4, h4) = bind_option-some (or_default 1 50 5 e.outbox_publish_concurrency) _ v h3 in
    let (attempts, q5, h5) = bind_option-some (or_default 1 10 3 e.rmq_max_attempts) _ v h4 in
    let (prefetch, q6, h6) = bind_option-some (or_default 1 50 5 e.rmq_prefetch) _ v h5 in
    let (base, q7, h7) = bind_option-some (or_default 50 60000 1000 e.rmq_retry_base_ms) _ v h6 in
    let (top, q8, h8) = bind_option-some (or_default 50 300000 30000 e.rmq_retry_max_ms) _ v h7 in
    let (held, q9, h9) =
      bind_option-some (or_default 10000 300000 30000 e.rmq_delivery_lease_ms) _ v h8 in
    let timeout_in =
      or_default-IsWithin 1 int32_max 10000 e.outbox_publish_timeout_ms timeout (omega arith) q2 in
    let wave_in = or_default-IsWithin 1 50 5 e.outbox_publish_concurrency wave (omega arith) q4 in
    let attempts_in = or_default-IsWithin 1 10 3 e.rmq_max_attempts attempts (omega arith) q5 in
    let base_in = or_default-IsWithin 50 60000 1000 e.rmq_retry_base_ms base (omega arith) q7 in
    let top_in = or_default-IsWithin 50 300000 30000 e.rmq_retry_max_ms top (omega arith) q8 in
    let held_in =
      or_default-IsWithin 10000 300000 30000 e.rmq_delivery_lease_ms held (omega arith) q9 in
    ground (arith, h9, timeout_in, wave_in, attempts_in, base_in, top_in, held_in)

refined-bounds :
    (v w : RuntimeEnv)
    → refined v ≡ some w
    → (v ≡ w)
      × (v.outbox_publish_timeout_ms < v.outbox_lease_ms)
      × (v.outbox_lease_ms ≤ int32_max)
      × (v.rmq_retry_base_ms ≤ v.rmq_retry_max_ms)
unfolding refined
refined-bounds v w h = ground (arith, h)

parse_environment-some :
    (f : Formats) (e : EnvInput) (v : RuntimeEnv)
    → parse_environment f e ≡ some v
    → (w : RuntimeEnv) × (read_numbers e ≡ some w) × (refined w ≡ some v)
unfolding parse_environment
parse_environment-some f e v h = elim (Bool-cases (texts_ok f e)) [
  | inl fine ↦ bind_option-some (read_numbers e) refined v (rw (fine, parse_environment) at h)
  | inr wrong ↦ ground (arith, h, wrong)
]

some_injective : {A : Type 0} (a b : A) → some a ≡ some b → a ≡ b
some_injective a b h = ground (arith, h)

-- The values that the publisher and the consumers work with.
abbrev pub AreConsistent : AppConfig × DeliveryOptions → Type 0
AreConsistent (a, o) =
    (a.outbox_publish_timeout_ms < a.outbox_lease_ms)
    × (a.outbox_lease_ms ≤ int32_max)
    × IsWithin 1 50 a.outbox_publish_concurrency
    × IsWithin 1 10 o.max_attempts
    × (50 ≤ o.retry_base_ms)
    × (o.retry_base_ms ≤ o.retry_max_ms)
    × (o.retry_max_ms ≤ 300000)
    × IsWithin 10000 300000 o.lease_ms

-- A configuration that is accepted gives the publisher a lease that outlasts the timeout of a
-- publication and fits 32 bits, and waves of 1 to 50 events; and the consumers 1 to 10 attempts of a
-- delivery, delays from 50 ms or more to 300000 ms or less, the base not above the maximum, and
-- leases of 10 to 300 seconds: for every environment, and whatever Node accepts as a URL.
pub create_runtime_configuration-AreConsistent :
    (f : Formats) (e : EnvInput) (c : AppConfig × DeliveryOptions)
    → create_runtime_configuration f e ≡ some c
    → AreConsistent c
unfolding create_runtime_configuration
create_runtime_configuration-AreConsistent f e c h =
    let (v, q, given) = bind_option-some (parse_environment f e) _ c h in
    let (w, read, checked) = parse_environment-some f e v q in
    let (same, outlasts, fits, ordered) = refined-bounds w v checked in
    let (timeout, wave, attempts, base, top, held) = read_numbers-bounds e w read in
    let good : AreConsistent (create_app_config w, rmq_delivery_config w) =
      (outlasts, fits, wave, attempts, base, ordered, top, held) in
    subst AreConsistent (some_injective _ c given)
      (subst (λ x. AreConsistent (create_app_config x, rmq_delivery_config x)) same good)
