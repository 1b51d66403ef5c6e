-- ===== src/Config.antt =====
-- The runtime configuration: the schema of the environment (src/config/env.schema.ts) and the values
-- that the services take from it (src/config/app.config.ts, src/config/rmq-delivery.config.ts).
-- Variables of the environment are texts. `Formats` stands for the checks that Node's URL and
-- `isIP` make.
pub mod Bounds
use cinema_loyalty_service.Prelude.{
  Text, trim, is_space, int32_max, ℕ, ◌+◌, ◌-◌, ◌*◌, max, Bool, true, false, not, ◌&&◌, ◌||◌,
  Option, none, some, [], ◌∷◌, ltb, leb, ◌==◌, if◌then◌else◌, length,
}
use cinema_loyalty_service.Achievements.Catalogue.{bind_option}
use cinema_loyalty_service.Dates.{is_digit}
use cinema_loyalty_service.Delivery.{DeliveryOptions}
use cinema_loyalty_service.Outbox.{retry_base_ms, retry_max_ms}

pub record EnvInput : Type 0 where
  pub database_url : Option Text
  pub rmq_url : Option Text
  pub rmq_queue : Option Text
  pub port : Option Text
  pub grpc_url : Option Text
  pub frontend_url : Option Text
  pub internal_api_key : Option Text
  pub redis_host : Option Text
  pub redis_port : Option Text
  pub redis_password : Option Text
  pub rmq_loyalty_events_queue : Option Text
  pub outbox_publish_timeout_ms : Option Text
  pub outbox_lease_ms : Option Text
  pub outbox_publish_concurrency : Option Text
  pub rmq_max_attempts : Option Text
  pub rmq_prefetch : Option Text
  pub rmq_retry_base_ms : Option Text
  pub rmq_retry_max_ms : Option Text
  pub rmq_delivery_lease_ms : Option Text

-- the values of the texts that are not numbers are those of the environment
pub record RuntimeEnv : Type 0 where
  pub port : ℕ
  pub redis_port : ℕ
  pub outbox_publish_timeout_ms : ℕ
  pub outbox_lease_ms : ℕ
  pub outbox_publish_concurrency : ℕ
  pub rmq_max_attempts : ℕ
  pub rmq_prefetch : ℕ
  pub rmq_retry_base_ms : ℕ
  pub rmq_retry_max_ms : ℕ
  pub rmq_delivery_lease_ms : ℕ

pub record Formats : Type 0 where
  pub is_postgres_url : Text → Bool
  pub is_amqp_url : Text → Bool
  pub is_origin : Text → Bool
  pub is_grpc_binding : Text → Bool

-- \d+ and `Number`
unfoldable pub number_from : ℕ → Text → Option ℕ
number_from n [] = some n
number_from n (c ∷ t) =
    let rest = number_from (n * 10 + (c - 48)) t in if is_digit c then rest else none

abbrev pub number_of : Text → Option ℕ
number_of [] = none
number_of (c ∷ t) = number_from 0 (c ∷ t)

abbrev pub in_range : ℕ → ℕ → Option ℕ → Option ℕ
in_range lo hi none = none
in_range lo hi (some n) = if leb lo n && leb n hi then some n else none

-- `integer(min, max)`
unfoldable pub integer : ℕ → ℕ → Text → Option ℕ
unfolding number_from
integer lo hi t = in_range lo hi (number_of t)

-- with a default
abbrev pub or_default : ℕ → ℕ → ℕ → Option Text → Option ℕ
or_default lo hi value none = some value
or_default lo hi value (some t) = integer lo hi t

-- `optional()`: what is missing is accepted, with no value
abbrev pub optional_integer : ℕ → ℕ → Option Text → Option (Option ℕ)
optional_integer lo hi none = some none
optional_integer lo hi (some t) = elim (integer lo hi t) [ none ↦ none | some n ↦ some (some n) ]

abbrev pub required_integer : ℕ → ℕ → Option Text → Option ℕ
required_integer lo hi none = none
required_integer lo hi (some t) = integer lo hi t

abbrev is_nonblank : Text → Bool
is_nonblank t = leb 1 (length (trim t))

abbrev required_text : (Text → Bool) → Option Text → Bool
required_text ok none = false
required_text ok (some t) = ok t

abbrev default_text : (Text → Bool) → Option Text → Bool
default_text ok none = true
default_text ok (some t) = ok t

abbrev is_slash_or_space : ℕ → Bool
is_slash_or_space c = c == 47 || is_space c

unfoldable pub has_slash_or_space : Text → Bool
has_slash_or_space [] = false
has_slash_or_space (c ∷ t) = is_slash_or_space c || has_slash_or_space t

abbrev any_text : Text → Bool
any_text t = true

-- the keys that are not numbers
unfoldable pub texts_ok : Formats → EnvInput → Bool
unfolding trim has_slash_or_space
texts_ok f e =
    required_text f.is_postgres_url e.database_url
    && (default_text f.is_amqp_url e.rmq_url
        && (default_text is_nonblank e.rmq_queue
            && (default_text f.is_grpc_binding e.grpc_url
                && (default_text f.is_origin e.frontend_url
                    && (required_text is_nonblank e.internal_api_key
                        && (required_text (λ t. is_nonblank t && not (has_slash_or_space t))
                              e.redis_host
                            && (required_text any_text e.redis_password
                                && default_text is_nonblank e.rmq_loyalty_events_queue)))))))

-- the keys that are numbers; the lease of the outbox, if missing, follows the timeout
unfoldable pub read_numbers : EnvInput → Option RuntimeEnv
read_numbers e = bind_option (or_default 1 65535 3000 e.port) λ port.
    bind_option (required_integer 1 65535 e.redis_port) λ redis_port.
      bind_option (or_default 1 int32_max 10000 e.outbox_publish_timeout_ms) λ timeout.
        bind_option (optional_integer 1 int32_max e.outbox_lease_ms) λ lease.
          bind_option (or_default 1 50 5 e.outbox_publish_concurrency) λ concurrency.
            bind_option (or_default 1 10 3 e.rmq_max_attempts) λ max_attempts.
              bind_option (or_default 1 50 5 e.rmq_prefetch) λ prefetch.
                bind_option (or_default 50 60000 1000 e.rmq_retry_base_ms) λ base_ms.
                  bind_option (or_default 50 300000 30000 e.rmq_retry_max_ms) λ max_ms.
                    bind_option (or_default 10000 300000 30000 e.rmq_delivery_lease_ms)
                      λ delivery_lease. some (record {
                        port = port;
                        redis_port = redis_port;
                        outbox_publish_timeout_ms = timeout;
                        outbox_lease_ms = elim lease [
                          | none ↦ max 30000 (timeout + 5000)
                          | some n ↦ n
                        ];
                        outbox_publish_concurrency = concurrency;
                        rmq_max_attempts = max_attempts;
                        rmq_prefetch = prefetch;
                        rmq_retry_base_ms = base_ms;
                        rmq_retry_max_ms = max_ms;
                        rmq_delivery_lease_ms = delivery_lease;
                      })

-- the checks across keys
unfoldable pub refined : RuntimeEnv → Option RuntimeEnv
refined v =
    if leb v.outbox_lease_ms v.outbox_publish_timeout_ms
      || (ltb int32_max v.outbox_lease_ms || ltb v.rmq_retry_max_ms v.rmq_retry_base_ms)
    then none
    else some v

-- `parseEnvironment(runtimeEnvSchema, input)`; no value is the error
unfoldable pub parse_environment : Formats → EnvInput → Option RuntimeEnv
parse_environment f e = if texts_ok f e then bind_option (read_numbers e) refined else none

pub record AppConfig : Type 0 where
  pub port : ℕ
  pub outbox_publish_timeout_ms : ℕ
  pub outbox_lease_ms : ℕ
  pub outbox_publish_concurrency : ℕ

abbrev pub create_app_config : RuntimeEnv → AppConfig
create_app_config v = record {
  port = v.port;
  outbox_publish_timeout_ms = v.outbox_publish_timeout_ms;
  outbox_lease_ms = v.outbox_lease_ms;
  outbox_publish_concurrency = v.outbox_publish_concurrency;
}

-- the prefetch, which only the transport reads, is left out
abbrev pub rmq_delivery_config : RuntimeEnv → DeliveryOptions
rmq_delivery_config v = record {
  max_attempts = v.rmq_max_attempts;
  retry_base_ms = v.rmq_retry_base_ms;
  retry_max_ms = v.rmq_retry_max_ms;
  lease_ms = v.rmq_delivery_lease_ms;
}

unfoldable pub create_runtime_configuration :
    Formats → EnvInput → Option (AppConfig × DeliveryOptions)
create_runtime_configuration f e =
    bind_option (parse_environment f e) λ v. some (create_app_config v, rmq_delivery_config v)
