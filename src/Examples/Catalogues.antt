-- ===== src/Examples/Catalogues.antt =====
-- The properties of achievements and of the configuration at concrete inputs.
use cinema_loyalty_service.Prelude.{
  Text, trim, is_space, pos, negsuc, ℕ, ◌≤◌, ◌≡◌, refl, true, false, none, some, [], ◌∷◌, arith,
  count_where,
}
use cinema_loyalty_service.Achievements.Administration.{Catalogue, Json, create}
use cinema_loyalty_service.Achievements.Answers.{
  admin_answer-after_requests, admin_answer, after_requests, is_answered,
}
use cinema_loyalty_service.Achievements.Catalogue.{
  AchievementInput, AchievementRow, normalize_achievement_input,
}
use cinema_loyalty_service.Achievements.Input.{visits, rare, threshold, normalize_criteria}
use cinema_loyalty_service.Achievements.Mapper.{to_grpc, Printers, to_user_achievement_grpc}
use cinema_loyalty_service.Achievements.Progress.{gte_operator, Criteria}
use cinema_loyalty_service.Achievements.Rows.{IsCatalogue}
use cinema_loyalty_service.Achievements.Secrets.{
  to_user_achievement_grpc-masks, request_of, IsText, IsNormalized,
  normalize_achievement_input-to_grpc,
}
use cinema_loyalty_service.Config.{
  EnvInput, Formats, number_from, integer, has_slash_or_space, texts_ok, read_numbers, refined,
  parse_environment, AppConfig, create_runtime_configuration,
}
use cinema_loyalty_service.Config.Bounds.{AreConsistent, create_runtime_configuration-AreConsistent}
use cinema_loyalty_service.Delivery.{DeliveryOptions}
use cinema_loyalty_service.Examples.{user, key}
use cinema_loyalty_service.Store.Types.{ticket_purchased, UserAchievement}

abbrev pub word : Text
word = b'w' ∷ b'o' ∷ b'w' ∷ []

abbrev tickets : Criteria
tickets = record {
  field = ticket_purchased;
  operator = gte_operator;
  target = pos 3;
  value_field = none;
}

abbrev input : AchievementInput
input = record {
  code = word;
  name = word;
  description = word;
  secret_hint = some word;
  is_secret = true;
  icon = word;
  category = visits;
  rarity = rare;
  strategy = threshold;
  criteria = tickets;
  reward_points = pos 50;
  sort_order = negsuc 0;
  is_active = true;
}

abbrev stored : AchievementRow
stored = record { id = 3; input = input; created_at = 10; updated_at = 20 }

abbrev json : Json
json = record { parse_json = λ t. some tickets; print_json = λ c. word }

abbrev printers : Printers
printers = record { print_json = λ c. word; uuid_text = λ n. word }

abbrev progress : UserAchievement
progress = record {
  id = 1;
  user_id = user;
  achievement_id = 3;
  current = pos 2;
  target = pos 3;
  is_unlocked = false;
  unlocked_at = none;
}

to_user_achievement_grpc-masks_example :
    to_user_achievement_grpc printers true progress stored
    ≡ to_user_achievement_grpc printers true
        (record progress { current = pos 0; target = pos 9 })
        (record stored {
          input = record input {
            code = key;
            name = key;
            description = key;
            icon = key;
            criteria = tickets;
            reward_points = pos 7;
          };
        })
to_user_achievement_grpc-masks_example =
    to_user_achievement_grpc-masks printers progress stored key key key key tickets (pos 7) (pos 0)
      (pos 9) refl refl

word-IsText : (n : ℕ) → 3 ≤ n → IsText word n
unfolding trim
word-IsText n h = (refl, omega arith, h)

input-IsNormalized : IsNormalized input
unfolding trim normalize_criteria
input-IsNormalized = record {
  code_ok = word-IsText 64 (omega arith);
  name_ok = word-IsText 128 (omega arith);
  description_ok = word-IsText 10000 (omega arith);
  icon_ok = word-IsText 128 (omega arith);
  hint_ok = (refl, omega arith);
  criteria_ok = refl;
  reward_ok = (omega arith, omega arith);
  order_ok = (omega arith, omega arith);
}

normalize_achievement_input-to_grpc_example :
    normalize_achievement_input json.parse_json (request_of (to_grpc json.print_json stored))
    ≡ some input
normalize_achievement_input-to_grpc_example =
    normalize_achievement_input-to_grpc json.parse_json json.print_json stored input-IsNormalized
      refl

abbrev no_achievements : Catalogue
no_achievements = record { rows = []; next_id = 1 }

no_achievements-IsCatalogue : IsCatalogue no_achievements
unfolding count_where
no_achievements-IsCatalogue = record {
  codes = λ t. omega arith;
  ids = λ n. omega arith;
  fresh = λ n h. refl;
}

-- the same code a second time
admin_answer-after_requests_example :
    is_answered (
      admin_answer json 40 (create (request_of (to_grpc json.print_json stored))) (
        after_requests json
          ((30, create (request_of (to_grpc json.print_json stored))) ∷ [])
          no_achievements))
    ≡ true
admin_answer-after_requests_example =
    admin_answer-after_requests json
      ((30, create (request_of (to_grpc json.print_json stored))) ∷ []) 40
      (create (request_of (to_grpc json.print_json stored))) no_achievements
      no_achievements-IsCatalogue

abbrev formats : Formats
formats = record {
  is_postgres_url = λ t. true;
  is_amqp_url = λ t. true;
  is_origin = λ t. true;
  is_grpc_binding = λ t. true;
}

abbrev environment : EnvInput
environment = record {
  database_url = some word;
  rmq_url = none;
  rmq_queue = none;
  port = none;
  grpc_url = none;
  frontend_url = none;
  internal_api_key = some word;
  redis_host = some word;
  redis_port = some (b'6' ∷ b'3' ∷ b'7' ∷ b'9' ∷ []);
  redis_password = some [];
  rmq_loyalty_events_queue = none;
  outbox_publish_timeout_ms = some (b'4' ∷ b'0' ∷ b'0' ∷ b'0' ∷ b'0' ∷ []);
  outbox_lease_ms = none;
  outbox_publish_concurrency = none;
  rmq_max_attempts = none;
  rmq_prefetch = none;
  rmq_retry_base_ms = none;
  rmq_retry_max_ms = none;
  rmq_delivery_lease_ms = none;
}

abbrev configured : AppConfig × DeliveryOptions
configured = (
  record {
    port = 3000;
    outbox_publish_timeout_ms = 40000;
    outbox_lease_ms = 45000;
    outbox_publish_concurrency = 5;
  },
  record { max_attempts = 3; retry_base_ms = 1000; retry_max_ms = 30000; lease_ms = 30000 },
)

configures : create_runtime_configuration formats environment ≡ some configured
unfolding create_runtime_configuration parse_environment texts_ok read_numbers refined integer
    number_from trim is_space has_slash_or_space
configures = refl

create_runtime_configuration-AreConsistent_example : AreConsistent configured
create_runtime_configuration-AreConsistent_example =
    create_runtime_configuration-AreConsistent formats environment configured configures
