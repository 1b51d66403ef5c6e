-- ===== src/Examples/Messages.antt =====
-- The properties of the messages of the consumers at concrete inputs.
-- a pass whose work fails
use cinema_loyalty_service.Prelude.{
  Text, ◌≤◌, ◌<◌, ◌≡◌, refl, false, Option, none, some, List, [], ◌∷◌, arith,
}
use cinema_loyalty_service.Delivery.{
  ticket_purchased_op, user_date_of_birth_set_op, DeliveryOptions, backoff,
}
use cinema_loyalty_service.Delivery.Acknowledgement.{IsAccounted, handle-IsAccounted}
use cinema_loyalty_service.Delivery.Consumer.{
  nullish, string_value, DateOfBirthPayload, an_object, or_else, normalize_payload, validate,
  consume_date_of_birth, failure_of,
}
use cinema_loyalty_service.Delivery.Handle.{no_outage, Pass, acked, outage_ms, outcome_at, handle}
use cinema_loyalty_service.Delivery.Liveness.{IsCalm, handle-acknowledges}
use cinema_loyalty_service.Delivery.Poison.{poisoned, handle-poisoned}
use cinema_loyalty_service.Delivery.Refusal.{no_user, consume_date_of_birth-handle}
use cinema_loyalty_service.Examples.{key, clock, attempts, one_profile}
use cinema_loyalty_service.Store.Tx.{
  PermanentCode, invalid_purchase_payload, invalid_dob_payload, internal_error, permanent_message,
  plain_error,
}
use cinema_loyalty_service.Store.Types.{Uuid, LocalDate}

abbrev failing : Pass
failing = record {
  before = λ row. row;
  aborted = false;
  outage = no_outage;
  token = 5;
  work = some (plain_error internal_error);
  work_ms = 10;
  meanwhile = λ d. d;
  aborted_in_work = false;
  outcome_outages = 1;
  late_ms = 2;
}

abbrev options : DeliveryOptions
options = record { max_attempts = 2; retry_base_ms = 1000; retry_max_ms = 60000; lease_ms = 300000 }

abbrev passes_of_failure : List Pass
passes_of_failure = failing ∷ failing ∷ failing ∷ failing ∷ failing ∷ []

failing-IsCalm : IsCalm failing
failing-IsCalm = (λ row. refl, λ d. refl, refl, refl, refl)

handle-acknowledges_example :
    ((handle options ticket_purchased_op passes_of_failure 1000 none).ending ≡ acked)
    × ((handle options ticket_purchased_op passes_of_failure 1000 none).works ≤ 2)
handle-acknowledges_example =
    handle-acknowledges options ticket_purchased_op passes_of_failure 1000
      (failing-IsCalm, (failing-IsCalm, (failing-IsCalm, (failing-IsCalm, (failing-IsCalm, tt)))))
      (omega arith)

handle-IsAccounted_example :
    IsAccounted (handle options ticket_purchased_op passes_of_failure 1000 none)
handle-IsAccounted_example =
    handle-IsAccounted options ticket_purchased_op passes_of_failure 1000 none
      (handle-acknowledges_example).0

-- a pass whose work finds a payload that is not valid
abbrev refusing : Pass
refusing = record failing { work = some (permanent_message invalid_purchase_payload) }

refusing-IsCalm : IsCalm refusing
refusing-IsCalm = (λ row. refl, λ d. refl, refl, refl, refl)

-- the first failure to record the outcome delays it by a second
refusing_in_time : outcome_at options refusing 1000 < 301000
unfolding outage_ms backoff
refusing_in_time = omega arith

handle-poisoned_example :
    handle options ticket_purchased_op (refusing ∷ refusing ∷ []) 1000 none ≡ record {
      ending = acked;
      row = some (poisoned options ticket_purchased_op refusing 1000 invalid_purchase_payload);
      works = 1;
      succeeded = false;
    }
handle-poisoned_example =
    handle-poisoned options ticket_purchased_op refusing refusing [] 1000 invalid_purchase_payload
      refusing-IsCalm refusing-IsCalm refl (omega arith) refusing_in_time

abbrev no_uuids : Text → Option Uuid
no_uuids t = none

abbrev no_dates : Text → Option LocalDate
no_dates t = none

abbrev no_user_body : DateOfBirthPayload
no_user_body = record {
  event_id = nullish;
  user_id = string_value key;
  date_of_birth = string_value key;
  dob = nullish;
  birthday_date = nullish;
  occurred_at_utc = nullish;
}

-- a pass whose work finds no user in the body
abbrev refusing_user : Pass
refusing_user = record failing { work = some (permanent_message invalid_dob_payload) }

refusing_user_work :
    some (permanent_message invalid_dob_payload)
    ≡ failure_of
        (consume_date_of_birth no_uuids no_dates attempts clock
          (an_object no_user_body)
          one_profile).0
unfolding consume_date_of_birth validate normalize_payload or_else
refusing_user_work = refl

consume_date_of_birth-handle_example :
    ((consume_date_of_birth no_uuids no_dates attempts clock (an_object no_user_body) one_profile).1
      ≡ one_profile)
    × ((c : PermanentCode) × (handle options user_date_of_birth_set_op
            (refusing_user ∷ refusing_user ∷ [])
            1000
            none
          ≡ record {
            ending = acked;
            row = some (poisoned options user_date_of_birth_set_op refusing_user 1000 c);
            works = 1;
            succeeded = false;
          }))
consume_date_of_birth-handle_example =
    consume_date_of_birth-handle no_uuids no_dates attempts clock one_profile
      (an_object no_user_body) options refusing_user refusing_user [] 1000
      (no_user no_user_body (λ t h. refl)) refusing_user_work refusing-IsCalm refusing-IsCalm
      (omega arith) refusing_in_time
