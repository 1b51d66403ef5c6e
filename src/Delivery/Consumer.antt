-- ===== src/Delivery/Consumer.antt =====
-- The consumer of dates of birth (src/loyalty/consumers/user-date-of-birth-set.consumer.ts with
-- src/loyalty/dto/user-date-of-birth-set.dto.ts). `is_uuid` stands for class-validator's `IsUUID`.
use cinema_loyalty_service.Prelude.{
  Text, ℕ, Bool, true, false, ◌&&◌, Option, none, some, if◌then◌else◌,
}
use cinema_loyalty_service.Birthday.{process_user_date_of_birth_set}
use cinema_loyalty_service.Calculator.{Clock}
use cinema_loyalty_service.Store.Tx.{
  invalid_dob_payload, Failure, permanent_message, Attempt, Answer, returned, raised,
}
use cinema_loyalty_service.Store.Types.{Uuid, LocalDate, Db}

-- the value of a field; `??` and the schema read null as they read an absent field
pub data Field : Type 0 where
  nullish : Field
  string_value : Text → Field
  other_value : Field

pub record DateOfBirthPayload : Type 0 where
  pub event_id : Field
  pub user_id : Field
  pub date_of_birth : Field
  pub dob : Field
  pub birthday_date : Field
  pub occurred_at_utc : Field

pub data Body : Type 0 where
  not_an_object : Body
  an_object : DateOfBirthPayload → Body

-- `a ?? b`
unfoldable pub or_else : Field → Field → Field
or_else nullish g = g
or_else (string_value t) g = string_value t
or_else other_value g = other_value

unfoldable pub normalize_payload : DateOfBirthPayload → DateOfBirthPayload
normalize_payload b = record b {
  date_of_birth = or_else b.date_of_birth (or_else b.dob b.birthday_date);
}

abbrev pub is_optional_string : Field → Bool
is_optional_string nullish = true
is_optional_string (string_value t) = true
is_optional_string other_value = false

abbrev pub string_of : Field → Option Text
string_of nullish = none
string_of (string_value t) = some t
string_of other_value = none

abbrev pub user_of : (Text → Option Uuid) → Field → Option Uuid
user_of is_uuid nullish = none
user_of is_uuid (string_value t) = is_uuid t
user_of is_uuid other_value = none

-- the fields of a payload that the schema accepts
unfoldable pub validate : (Text → Option Uuid) → DateOfBirthPayload → Option (Uuid × Text)
validate is_uuid b =
    if is_optional_string b.event_id && is_optional_string b.occurred_at_utc
    then elim (user_of is_uuid b.user_id) [
      | none ↦ none
      | some u ↦ elim (string_of b.date_of_birth) [ none ↦ none | some t ↦ some (u, t) ]
    ]
    else none

-- the work on one message
unfoldable pub consume_date_of_birth :
    (Text → Option Uuid)
    → (Text → Option LocalDate)
    → (ℕ → Attempt)
    → Clock
    → Body
    → Db
    → Answer (Unit {0}) × Db
unfolding validate
consume_date_of_birth is_uuid new_date env clock not_an_object db =
    (raised (permanent_message invalid_dob_payload), db)
consume_date_of_birth is_uuid new_date env clock (an_object b) db =
    elim (validate is_uuid (normalize_payload b)) [
      | none ↦ (raised (permanent_message invalid_dob_payload), db)
      | some (u, t) ↦ process_user_date_of_birth_set new_date env clock u t db
    ]

-- what the loop of `handle` sees of the work
abbrev pub failure_of : Answer (Unit {0}) → Option Failure
failure_of (returned r) = none
failure_of (raised e) = some e
