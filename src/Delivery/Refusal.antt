-- ===== src/Delivery/Refusal.antt =====
-- The dates of birth that the consumer refuses (src/loyalty/consumers).
-- A body that names no user or no date, or whose date, under its own name, is no day or is to come.
use cinema_loyalty_service.Prelude.{
  Text, ℕ, ◌+◌, ◌<◌, ◌≡◌, refl, ◌∙◌, ◌⊎◌, inl, inr, true, false, ◌&&◌, Option, none, some, List,
  ◌∷◌, Bool-cases, Option-cases,
}
use cinema_loyalty_service.Birthday.{process_user_date_of_birth_set}
use cinema_loyalty_service.Calculator.{Clock}
use cinema_loyalty_service.Dates.{parse_utc_local_date, is_future_utc_local_date}
use cinema_loyalty_service.Delivery.{user_date_of_birth_set_op, DeliveryOptions}
use cinema_loyalty_service.Delivery.Consumer.{
  Field, nullish, string_value, other_value, DateOfBirthPayload, Body, not_an_object, an_object,
  or_else, normalize_payload, is_optional_string, string_of, user_of, validate,
  consume_date_of_birth, failure_of,
}
use cinema_loyalty_service.Delivery.Handle.{Pass, acked, outcome_at, handle}
use cinema_loyalty_service.Delivery.Liveness.{IsCalm}
use cinema_loyalty_service.Delivery.Poison.{poisoned, handle-poisoned}
use cinema_loyalty_service.Store.Tx.{
  PermanentCode, invalid_dob_payload, invalid_date_of_birth, permanent_message, Attempt, raised,
}
use cinema_loyalty_service.Store.Types.{Uuid, Instant, LocalDate, Db}

pub data IsUnusable (is_uuid : Text → Option Uuid) (new_date : Text → Option LocalDate)
    (clock : Clock) : Body → Type 0 where
  no_object : IsUnusable is_uuid new_date clock not_an_object
  no_user :
      (b : DateOfBirthPayload)
      → ((t : Text) → b.user_id ≡ string_value t → is_uuid t ≡ none)
      → IsUnusable is_uuid new_date clock (an_object b)
  no_day :
      (b : DateOfBirthPayload)
      → b.date_of_birth ≡ nullish
      → b.dob ≡ nullish
      → b.birthday_date ≡ nullish
      → IsUnusable is_uuid new_date clock (an_object b)
  no_calendar_day :
      (b : DateOfBirthPayload) (t : Text)
      → b.date_of_birth ≡ string_value t
      → parse_utc_local_date new_date t ≡ none
      → IsUnusable is_uuid new_date clock (an_object b)
  day_to_come :
      (b : DateOfBirthPayload) (t : Text) (d : LocalDate)
      → b.date_of_birth ≡ string_value t
      → parse_utc_local_date new_date t ≡ some d
      → is_future_utc_local_date d clock.today ≡ true
      → IsUnusable is_uuid new_date clock (an_object b)

module _ (is_uuid : Text → Option Uuid) (new_date : Text → Option LocalDate) (env : ℕ → Attempt)
    (clock : Clock) (db : Db) where
  Refused : Body → Type 0
  Refused body =
      (c : PermanentCode) × (consume_date_of_birth is_uuid new_date env clock body db
        ≡ (raised (permanent_message c), db))

  invalid_Refused :
      (b : DateOfBirthPayload)
      → validate is_uuid (normalize_payload b) ≡ none
      → Refused (an_object b)
  unfolding consume_date_of_birth Refused
  invalid_Refused b h = (invalid_dob_payload, rw (h, consume_date_of_birth) refl)

  user_of-none :
      (f : Field) → ((t : Text) → f ≡ string_value t → is_uuid t ≡ none) → user_of is_uuid f ≡ none
  user_of-none nullish h = refl
  user_of-none (string_value t) h = h t refl
  user_of-none other_value h = refl

  user_missing :
      (b : DateOfBirthPayload)
      → user_of is_uuid b.user_id ≡ none
      → validate is_uuid (normalize_payload b) ≡ none
  unfolding validate normalize_payload
  user_missing b h =
      elim (Bool-cases (is_optional_string b.event_id && is_optional_string b.occurred_at_utc)) [
        | inl ok ↦ rw (ok, validate) (rw h refl)
        | inr bad ↦ rw (bad, validate) refl
      ]

  day_missing :
      (b : DateOfBirthPayload)
      → string_of (normalize_payload b).date_of_birth ≡ none
      → validate is_uuid (normalize_payload b) ≡ none
  unfolding validate normalize_payload
  day_missing b h =
      elim (Bool-cases (is_optional_string b.event_id && is_optional_string b.occurred_at_utc)) [
        | inr bad ↦ rw (bad, validate) refl
        | inl ok ↦ elim (Option-cases (user_of is_uuid b.user_id)) [
          | inl missing ↦ rw (ok, validate) (rw missing refl)
          | inr (u, found) ↦ rw (ok, validate) (rw found (rw h refl))
        ]
      ]

  -- the fields of a payload with a date under its own name
  validate-cases :
      (b : DateOfBirthPayload) (t : Text)
      → b.date_of_birth ≡ string_value t
      → (validate is_uuid (normalize_payload b) ≡ none)
        ⊎ ((u : Uuid) × (validate is_uuid (normalize_payload b) ≡ some (u, t)))
  unfolding validate normalize_payload or_else
  validate-cases b t h =
      elim (Bool-cases (is_optional_string b.event_id && is_optional_string b.occurred_at_utc)) [
        | inr bad ↦ inl (rw (bad, validate) refl)
        | inl ok ↦ elim (Option-cases (user_of is_uuid b.user_id)) [
          | inl missing ↦ inl (rw (ok, validate) (rw missing refl))
          | inr (u, found) ↦ inr (u, rw (ok, validate) (rw found (rw h refl)))
        ]
      ]

  day_Refused :
      (b : DateOfBirthPayload) (t : Text)
      → b.date_of_birth ≡ string_value t
      → ((u : Uuid)
          → process_user_date_of_birth_set new_date env clock u t db
            ≡ (raised (permanent_message invalid_date_of_birth), db))
      → Refused (an_object b)
  unfolding consume_date_of_birth Refused
  day_Refused b t h refused = elim (validate-cases b t h) [
    | inl bad ↦ invalid_Refused b bad
    | inr (u, ok) ↦ (invalid_date_of_birth, rw (ok, consume_date_of_birth) (refused u))
  ]

  unusable_Refused : (body : Body) → IsUnusable is_uuid new_date clock body → Refused body
  unfolding consume_date_of_birth Refused validate normalize_payload or_else
      process_user_date_of_birth_set
  unusable_Refused not_an_object no_object = (invalid_dob_payload, refl)
  unusable_Refused (an_object b) (no_user _ h) =
      invalid_Refused b (user_missing b (user_of-none b.user_id h))
  unusable_Refused (an_object b) (no_day _ h h' h'') =
      invalid_Refused b
        (day_missing b (rw (h, normalize_payload, or_else) (rw (h', or_else) (rw h'' refl))))
  unusable_Refused (an_object b) (no_calendar_day _ t h unread) =
      day_Refused b t h (λ u. rw (unread, process_user_date_of_birth_set) refl)
  unusable_Refused (an_object b) (day_to_come _ t d h day late) =
      day_Refused b t h (λ u. rw (day, process_user_date_of_birth_set) (rw late refl))

-- A message whose body is no object, names no user or no date, or has a date, under its own name,
-- that is no day or is still to come, changes nothing; and when it is new, two calm passes of the
-- loop are enough to put it aside after one run, with one permanent code, if attempts are left and
-- the outcome is recorded before the lease ends.
pub consume_date_of_birth-handle :
    (is_uuid : Text → Option Uuid) (new_date : Text → Option LocalDate) (env : ℕ → Attempt)
    (clock : Clock) (db : Db) (body : Body) (o : DeliveryOptions) (p q : Pass) (ps : List Pass)
    (now : Instant)
    → IsUnusable is_uuid new_date clock body
    → p.work ≡ failure_of (consume_date_of_birth is_uuid new_date env clock body db).0
    → IsCalm p
    → IsCalm q
    → 0 < o.max_attempts
    → outcome_at o p now < now + o.lease_ms
    → ((consume_date_of_birth is_uuid new_date env clock body db).1 ≡ db)
      × ((c : PermanentCode) × (handle o user_date_of_birth_set_op (p ∷ q ∷ ps) now none ≡ record {
        ending = acked;
        row = some (poisoned o user_date_of_birth_set_op p now c);
        works = 1;
        succeeded = false;
      }))
unfolding Refused
consume_date_of_birth-handle is_uuid new_date env clock db body o p q ps now bad run calm calm'
      some_left live =
    let (c, refused) = unusable_Refused is_uuid new_date env clock db body bad in
    let fails : p.work ≡ some (permanent_message c) = run ∙ rw refused refl in
    (
      rw refused refl,
      (c, handle-poisoned o user_date_of_birth_set_op p q ps now c calm calm' fails some_left live),
    )
