-- ===== src/Delivery/Purchases.antt =====
-- The consumer of purchases (src/loyalty/consumers/ticket-purchased.consumer.ts with
-- src/loyalty/dto/ticked-purchased.dto.ts). `is_uuid` and `is_date` stand for class-validator's
-- `IsUUID` and `IsDateString`. A number of the payload is in hundredths.
use cinema_loyalty_service.Prelude.{
  refl, ◌∙◌, Text, text_eq, ℤ, pos, ℕ, ◌≡◌, inl, inr, Bool, Option, none, some, [], ◌∷◌, arith,
  if◌then◌else◌, Option-cases,
}
use cinema_loyalty_service.Calculator.{Clock}
use cinema_loyalty_service.Purchase.{TicketPurchased, purchase_body, process_ticket_purchase}
use cinema_loyalty_service.Purchase.Replay.{
  IsRecorded, recorded-purchase_body, purchase_body-IsRecorded,
}
use cinema_loyalty_service.Store.Retry.{
  IsUndisturbed, with_transaction_retry-returned, with_transaction_retry-undisturbed,
}
use cinema_loyalty_service.Store.Tx.{
  invalid_purchase_payload, permanent_message, Attempt, Answer, returned, raised,
}
use cinema_loyalty_service.Store.Types.{
  Uuid, EventType, standard, special, premiere, Db, FieldValue, undefined, null, given,
}

-- the value of a field, or that it is absent
pub data JsonValue : Type 0 where
  absent a_null : JsonValue
  a_text : Text → JsonValue
  a_number : ℤ → JsonValue
  other_json : JsonValue

pub record PurchasePayload : Type 0 where
  pub event_id : JsonValue
  pub user_id : JsonValue
  pub order_id : JsonValue
  pub total_amount : JsonValue
  pub ticket_amount : JsonValue
  pub food_amount : JsonValue
  pub event_type : JsonValue
  pub purchased_at : JsonValue
  pub paid_amount : JsonValue
  pub points_used : JsonValue
  pub seat_class : JsonValue
  pub ticket_count : JsonValue

abbrev text_in : JsonValue → Option Text
text_in (a_text t) = some t
text_in _ = none

-- `IsNumber` and `Min(0)`
abbrev amount_in : JsonValue → Option ℕ
amount_in (a_number (pos n)) = some n
amount_in _ = none

-- the text of a field that `IsUUID` accepts
abbrev uuid_in : (Text → Option Uuid) → JsonValue → Option (Text × Uuid)
uuid_in is_uuid (a_text t) = elim (is_uuid t) [ none ↦ none | some u ↦ some (t, u) ]
uuid_in is_uuid _ = none

-- `STANDARD`, `SPECIAL` and `PREMIERE`
abbrev event_type_text : EventType → Text
event_type_text standard = b'S' ∷ b'T' ∷ b'A' ∷ b'N' ∷ b'D' ∷ b'A' ∷ b'R' ∷ b'D' ∷ []
event_type_text special = b'S' ∷ b'P' ∷ b'E' ∷ b'C' ∷ b'I' ∷ b'A' ∷ b'L' ∷ []
event_type_text premiere = b'P' ∷ b'R' ∷ b'E' ∷ b'M' ∷ b'I' ∷ b'E' ∷ b'R' ∷ b'E' ∷ []

-- `IsEnum(EventType)`
unfoldable pub event_type_in : JsonValue → Option EventType
event_type_in (a_text t) =
    if text_eq t (event_type_text standard)
    then some standard
    else if text_eq t (event_type_text special)
    then some special
    else if text_eq t (event_type_text premiere)
    then some premiere
    else none
event_type_in _ = none

abbrev present : {A : Type 0} → Option A → Option (FieldValue A)
present none = none
present (some a) = some (given a)

-- a field that `IsOptional` lets be absent or null; it is kept as it is
abbrev optional : {A : Type 0} → (JsonValue → Option A) → JsonValue → Option (FieldValue A)
optional read absent = some undefined
optional read a_null = some null
optional read (a_text t) = present (read (a_text t))
optional read (a_number n) = present (read (a_number n))
optional read other_json = present (read other_json)

abbrev number_in : JsonValue → Option ℤ
number_in (a_number n) = some n
number_in _ = none

abbrev date_in : (Text → Bool) → JsonValue → Option Text
date_in is_date (a_text t) = if is_date t then some t else none
date_in is_date _ = none

infixl 5 ◌>>=◌
abbrev ◌>>=◌ : {A B : Type 0} → Option A → (A → Option B) → Option B
none >>= f = none
some a >>= f = f a

-- the message of a payload that the schema accepts
unfoldable pub validate_purchase :
    (Text → Option Uuid) → (Text → Bool) → PurchasePayload → Option TicketPurchased
unfolding event_type_in
validate_purchase is_uuid is_date b = do
  event ← uuid_in is_uuid b.event_id
  user ← uuid_in is_uuid b.user_id
  order ← uuid_in is_uuid b.order_id
  total ← amount_in b.total_amount
  _ ← amount_in b.ticket_amount
  _ ← amount_in b.food_amount
  type ← event_type_in b.event_type
  _ ← date_in is_date b.purchased_at
  paid ← optional amount_in b.paid_amount
  used ← optional amount_in b.points_used
  seat ← optional text_in b.seat_class
  _ ← optional number_in b.ticket_count
  some (record {
    event_id = event.0;
    user_id = user.1;
    order_id = order.0;
    total_amount = total;
    event_type = type;
    paid_amount = paid;
    points_used = used;
    seat_class = seat;
  })

-- what the transport and class-validator give
pub record PurchaseReader : Type 0 where
  pub is_uuid : Text → Option Uuid
  pub is_date : Text → Bool
  pub uuid_of : Text → Uuid

-- the work on one message; `none` is a body that is no object
unfoldable pub consume_purchase :
    PurchaseReader → (ℕ → Attempt) → Clock → Option PurchasePayload → Db → Answer (Unit {0}) × Db
consume_purchase rd env clock none db = (raised (permanent_message invalid_purchase_payload), db)
consume_purchase rd env clock (some b) db = elim (validate_purchase rd.is_uuid rd.is_date b) [
  | none ↦ (raised (permanent_message invalid_purchase_payload), db)
  | some msg ↦ process_ticket_purchase rd.uuid_of env clock msg db
]

consume_purchase-valid :
    (rd : PurchaseReader) (env : ℕ → Attempt) (clock : Clock) (b : PurchasePayload)
    (msg : TicketPurchased) (db : Db)
    → validate_purchase rd.is_uuid rd.is_date b ≡ some msg
    → consume_purchase rd env clock (some b) db
      ≡ process_ticket_purchase rd.uuid_of env clock msg db
unfolding consume_purchase
consume_purchase-valid rd env clock b msg db valid = rw (valid, consume_purchase) refl

-- A purchase that arrives twice counts once: when the work on a message succeeded, the work on the
-- same body, on the database that it left, succeeds and changes nothing, at any later instant, if no
-- other session disturbs it.
pub consume_purchase-replay :
    (rd : PurchaseReader) (env again : ℕ → Attempt) (clock later : Clock)
    (body : Option PurchasePayload) (db : Db)
    → IsUndisturbed (again 2)
    → (consume_purchase rd env clock body db).0 ≡ returned tt
    → consume_purchase rd again later body (consume_purchase rd env clock body db).1
      ≡ (returned tt, (consume_purchase rd env clock body db).1)
unfolding consume_purchase process_ticket_purchase
consume_purchase-replay rd env again clock later none db calm won = absurd (ground (arith, won))
consume_purchase-replay rd env again clock later (some b) db calm won =
    elim (Option-cases (validate_purchase rd.is_uuid rd.is_date b)) [
      | inl invalid ↦
          let lost = rw (invalid, consume_purchase) at won in absurd (ground (arith, lost))
      | inr (msg, valid) ↦
          let ran = rw (valid, consume_purchase) at won in
          let d = (process_ticket_purchase rd.uuid_of env clock msg db).1 in
          let recorded : IsRecorded msg d =
            with_transaction_retry-returned (IsRecorded msg)
              (λ raced. purchase_body rd.uuid_of clock msg) env
              (λ n x. purchase_body-IsRecorded rd.uuid_of clock msg x) db tt ran in
          rw (consume_purchase-valid rd env clock b msg db valid) (
            consume_purchase-valid rd again later b msg d valid
            ∙ with_transaction_retry-undisturbed (λ raced. purchase_body rd.uuid_of later msg) again
                d d tt calm (recorded-purchase_body rd.uuid_of later msg d recorded))
    ]
