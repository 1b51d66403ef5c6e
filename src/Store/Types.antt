-- ===== src/Store/Types.antt =====
-- The rows of the tables (prisma/schema.prisma) and the enumerations that they store.
-- A uuid is the number that it denotes, an instant a number of milliseconds, a month key
-- (`YYYY-MM`) the number of the month, which has the same order. Free text that no code reads
-- (descriptions, error columns) is left out.
use cinema_loyalty_service.Prelude.{ℕ, ℤ, Text, Bool, true, false, Option, List}

abbrev pub Uuid : Type 0
Uuid = ℕ

abbrev pub Instant : Type 0
Instant = ℕ

abbrev pub MonthKey : Type 0
MonthKey = ℕ

pub data Tier : Type 0 where
  bronze silver gold : Tier

pub data EventType : Type 0 where
  standard special premiere : EventType

pub data TransactionType : Type 0 where
  earn_ticket earn_food earn_birthday earn_special earn_promo : TransactionType
  burn_discount burn_reward expire adjust refund earn_achievement : TransactionType
  admin_addition admin_deduction : TransactionType

pub data Operation : Type 0 where
  deduct_points_op refund_points_op : Operation

pub record LocalDate : Type 0 where
  pub year : ℕ
  pub month : ℕ
  pub day : ℕ

pub record Profile : Type 0 where
  pub id : ℕ
  pub user_id : Uuid
  pub tier : Tier
  pub balance : ℤ
  pub lifetime_points : ℤ
  pub year_points : ℤ
  pub year_visits : ℤ
  pub tier_expires_at : Option Instant
  pub last_activity_at : Option Instant
  pub balance_expires_at : Option Instant
  pub birthday_date : Option LocalDate
  pub last_expiry_notification_at : Option Instant
  pub gold_upgrade_used_month : Option MonthKey

-- the columns after `event_id` are null on the row of a plain event
pub record ProcessedEvent : Type 0 where
  pub event_id : Text
  pub operation : Option Operation
  pub user_id : Option Uuid
  pub order_id : Option Uuid
  pub amount : Option ℤ
  pub balance_after : Option ℤ

pub record PointsTransaction : Type 0 where
  pub id : ℕ
  pub user_id : Uuid
  pub type : TransactionType
  pub points : ℤ
  pub balance_after : ℤ
  pub order_id : Option Uuid

pub record CheckoutDebit : Type 0 where
  pub debit_id : ℕ
  pub refund_id : Option ℕ

pub record GoldReservation : Type 0 where
  pub id : ℕ
  pub user_id : Uuid
  pub month : MonthKey
  pub order_id : Option Uuid
  pub released_at : Option Instant

pub record BonusGrant : Type 0 where
  pub user_id : Uuid
  pub grant_year : ℕ
  pub points : ℤ
  pub points_transaction_id : ℕ
  pub granted_at : Instant

pub data OutboxStatus : Type 0 where
  pending processing completed failed : OutboxStatus

-- the payload is that of a tier upgrade, the only event that the service writes
pub record OutboxEvent : Type 0 where
  pub id : ℕ
  pub user_id : Uuid
  pub old_tier : Tier
  pub new_tier : Tier
  pub status : OutboxStatus
  pub attempts : ℕ
  pub max_attempts : ℕ
  pub lease_token : Option ℕ
  pub lease_expires_at : Option Instant
  pub next_attempt_at : Instant
  pub published_at : Option Instant

pub data AchievementAction : Type 0 where
  ticket_purchased bulk_ticket_purchased review_left vip_seat_bought : AchievementAction

-- a field that a client may leave out, or give as null
pub data FieldValue (A : Type 0) : Type 0 where
  undefined null : FieldValue A
  given : A → FieldValue A

-- amounts of money are in hundredths
pub record ActionMetadata : Type 0 where
  pub amount : ℕ
  pub points_used : ℕ
  pub paid_amount : FieldValue ℕ
  pub event_type : Option EventType
  pub seat_class : FieldValue Text

pub record DispatchIntent : Type 0 where
  pub id : ℕ
  pub event_id : Text
  pub user_id : Uuid
  pub action_type : AchievementAction
  pub payload : ActionMetadata
  pub delivered_at : Option Instant
  pub attempts : ℕ
  pub next_attempt_at : Instant

pub record UserAchievement : Type 0 where
  pub id : ℕ
  pub user_id : Uuid
  pub achievement_id : Uuid
  pub current : ℤ
  pub target : ℤ
  pub is_unlocked : Bool
  pub unlocked_at : Option Instant

-- Tables list the newest row first. `next_id` is above every generated id.
pub record Db : Type 0 where
  pub profiles : List Profile
  pub processed : List ProcessedEvent
  pub transactions : List PointsTransaction
  pub debits : List CheckoutDebit
  pub reservations : List GoldReservation
  pub grants : List BonusGrant
  pub outbox : List OutboxEvent
  pub intents : List DispatchIntent
  pub user_achievements : List UserAchievement
  pub next_id : ℕ

abbrev pub tier_eq : Tier → Tier → Bool
tier_eq bronze bronze = true
tier_eq silver silver = true
tier_eq gold gold = true
tier_eq _ _ = false

abbrev pub type_eq_burn : TransactionType → Bool
type_eq_burn burn_discount = true
type_eq_burn _ = false

abbrev pub type_eq_refund : TransactionType → Bool
type_eq_refund refund = true
type_eq_refund _ = false

abbrev pub operation_eq : Operation → Operation → Bool
operation_eq deduct_points_op deduct_points_op = true
operation_eq refund_points_op refund_points_op = true
operation_eq _ _ = false
