-- ===== src/Calculator.antt =====
-- LoyaltyCalculatorService (src/loyalty/loyalty-calculator.service.ts), its constants
-- (src/loyalty/constants/loyalty.constants.ts) and the tier of the protocol
-- (src/utils/loyalty.mapper.ts).
-- Multipliers are in halves: the source's factors are 1, 1.5, 2, 3 and 5.
pub mod Rules
use cinema_loyalty_service.Prelude.{
  ℤ, pos, leb_ℤ, ℕ, ◌+◌, ◌-◌, ◌*◌, Bool, true, false, ◌||◌, Option, none, some, ltb, leb,
  if◌then◌else◌,
}
use cinema_loyalty_service.Dates.{day_number}
use cinema_loyalty_service.Store.Types.{
  Instant, MonthKey, Tier, bronze, silver, gold, EventType, standard, special, premiere,
  TransactionType, earn_ticket, earn_special, LocalDate,
}

-- The readings of the clock in one call; `one_year_later` is `addYears(_, 1)` of date-fns.
pub record Clock : Type 0 where
  pub now : Instant
  pub today : LocalDate
  pub month_key : MonthKey
  pub one_year_later : Instant → Instant

abbrev pub tier_order : Tier → ℕ
tier_order bronze = 0
tier_order silver = 1
tier_order gold = 2

abbrev pub gold_visits : ℕ
gold_visits = 20

abbrev pub gold_points : ℕ
gold_points = 5000

abbrev pub silver_visits : ℕ
silver_visits = 8

abbrev pub silver_points : ℕ
silver_points = 2000

abbrev pub tier_multiplier : Tier → ℕ
tier_multiplier gold = 4
tier_multiplier silver = 3
tier_multiplier bronze = 2

abbrev pub birthday_multiplier : Tier → ℕ
birthday_multiplier gold = 5
birthday_multiplier silver = 3
birthday_multiplier bronze = 2

abbrev pub is_special_event : EventType → Bool
is_special_event standard = false
is_special_event special = true
is_special_event premiere = true

unfoldable pub calculate_tier_by_metrics : ℤ → ℤ → Tier
calculate_tier_by_metrics visits points =
    if leb_ℤ (pos gold_visits) visits || leb_ℤ (pos gold_points) points
    then gold
    else if leb_ℤ (pos silver_visits) visits || leb_ℤ (pos silver_points) points
    then silver
    else bronze

unfoldable pub resolve_new_tier : Tier → ℤ → ℤ → Tier
unfolding calculate_tier_by_metrics
resolve_new_tier current visits points =
    let calculated = calculate_tier_by_metrics visits points in
    if ltb (tier_order current) (tier_order calculated) then calculated else current

unfoldable pub resolve_transaction_type : EventType → TransactionType
resolve_transaction_type e = if is_special_event e then earn_special else earn_ticket

abbrev pub distance : ℕ → ℕ → ℕ
distance a b = (a - b) + (b - a)

abbrev pub birthday_week_radius_days : ℕ
birthday_week_radius_days = 3

-- whether today is at most three days from the birthday in the year
near_birthday : Clock → LocalDate → ℕ → Bool
near_birthday clock b y =
    let today = day_number clock.today.year clock.today.month clock.today.day in
    leb (distance today (day_number y b.month b.day)) birthday_week_radius_days

unfoldable pub is_birthday_week : Clock → Option LocalDate → Bool
unfolding near_birthday
is_birthday_week clock none = false
is_birthday_week clock (some b) =
    near_birthday clock b (clock.today.year - 1)
    || (near_birthday clock b clock.today.year || near_birthday clock b (clock.today.year + 1))

unfoldable pub resolve_multiplier : Clock → Tier → Option LocalDate → EventType → ℕ
unfolding is_birthday_week
resolve_multiplier clock tier birthday event =
    let base = tier_multiplier tier in
    let with_birthday =
      if is_birthday_week clock birthday then base * birthday_multiplier tier else base in
    if is_special_event event then with_birthday * 2 else with_birthday

-- GrpcTier; TIER_UNSPECIFIED is 0
unfoldable pub to_grpc_tier : Tier → ℕ
to_grpc_tier bronze = 1
to_grpc_tier silver = 2
to_grpc_tier gold = 3
