-- ===== src/Calculator/Rules.antt =====
-- The tiers and the multipliers.
use cinema_loyalty_service.Prelude.{◌≡◌, ◌≤◌, ◌⊎◌, Option, ℤ, ◌≤ℤ◌, arith}
use cinema_loyalty_service.Store.Types.{Tier, EventType, LocalDate, bronze, silver, gold}
use cinema_loyalty_service.Calculator.{
  Clock, tier_order, calculate_tier_by_metrics, resolve_new_tier, resolve_multiplier,
  is_birthday_week,
}

-- A tier is never lowered, and never below what the visits and the points give; and it is one of
-- these two.
pub resolve_new_tier-lower_bounds :
    (current : Tier) (visits points : ℤ)
    → (tier_order current ≤ tier_order (resolve_new_tier current visits points))
      × (tier_order (calculate_tier_by_metrics visits points)
          ≤ tier_order (resolve_new_tier current visits points))
      × ((resolve_new_tier current visits points ≡ current)
          ⊎ (resolve_new_tier current visits points ≡ calculate_tier_by_metrics visits points))
unfolding resolve_new_tier
resolve_new_tier-lower_bounds current visits points = ground arith

-- More visits and more points never give a lower tier.
pub calculate_tier_by_metrics-monotone :
    (v w p q : ℤ)
    → v ≤ℤ w
    → p ≤ℤ q
    → tier_order (calculate_tier_by_metrics v p) ≤ tier_order (calculate_tier_by_metrics w q)
unfolding calculate_tier_by_metrics
calculate_tier_by_metrics-monotone v w p q vw pq = ground arith

-- A multiplier is from 1 to 20 (2 to 40 halves), for every tier, birthday and event.
pub resolve_multiplier-bounds :
    (clock : Clock) (tier : Tier) (birthday : Option LocalDate) (event : EventType)
    → (2 ≤ resolve_multiplier clock tier birthday event)
      × (resolve_multiplier clock tier birthday event ≤ 40)
unfolding resolve_multiplier is_birthday_week
resolve_multiplier-bounds clock bronze birthday event = ground arith
resolve_multiplier-bounds clock silver birthday event = ground arith
resolve_multiplier-bounds clock gold birthday event = ground arith
