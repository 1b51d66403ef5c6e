-- ===== src/Achievements/Rules.antt =====
-- Properties of the achievements' input, increments and intents.
use cinema_loyalty_service.Prelude.{
  ℕ, ◌≡◌, refl, true, some, Option, List, [], ◌∷◌, arith, is_some, ◌≤ℤ◌, pos, ℤ, Text, update_where,
  Bool,
}
use cinema_loyalty_service.Store.Types.{DispatchIntent, Instant}
use cinema_loyalty_service.Achievements.Intents.{ActionEvent}
use cinema_loyalty_service.Achievements.Progress.{
  Criteria, gte_operator, sum_operator, calculate_achievement_progress_increment, Operator,
}
use cinema_loyalty_service.Achievements.Publisher.{publish, publish_all}
use cinema_loyalty_service.Achievements.Input.{
  Category, Rarity, Strategy, visits, spending, tier_category, time, special_category,
  streak_category, secret, common, uncommon, rare, epic, legendary, instant, threshold, streak,
  grpc_to_category, category_to_grpc, grpc_to_rarity, rarity_to_grpc, grpc_to_strategy,
  strategy_to_grpc, normalize_criteria, normalize_admin_achievements_pagination,
}

category_round_trip : (c : Category) → grpc_to_category (category_to_grpc c) ≡ some c
unfolding grpc_to_category category_to_grpc
category_round_trip visits = refl
category_round_trip spending = refl
category_round_trip tier_category = refl
category_round_trip time = refl
category_round_trip special_category = refl
category_round_trip streak_category = refl
category_round_trip secret = refl

rarity_round_trip : (r : Rarity) → grpc_to_rarity (rarity_to_grpc r) ≡ some r
unfolding grpc_to_rarity rarity_to_grpc
rarity_round_trip common = refl
rarity_round_trip uncommon = refl
rarity_round_trip rare = refl
rarity_round_trip epic = refl
rarity_round_trip legendary = refl

strategy_round_trip : (s : Strategy) → grpc_to_strategy (strategy_to_grpc s) ≡ some s
unfolding grpc_to_strategy strategy_to_grpc
strategy_round_trip instant = refl
strategy_round_trip threshold = refl
strategy_round_trip streak = refl

-- The protocol's numbers of the categories, rarities and strategies are read back as what they
-- were written from.
pub grpc_round_trips :
    (c : Category) (r : Rarity) (s : Strategy)
    → (grpc_to_category (category_to_grpc c) ≡ some c)
      × (grpc_to_rarity (rarity_to_grpc r) ≡ some r)
      × (grpc_to_strategy (strategy_to_grpc s) ≡ some s)
grpc_round_trips c r s = (category_round_trip c, rarity_round_trip r, strategy_round_trip s)

-- Normalizing criteria twice is normalizing them once, and normalized criteria count every event
-- as the original ones do.
pub normalize_criteria-faithful :
    (value_of : Text → ActionEvent → ℕ) (c : Criteria) (e : ActionEvent)
    → (normalize_criteria (normalize_criteria c) ≡ normalize_criteria c)
      × (calculate_achievement_progress_increment value_of (normalize_criteria c) e
          ≡ calculate_achievement_progress_increment value_of c e)
unfolding normalize_criteria calculate_achievement_progress_increment
normalize_criteria-faithful value_of c e = cases c.operator refl
  where
    cases :
        (o : Operator)
        → c.operator ≡ o
        → (normalize_criteria (normalize_criteria c) ≡ normalize_criteria c)
          × (calculate_achievement_progress_increment value_of (normalize_criteria c) e
              ≡ calculate_achievement_progress_increment value_of c e)
    cases gte_operator q = ground arith
    cases sum_operator q = ground arith

-- A page of achievements has 1 to 200 rows, and starts at 0 to 1000000, whatever was asked.
pub normalize_admin_achievements_pagination-bounds :
    (limit offset : Option ℤ)
    → (pos 1 ≤ℤ (normalize_admin_achievements_pagination limit offset).limit)
      × ((normalize_admin_achievements_pagination limit offset).limit ≤ℤ pos 200)
      × (pos 0 ≤ℤ (normalize_admin_achievements_pagination limit offset).offset)
      × ((normalize_admin_achievements_pagination limit offset).offset ≤ℤ pos 1000000)
unfolding normalize_admin_achievements_pagination
normalize_admin_achievements_pagination-bounds limit offset = ground arith

publish-delivered :
    (now : Instant) (sent : Bool) (n : ℕ) (i : DispatchIntent) (rows : List DispatchIntent)
    → is_some i.delivered_at ≡ true
    → publish now sent n (i ∷ rows) ≡ i ∷ publish now sent n rows
unfolding publish update_where
publish-delivered now sent n i rows h = ground arith

-- An intent that was delivered is never changed again: no result of a later or a concurrent wave
-- touches its row.
pub publish_all-delivered :
    (results : List (ℕ × Instant × Bool)) (i : DispatchIntent) (rows : List DispatchIntent)
    → is_some i.delivered_at ≡ true
    → publish_all results (i ∷ rows) ≡ i ∷ publish_all results rows
unfolding publish_all
publish_all-delivered [] i rows h = refl
publish_all-delivered ((n, now, sent) ∷ rest) i rows h =
    rw (publish-delivered now sent n i rows h) (publish_all-delivered rest i _ h)
