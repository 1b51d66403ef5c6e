-- ===== src/Achievements/Catalogue.antt =====
-- The achievements themselves: the row (prisma/schema.prisma), `normalizeAchievementInput`
-- (src/achievements/validators/admin-achievement-input.validator.ts). `parse_json` stands for `JSON.parse` and the schema of the criteria; no value is `INVALID_ARGUMENT`.
use cinema_loyalty_service.Prelude.{Text, ℤ, pos, negsuc, ℕ, Bool, Option, none, some}
use cinema_loyalty_service.Achievements.Input.{
  Category, Rarity, Strategy, grpc_to_category, grpc_to_rarity, grpc_to_strategy, required_string,
  optional_string, int_in_range, normalize_criteria,
}
use cinema_loyalty_service.Achievements.Progress.{Criteria}
use cinema_loyalty_service.Store.Types.{Uuid, Instant}

pub record AchievementInput : Type 0 where
  pub code : Text
  pub name : Text
  pub description : Text
  pub secret_hint : Option Text
  pub is_secret : Bool
  pub icon : Text
  pub category : Category
  pub rarity : Rarity
  pub strategy : Strategy
  pub criteria : Criteria
  pub reward_points : ℤ
  pub sort_order : ℤ
  pub is_active : Bool

pub record AchievementRow : Type 0 where
  pub id : Uuid
  pub input : AchievementInput
  pub created_at : Instant
  pub updated_at : Instant

-- a request to create or to update; a text that is missing is empty
pub record AchievementRequest : Type 0 where
  pub code : Text
  pub name : Text
  pub description : Text
  pub secret_hint : Option Text
  pub is_secret : Bool
  pub icon : Text
  pub category : ℕ
  pub rarity : ℕ
  pub strategy : ℕ
  pub criteria_json : Text
  pub reward_points : Option ℤ
  pub sort_order : Option ℤ
  pub is_active : Bool

abbrev pub max_reward_points : ℤ
max_reward_points = pos 1000000

-- `Invalid ...`, of the first field that is refused
abbrev pub bind_option : {A B : Type 0} → Option A → (A → Option B) → Option B
bind_option none f = none
bind_option (some a) f = f a

unfoldable pub normalize_achievement_input :
    (Text → Option Criteria) → AchievementRequest → Option AchievementInput
normalize_achievement_input parse_json req = bind_option (required_string req.code 64) λ code.
    bind_option (required_string req.name 128) λ name.
      bind_option (required_string req.description 10000) λ description.
        bind_option (required_string req.icon 128) λ icon.
          bind_option (grpc_to_category req.category) λ category.
            bind_option (grpc_to_rarity req.rarity) λ rarity.
              bind_option (grpc_to_strategy req.strategy) λ strategy.
                bind_option (parse_json req.criteria_json) λ criteria.
                  bind_option (int_in_range req.reward_points (pos 0) max_reward_points)
                    λ reward_points.
                      bind_option (int_in_range req.sort_order (negsuc 32767) (pos 32767))
                        λ sort_order. some (record {
                          code = code;
                          name = name;
                          description = description;
                          secret_hint = optional_string req.secret_hint;
                          is_secret = req.is_secret;
                          icon = icon;
                          category = category;
                          rarity = rarity;
                          strategy = strategy;
                          criteria = normalize_criteria criteria;
                          reward_points = reward_points;
                          sort_order = sort_order;
                          is_active = req.is_active;
                        })
