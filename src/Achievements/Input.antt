-- ===== src/Achievements/Input.antt =====
-- Validation of administrators' input (src/achievements/validators) and the maps between the
-- protocol's numbers and the stored enumerations (src/achievements/enums/achievement-maps.enum.ts).
use cinema_loyalty_service.Prelude.{
  ℕ, Bool, ◌&&◌, ◌||◌, Option, none, some, if◌then◌else◌, leb, length, ℤ, pos, ltb_ℤ, leb_ℤ, Text,
  trim, ◌==◌,
}
use cinema_loyalty_service.Achievements.Progress.{
  Criteria, gte_operator, sum_operator, field_or_default,
}

pub data Category : Type 0 where
  visits spending tier_category time special_category streak_category secret : Category

pub data Rarity : Type 0 where
  common uncommon rare epic legendary : Rarity

pub data Strategy : Type 0 where
  instant threshold streak : Strategy

-- GrpcToCategory; a missing key is `none`
unfoldable pub grpc_to_category : ℕ → Option Category
grpc_to_category n =
    if n == 1
    then some visits
    else if n == 2
    then some spending
    else if n == 3
    then some tier_category
    else if n == 4
    then some time
    else if n == 5
    then some special_category
    else if n == 6
    then some streak_category
    else if n == 7
    then some secret
    else none

unfoldable pub grpc_to_rarity : ℕ → Option Rarity
grpc_to_rarity n =
    if n == 1
    then some common
    else if n == 2
    then some uncommon
    else if n == 3
    then some rare
    else if n == 4
    then some epic
    else if n == 5
    then some legendary
    else none

unfoldable pub grpc_to_strategy : ℕ → Option Strategy
grpc_to_strategy n =
    if n == 1
    then some instant
    else if n == 2
    then some threshold
    else if n == 3
    then some streak
    else none

unfoldable pub category_to_grpc : Category → ℕ
category_to_grpc visits = 1
category_to_grpc spending = 2
category_to_grpc tier_category = 3
category_to_grpc time = 4
category_to_grpc special_category = 5
category_to_grpc streak_category = 6
category_to_grpc secret = 7

unfoldable pub rarity_to_grpc : Rarity → ℕ
rarity_to_grpc common = 1
rarity_to_grpc uncommon = 2
rarity_to_grpc rare = 3
rarity_to_grpc epic = 4
rarity_to_grpc legendary = 5

unfoldable pub strategy_to_grpc : Strategy → ℕ
strategy_to_grpc instant = 1
strategy_to_grpc threshold = 2
strategy_to_grpc streak = 3

-- `none` is the INVALID_ARGUMENT of the field
unfoldable pub required_string : Text → ℕ → Option Text
required_string value limit =
    let normalized = trim value in
    if leb 1 (length normalized) && leb (length normalized) limit then some normalized else none

unfoldable pub optional_string : Option Text → Option Text
optional_string none = none
optional_string (some value) =
    let normalized = trim value in if leb 1 (length normalized) then some normalized else none

-- the protocol's values are integers; a missing one stands for 0
unfoldable pub int_in_range : Option ℤ → ℤ → ℤ → Option ℤ
int_in_range value lo hi =
    let normalized : ℤ = elim value [ none ↦ pos 0 | some v ↦ v ] in
    if ltb_ℤ normalized lo || ltb_ℤ hi normalized then none else some normalized

unfoldable pub clamp_int : Option ℤ → ℤ → ℤ → ℤ
clamp_int none lo hi = lo
clamp_int (some v) lo hi =
    let raised_value = if ltb_ℤ v lo then lo else v in
    if ltb_ℤ hi raised_value then hi else raised_value

pub record Page : Type 0 where
  pub limit : ℤ
  pub offset : ℤ

unfoldable pub normalize_admin_achievements_pagination : Option ℤ → Option ℤ → Page
unfolding clamp_int
normalize_admin_achievements_pagination limit offset = record {
  limit = clamp_int limit (pos 1) (pos 200);
  offset = clamp_int offset (pos 0) (pos 1000000);
}

-- `normalizeCriteria`: only a sum keeps a value field, and it always has one
unfoldable pub normalize_criteria : Criteria → Criteria
normalize_criteria c = elim c.operator [
  | gte_operator ↦ record c { value_field = none }
  | sum_operator ↦ record c { value_field = some (field_or_default c.value_field) }
]

-- the schema's test of the target: an integer from 1 to MAX_ACHIEVEMENT_TARGET
unfoldable pub target_ok : ℤ → Bool
target_ok t = leb_ℤ (pos 1) t && leb_ℤ t (pos 1000000000)
