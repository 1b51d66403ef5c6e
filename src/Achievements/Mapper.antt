-- ===== src/Achievements/Mapper.antt =====
-- AchievementMapper (src/achievements/mappers/achievement.mapper.ts), and the reader of a user's
-- achievements (src/achievements/achievements.service.ts). `print_json` stands for `JSON.stringify`.
use cinema_loyalty_service.Prelude.{
  Text, ℤ, pos, ℕ, Bool, true, false, not, ◌&&◌, ◌||◌, Option, none, some, List, [], ◌∷◌, ◌==◌,
  if◌then◌else◌,
}
use cinema_loyalty_service.Achievements.Catalogue.{AchievementRow}
use cinema_loyalty_service.Achievements.Input.{category_to_grpc, rarity_to_grpc, strategy_to_grpc}
use cinema_loyalty_service.Achievements.Progress.{Criteria}
use cinema_loyalty_service.Store.Types.{Uuid, Instant, UserAchievement}

pub record AchievementDto : Type 0 where
  pub id : Uuid
  pub code : Text
  pub name : Text
  pub description : Text
  pub secret_hint : Option Text
  pub is_secret : Bool
  pub icon : Text
  pub category : ℕ
  pub rarity : ℕ
  pub strategy : ℕ
  pub criteria_json : Text
  pub reward_points : ℤ
  pub sort_order : ℤ
  pub is_active : Bool
  pub created_at : Instant
  pub updated_at : Instant

unfoldable pub to_grpc : (Criteria → Text) → AchievementRow → AchievementDto
to_grpc print_json a = record {
  id = a.id;
  code = a.input.code;
  name = a.input.name;
  description = a.input.description;
  secret_hint = a.input.secret_hint;
  is_secret = a.input.is_secret;
  icon = a.input.icon;
  category = category_to_grpc a.input.category;
  rarity = rarity_to_grpc a.input.rarity;
  strategy = strategy_to_grpc a.input.strategy;
  criteria_json = print_json a.input.criteria;
  reward_points = a.input.reward_points;
  sort_order = a.input.sort_order;
  is_active = a.input.is_active;
  created_at = a.created_at;
  updated_at = a.updated_at;
}

-- `secret-` and the id
abbrev pub secret_code : (Uuid → Text) → Uuid → Text
secret_code uuid_text n = b's' ∷ b'e' ∷ b'c' ∷ b'r' ∷ b'e' ∷ b't' ∷ b'-' ∷ uuid_text n

-- `Secret achievement`, `lock` and `{}`
abbrev pub secret_name : Text
secret_name =
    b'S' ∷ b'e' ∷ b'c' ∷ b'r' ∷ b'e' ∷ b't' ∷ b' ' ∷ b'a' ∷ b'c' ∷ b'h' ∷ b'i' ∷ b'e' ∷ b'v' ∷ b'e'
    ∷ b'm' ∷ b'e' ∷ b'n' ∷ b't' ∷ []

abbrev pub lock_icon : Text
lock_icon = b'l' ∷ b'o' ∷ b'c' ∷ b'k' ∷ []

abbrev pub empty_json : Text
empty_json = b'{' ∷ b'}' ∷ []

abbrev text_or_empty : Option Text → Text
text_or_empty none = []
text_or_empty (some t) = t

unfoldable pub to_locked_secret_grpc : (Uuid → Text) → AchievementRow → AchievementDto
to_locked_secret_grpc uuid_text a = record {
  id = a.id;
  code = secret_code uuid_text a.id;
  name = secret_name;
  description = text_or_empty a.input.secret_hint;
  secret_hint = a.input.secret_hint;
  is_secret = true;
  icon = lock_icon;
  category = category_to_grpc a.input.category;
  rarity = rarity_to_grpc a.input.rarity;
  strategy = strategy_to_grpc a.input.strategy;
  criteria_json = empty_json;
  reward_points = pos 0;
  sort_order = a.input.sort_order;
  is_active = a.input.is_active;
  created_at = a.created_at;
  updated_at = a.updated_at;
}

pub record UserAchievementDto : Type 0 where
  pub achievement : AchievementDto
  pub current : ℤ
  pub target : ℤ
  pub is_unlocked : Bool
  pub unlocked_at : Option Instant

-- the two texts that the mapper takes from the runtime
pub record Printers : Type 0 where
  pub print_json : Criteria → Text
  pub uuid_text : Uuid → Text

unfoldable pub to_user_achievement_grpc :
    Printers → Bool → UserAchievement → AchievementRow → UserAchievementDto
to_user_achievement_grpc pr mask_locked_secrets u a =
    if mask_locked_secrets && (a.input.is_secret && not u.is_unlocked)
    then record {
      achievement = to_locked_secret_grpc pr.uuid_text a;
      current = pos 0;
      target = pos 1;
      is_unlocked = false;
      unlocked_at = none;
    }
    else record {
      achievement = to_grpc pr.print_json a;
      current = u.current;
      target = u.target;
      is_unlocked = u.is_unlocked;
      unlocked_at = u.unlocked_at;
    }

unfoldable pub find_achievement : Uuid → List AchievementRow → Option AchievementRow
find_achievement n [] = none
find_achievement n (a ∷ rows) = if a.id == n then some a else find_achievement n rows

-- a user's row with its achievement, if that is active, and unlocked unless locked ones are asked
unfoldable pub listed : Bool → List AchievementRow → UserAchievement → Option AchievementRow
unfolding find_achievement
listed include_locked catalogue u = elim (find_achievement u.achievement_id catalogue) [
  | none ↦ none
  | some a ↦ if a.input.is_active && (include_locked || u.is_unlocked) then some a else none
]

-- `getUserAchievementsGrpc`; the order of the answer is that of the rows
unfoldable pub get_user_achievements :
    Printers → Uuid → Bool → List AchievementRow → List UserAchievement → List UserAchievementDto
get_user_achievements pr user include_locked catalogue [] = []
get_user_achievements pr user include_locked catalogue (u ∷ us) =
    let rest = get_user_achievements pr user include_locked catalogue us in
    if u.user_id == user
    then elim (listed include_locked catalogue u) [
      | none ↦ rest
      | some a ↦ to_user_achievement_grpc pr true u a ∷ rest
    ]
    else rest
