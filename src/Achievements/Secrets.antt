-- ===== src/Achievements/Secrets.antt =====
-- What the mapper shows of an achievement.
use cinema_loyalty_service.Prelude.{
  leb, Text, trim, ℤ, pos, negsuc, ◌≤ℤ◌, ℕ, ◌≤◌, ◌≡◌, refl, true, false, Option, none, some, arith,
  length,
}
use cinema_loyalty_service.Achievements.Catalogue.{
  AchievementInput, AchievementRow, AchievementRequest, max_reward_points,
  normalize_achievement_input,
}
use cinema_loyalty_service.Achievements.Input.{
  required_string, optional_string, int_in_range, normalize_criteria,
}
use cinema_loyalty_service.Achievements.Mapper.{
  to_locked_secret_grpc, AchievementDto, to_grpc, Printers, to_user_achievement_grpc,
}
use cinema_loyalty_service.Achievements.Progress.{Criteria}
use cinema_loyalty_service.Achievements.Rules.{grpc_round_trips}
use cinema_loyalty_service.Store.Types.{UserAchievement}

-- Of a secret achievement that is still locked, a user sees only its id, hint, kind, place and
-- times: the answer is the same whatever its code, name, description, icon, criteria and reward are,
-- and whatever the user's progress is.
pub to_user_achievement_grpc-masks :
    (pr : Printers) (u : UserAchievement) (a : AchievementRow) (code name description icon : Text)
    (criteria : Criteria) (reward current target : ℤ)
    → a.input.is_secret ≡ true
    → u.is_unlocked ≡ false
    → to_user_achievement_grpc pr true u a
      ≡ to_user_achievement_grpc pr true
          (record u { current = current; target = target })
          (record a {
            input = record a.input {
              code = code;
              name = name;
              description = description;
              icon = icon;
              criteria = criteria;
              reward_points = reward;
            };
          })
unfolding to_user_achievement_grpc to_locked_secret_grpc
to_user_achievement_grpc-masks pr u a code name description icon criteria reward current target
      hidden locked =
    rw (hidden, to_user_achievement_grpc) (rw locked refl)

-- the request that sends an answer back
abbrev pub request_of : AchievementDto → AchievementRequest
request_of d = record {
  code = d.code;
  name = d.name;
  description = d.description;
  secret_hint = d.secret_hint;
  is_secret = d.is_secret;
  icon = d.icon;
  category = d.category;
  rarity = d.rarity;
  strategy = d.strategy;
  criteria_json = d.criteria_json;
  reward_points = some d.reward_points;
  sort_order = some d.sort_order;
  is_active = d.is_active;
}

abbrev pub IsText : Text → ℕ → Type 0
IsText t limit = (trim t ≡ t) × (1 ≤ length t) × (length t ≤ limit)

abbrev IsHint : Option Text → Type 0
IsHint none = Unit
IsHint (some t) = (trim t ≡ t) × (1 ≤ length t)

-- What the validator leaves: trimmed texts within their lengths, numbers within their ranges, and
-- normalized criteria.
pub record IsNormalized (i : AchievementInput) : Type 0 where
  pub code_ok : IsText i.code 64
  pub name_ok : IsText i.name 128
  pub description_ok : IsText i.description 10000
  pub icon_ok : IsText i.icon 128
  pub hint_ok : IsHint i.secret_hint
  pub criteria_ok : normalize_criteria i.criteria ≡ i.criteria
  pub reward_ok : (pos 0 ≤ℤ i.reward_points) × (i.reward_points ≤ℤ max_reward_points)
  pub order_ok : (negsuc 32767 ≤ℤ i.sort_order) × (i.sort_order ≤ℤ pos 32767)

le_leb : (a b : ℕ) → a ≤ b → leb a b ≡ true
le_leb a b h = ground (arith, h)

required_string-IsText : (t : Text) (n : ℕ) → IsText t n → required_string t n ≡ some t
unfolding required_string
required_string-IsText t n (same, lo, hi) =
    rw same (rw (le_leb 1 (length t) lo) (rw (le_leb (length t) n hi) refl))

optional_string-IsHint : (t : Option Text) → IsHint t → optional_string t ≡ t
unfolding optional_string
optional_string-IsHint none h = refl
optional_string-IsHint (some t) (same, lo) = rw same (rw (le_leb 1 (length t) lo) refl)

int_in_range-within : (v lo hi : ℤ) → lo ≤ℤ v → v ≤ℤ hi → int_in_range (some v) lo hi ≡ some v
unfolding int_in_range
int_in_range-within v lo hi a b = ground (arith, a, b)

-- An answer to an administrator can be sent back: the validator reads it as the row that it was made
-- from, if the row is normalized and its criteria are read back from their JSON.
pub normalize_achievement_input-to_grpc :
    (parse_json : Text → Option Criteria) (print_json : Criteria → Text) (a : AchievementRow)
    → IsNormalized a.input
    → parse_json (print_json a.input.criteria) ≡ some a.input.criteria
    → normalize_achievement_input parse_json (request_of (to_grpc print_json a)) ≡ some a.input
unfolding normalize_achievement_input to_grpc
normalize_achievement_input-to_grpc parse_json print_json a h json =
    let i = a.input in
    let (category, rarity, strategy) = grpc_round_trips i.category i.rarity i.strategy in
    rw (required_string-IsText i.code 64 h.code_ok, normalize_achievement_input)
      (rw (required_string-IsText i.name 128 h.name_ok) (
        rw (required_string-IsText i.description 10000 h.description_ok) (
          rw (required_string-IsText i.icon 128 h.icon_ok) (
            rw (category, rarity, strategy, json)
              (rw
                (int_in_range-within i.reward_points (pos 0) max_reward_points h.reward_ok.0
                  h.reward_ok.1)
                (rw
                  (int_in_range-within i.sort_order (negsuc 32767) (pos 32767) h.order_ok.0
                    h.order_ok.1)
                  (rw (h.criteria_ok, optional_string-IsHint i.secret_hint h.hint_ok) refl)))))))
