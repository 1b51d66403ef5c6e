-- ===== src/Reads.antt =====
-- What is read of a user: `getBalance`, `getFullProfile`, `calculateDiscount` and
-- `getUserTransactions` (src/loyalty/loyalty.service.ts), and `getUserBalanceGrpc` and
-- `getUsersGrpc` (src/loyalty/admin-loyalty.service.ts). An amount of money is in hundredths.
pub mod Discount
use cinema_loyalty_service.Prelude.{
  [], ℤ, pos, negsuc, pos_part, ltb_ℤ, ◌-ℤ◌, ℕ, ◌+◌, ◌*◌, ◌/◌, Bool, true, false, not, ◌&&◌, ◌||◌,
  Option, none, some, List, ◌∷◌, map, ◌==◌, if◌then◌else◌, length, take, drop, select,
}
use cinema_loyalty_service.Admin.{admin_pagination}
use cinema_loyalty_service.Calculator.{Clock, is_birthday_week, to_grpc_tier}
use cinema_loyalty_service.Gold.{is_gold_upgrade_available, used_in}
use cinema_loyalty_service.Points.Deduct.{minimum_deduction_points}
use cinema_loyalty_service.Store.Profiles.{find_profile, new_profile, ensure_profile, balance_of}
use cinema_loyalty_service.Store.Tx.{Answer, returned, raised}
use cinema_loyalty_service.Store.Types.{
  Uuid, Instant, MonthKey, Tier, gold, Profile, PointsTransaction, Db, tier_eq,
}

-- the row that `upsert` finds or creates, and the database after it
unfoldable pub upsert_profile : Uuid → Db → Profile × Db
unfolding find_profile
upsert_profile u db = (
  elim (find_profile u db.profiles) [ none ↦ new_profile db.next_id u | some p ↦ p ],
  ensure_profile u db,
)

pub record Balances : Type 0 where
  pub balance : ℤ
  pub lifetime_points : ℤ
  pub year_points : ℤ
  pub tier : ℕ

unfoldable pub get_balance : Uuid → Db → Balances × Db
unfolding upsert_profile
get_balance u db =
    let (p, db') = upsert_profile u db in
    (
      record {
        balance = p.balance;
        lifetime_points = p.lifetime_points;
        year_points = p.year_points;
        tier = to_grpc_tier p.tier;
      },
      db',
    )

-- `getUserBalanceGrpc` answers with three of the four
unfoldable pub get_user_balance : Uuid → Db → (ℤ × ℤ × ℕ) × Db
unfolding upsert_profile
get_user_balance u db =
    let (p, db') = upsert_profile u db in ((p.balance, p.lifetime_points, to_grpc_tier p.tier), db')

pub record FullProfile : Type 0 where
  pub user_id : Uuid
  pub tier : ℕ
  pub balance : ℤ
  pub lifetime_points : ℤ
  pub year_points : ℤ
  pub year_visits : ℤ
  pub tier_expires_at : Option Instant
  pub balance_expires_at : Option Instant
  pub is_in_birthday_week : Bool
  pub gold_upgrade_available : Bool

unfoldable pub get_full_profile : Clock → Uuid → Db → FullProfile × Db
unfolding upsert_profile is_gold_upgrade_available is_birthday_week
get_full_profile clock u db =
    let (p, db') = upsert_profile u db in
    (
      record {
        user_id = p.user_id;
        tier = to_grpc_tier p.tier;
        balance = p.balance;
        lifetime_points = p.lifetime_points;
        year_points = p.year_points;
        year_visits = p.year_visits;
        tier_expires_at = p.tier_expires_at;
        balance_expires_at = p.balance_expires_at;
        is_in_birthday_week = is_birthday_week clock p.birthday_date;
        gold_upgrade_available = is_gold_upgrade_available clock p.tier p.gold_upgrade_used_month;
      },
      db',
    )

-- the whole points in half an amount, rounded down
abbrev pub half_in_points : ℤ → ℤ
half_in_points (pos n) = pos (n / 200)
half_in_points (negsuc n) = negsuc (n / 200)

-- the amount of money that points are worth
abbrev pub worth : ℤ → ℤ
worth (pos n) = pos (n * 100)
worth (negsuc n) = negsuc (n * 100 + 99)

pub record DiscountAnswer : Type 0 where
  pub is_allowed : Bool
  pub points_to_deduct : ℤ
  pub amount_to_pay : ℤ

-- the balance is whole, so the smaller one may be rounded first
unfoldable pub discount_of : ℤ → ℤ → DiscountAnswer
discount_of balance amount =
    let points = if ltb_ℤ balance (half_in_points amount) then balance else half_in_points amount in
    if ltb_ℤ points (pos minimum_deduction_points)
    then record { is_allowed = false; points_to_deduct = pos 0; amount_to_pay = amount }
    else record {
      is_allowed = true;
      points_to_deduct = points;
      amount_to_pay = amount -ℤ worth points;
    }

unfoldable pub calculate_discount : Uuid → ℤ → Db → DiscountAnswer
calculate_discount u amount db = discount_of (balance_of u db.profiles) amount

-- the page of a user's entries, and their number; the limit is brought into 1 to 100
unfoldable pub get_user_transactions : Uuid → ℤ → ℤ → Db → List PointsTransaction × ℕ
get_user_transactions u limit skip db =
    let rows =
      pos_part
        (if ltb_ℤ limit (pos 1) then pos 1 else if ltb_ℤ (pos 100) limit then pos 100 else limit) in
    let entries = select (λ t. t.user_id == u) db.transactions in
    (take rows (drop (pos_part skip) entries), length entries)

-- an ascending position in `orderBy: { lifetimePoints: 'desc' }`
unfoldable pub insert_by_lifetime : Profile → List Profile → List Profile
insert_by_lifetime p [] = p ∷ []
insert_by_lifetime p (q ∷ ps) =
    let rest = insert_by_lifetime p ps in
    if ltb_ℤ p.lifetime_points q.lifetime_points then q ∷ rest else p ∷ q ∷ ps

unfoldable pub by_lifetime : List Profile → List Profile
unfolding insert_by_lifetime
by_lifetime [] = []
by_lifetime (p ∷ ps) = insert_by_lifetime p (by_lifetime ps)

unfoldable pub is_in : Uuid → List Uuid → Bool
is_in u [] = false
is_in u (v ∷ vs) = u == v || is_in u vs

-- an empty filter, or an empty list of users, leaves every row
abbrev pub matches_users : Option Tier → List Uuid → Profile → Bool
matches_users none [] p = true
matches_users none (v ∷ vs) p = is_in p.user_id (v ∷ vs)
matches_users (some t) [] p = tier_eq p.tier t
matches_users (some t) (v ∷ vs) p = tier_eq p.tier t && is_in p.user_id (v ∷ vs)

pub record UserRow : Type 0 where
  pub user_id : Uuid
  pub tier : ℕ
  pub balance : ℤ
  pub lifetime_points : ℤ

abbrev user_row : Profile → UserRow
user_row p = record {
  user_id = p.user_id;
  tier = to_grpc_tier p.tier;
  balance = p.balance;
  lifetime_points = p.lifetime_points;
}

unfoldable pub get_users : ℤ → ℤ → Option Tier → List Uuid → Db → Answer (List UserRow × ℕ)
unfolding by_lifetime is_in
get_users limit skip tier users db = elim (admin_pagination limit skip) [
  | raised e ↦ raised e
  | returned page ↦
      let rows = select (matches_users tier users) db.profiles in
      returned
        (map user_row (take page.take_rows (drop page.skip_rows (by_lifetime rows))), length rows)
]
