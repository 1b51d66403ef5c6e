-- ===== src/Admin.antt =====
-- AdminLoyaltyService (src/loyalty/admin-loyalty.service.ts).
pub mod Conservation
pub mod Pages
use cinema_loyalty_service.Prelude.{
  ℕ, true, ◌||◌, none, some, if◌then◌else◌, List, ℤ, pos, ◌+ℤ◌, ltb_ℤ, eqb_ℤ, pos_part, take, drop,
  select, ◌==◌,
}
use cinema_loyalty_service.Store.Types.{
  Db, Uuid, Profile, PointsTransaction, gold, tier_eq, admin_addition, admin_deduction,
}
use cinema_loyalty_service.Store.Tx.{
  Tx, pure, throw_if, ◌>>=◌, ◌>>◌, rpc_exception, invalid_argument, already_exists, internal,
  points_must_be_nonzero, insufficient_for_deduction, already_vip, modify_points_failed,
  invalid_pagination, Attempt, Answer, returned, raised, with_transaction_retry,
}
use cinema_loyalty_service.Store.Profiles.{
  lock_loyalty_profile, update_profile, find_profile_or_throw, create_transaction,
  record_tier_change,
}
use cinema_loyalty_service.Calculator.{Clock, resolve_new_tier, to_grpc_tier}

pub record Pagination : Type 0 where
  pub take_rows : ℕ
  pub skip_rows : ℕ

-- the arguments are the protocol's int32 values; a limit of 0 stands for 50
unfoldable pub admin_pagination : ℤ → ℤ → Answer Pagination
admin_pagination limit skip =
    let rows = if eqb_ℤ limit (pos 0) then pos 50 else limit in
    if ltb_ℤ rows (pos 1) || (ltb_ℤ (pos 100) rows || ltb_ℤ skip (pos 0))
    then raised (rpc_exception invalid_argument invalid_pagination)
    else returned (record { take_rows = pos_part rows; skip_rows = pos_part skip })

-- the rows of `findMany` with the pagination; transactions are stored newest first
unfoldable pub get_transaction_history : Uuid → ℤ → ℤ → Db → Answer (List PointsTransaction)
unfolding admin_pagination
get_transaction_history u limit skip db = elim (admin_pagination limit skip) [
  | raised e ↦ raised e
  | returned page ↦
      returned
        (take page.take_rows (drop page.skip_rows (select (λ t. t.user_id == u) db.transactions)))
]

abbrev pub increment : ℤ → ℤ
increment points = if ltb_ℤ (pos 0) points then points else pos 0

-- the row after the modification
unfoldable pub modified : Clock → Profile → ℤ → Profile
modified clock p points =
    let q : Profile = record p {
      balance = p.balance +ℤ points;
      lifetime_points = p.lifetime_points +ℤ increment points;
      year_points = p.year_points +ℤ increment points;
      tier = resolve_new_tier p.tier p.year_visits (p.year_points +ℤ increment points);
      last_activity_at = some clock.now;
    } in
    if ltb_ℤ (pos 0) points
    then record q { balance_expires_at = some (clock.one_year_later clock.now) }
    else q

-- what follows the check of the balance
unfoldable pub book_modification : Clock → Uuid → ℤ → Profile → Tx Profile
unfolding modified update_profile create_transaction record_tier_change
book_modification clock u points p = do
  let q = modified clock p points
  update_profile q
  create_transaction u (if ltb_ℤ (pos 0) points then admin_addition else admin_deduction) points
      q.balance none
  record_tier_change u p.tier q.tier clock.now
  pure q

unfoldable pub modify_points_body : Clock → Uuid → ℤ → Tx Profile
unfolding book_modification lock_loyalty_profile find_profile_or_throw
modify_points_body clock u points = do
  lock_loyalty_profile u true
  p ← find_profile_or_throw u
  throw_if (ltb_ℤ (p.balance +ℤ points) (pos 0))
      (rpc_exception invalid_argument insufficient_for_deduction)
  book_modification clock u points p

pub record AdminResult : Type 0 where
  pub user_id : Uuid
  pub tier : ℕ
  pub balance : ℤ

abbrev catch_modify : Answer Profile → Answer AdminResult
catch_modify (returned q) =
    returned (record { user_id = q.user_id; tier = to_grpc_tier q.tier; balance = q.balance })
catch_modify (raised (rpc_exception s m)) = raised (rpc_exception s m)
catch_modify (raised _) = raised (rpc_exception internal modify_points_failed)

unfoldable pub modify_points : (ℕ → Attempt) → Clock → Uuid → ℤ → Db → Answer AdminResult × Db
unfolding modify_points_body
modify_points env clock u points db =
    if eqb_ℤ points (pos 0)
    then (raised (rpc_exception invalid_argument points_must_be_nonzero), db)
    else let (r, db') =
        with_transaction_retry env (λ raced. modify_points_body clock u points) db in
      (catch_modify r, db')

-- the writes of a VIP grant
unfoldable pub book_vip : Clock → Uuid → Profile → Tx Profile
unfolding update_profile create_transaction record_tier_change
book_vip clock u p = do
  let q = record p { tier = gold }
  update_profile q
  create_transaction u admin_addition (pos 0) q.balance none
  record_tier_change u p.tier gold clock.now
  pure q

unfoldable pub grant_vip_status_body : Clock → Uuid → Tx Profile
unfolding book_vip lock_loyalty_profile find_profile_or_throw
grant_vip_status_body clock u = do
  lock_loyalty_profile u true
  p ← find_profile_or_throw u
  throw_if (tier_eq p.tier gold) (rpc_exception already_exists already_vip)
  book_vip clock u p

unfoldable pub grant_vip_status : (ℕ → Attempt) → Clock → Uuid → Db → Answer Profile × Db
unfolding grant_vip_status_body
grant_vip_status env clock u db =
    with_transaction_retry env (λ raced. grant_vip_status_body clock u) db
