-- ===== src/Grpc.antt =====
-- The gRPC methods of points (src/loyalty/loyalty.controller.ts) behind their guard
-- (src/guards/grpc-api-key.guard.ts), the schemas of requests (src/common/grpc-request.pipe.ts) and
-- the filter of exceptions (src/common/grpc-exception.filter.ts). `guid` stands for `z.guid()`: the
-- uuid that an accepted text denotes. The field names in the text of a refusal are left out.
pub mod Boundary
use cinema_loyalty_service.Prelude.{
  Text, text_eq, ℤ, pos, ℕ, Bool, false, not, ◌&&◌, Option, none, some, List, [], ◌∷◌,
  if◌then◌else◌,
}
use cinema_loyalty_service.Admin.{
  get_transaction_history, AdminResult, modify_points, grant_vip_status,
}
use cinema_loyalty_service.Calculator.{to_grpc_tier, Clock}
use cinema_loyalty_service.Gold.{GoldResult, use_gold_upgrade, rollback_gold_upgrade}
use cinema_loyalty_service.Points.Command.{RawCommand, PointResult}
use cinema_loyalty_service.Points.Deduct.{deduct_points}
use cinema_loyalty_service.Points.Refund.{refund_points}
use cinema_loyalty_service.Reads.{
  Balances, get_balance, get_user_balance, FullProfile, get_full_profile, DiscountAnswer,
  calculate_discount, get_user_transactions, UserRow, get_users,
}
use cinema_loyalty_service.Service.{Runtime}
use cinema_loyalty_service.Store.Tx.{
  GrpcStatus, invalid_argument, internal, unauthenticated, Message, invalid_api_key,
  invalid_request_fields, internal_server_error, Failure, rpc_exception, Answer, returned, raised,
}
use cinema_loyalty_service.Store.Types.{
  Operation, Uuid, Tier, bronze, silver, gold, deduct_points_op, refund_points_op, Profile,
  PointsTransaction, Db,
}

-- what the transport takes from its configuration and from zod
pub record Transport : Type 0 where
  pub expected_key : Text
  pub guid : Text → Option Uuid

-- the first value of `x-api-key`
abbrev pub first_key : List Text → Option Text
first_key [] = none
first_key (k ∷ keys) = some k

-- GrpcApiKeyGuard.canActivate; an empty key is none
unfoldable pub can_activate : Text → List Text → Bool
can_activate expected [] = false
can_activate expected (k ∷ keys) = not (text_eq k []) && text_eq k expected

-- an amount of `discountRequestSchema`, in hundredths
pub data OrderAmount : Type 0 where
  no_amount not_finite : OrderAmount
  finite_amount : ℤ → OrderAmount

pub data GrpcCall : Type 0 where
  get_balance_call get_full_profile_call get_admin_balance_call grant_vip_call : Text → GrpcCall
  get_transactions_call get_history_call : Text → Option ℤ → Option ℤ → GrpcCall
  deduct_points_call refund_points_call : Text → ℤ → Text → Text → GrpcCall
  use_gold_call rollback_gold_call : Text → Text → GrpcCall
  calculate_discount_call : Text → OrderAmount → GrpcCall
  modify_points_call : Text → ℤ → GrpcCall
  get_users_call : Option ℤ → Option ℤ → Option Text → List Text → GrpcCall

pub data Response : Type 0 where
  balances_response : Balances → Response
  profile_response : FullProfile → Response
  admin_balance_response : ℤ × ℤ × ℕ → Response
  vip_response : Uuid × ℕ → Response
  transactions_response : List PointsTransaction × ℕ → Response
  history_response : List PointsTransaction → Response
  points_response : PointResult → Response
  gold_response : GoldResult → Response
  discount_response : DiscountAnswer → Response
  admin_response : AdminResult → Response
  users_response : List UserRow × ℕ → Response

abbrev pub default_to : Option ℤ → ℤ → ℤ
default_to none n = n
default_to (some m) n = m

-- `tierFilter` of `adminUsersRequestSchema`; the empty text filters nothing
abbrev tier_text : Tier → Text
tier_text bronze = b'B' ∷ b'R' ∷ b'O' ∷ b'N' ∷ b'Z' ∷ b'E' ∷ []
tier_text silver = b'S' ∷ b'I' ∷ b'L' ∷ b'V' ∷ b'E' ∷ b'R' ∷ []
tier_text gold = b'G' ∷ b'O' ∷ b'L' ∷ b'D' ∷ []

unfoldable pub read_tier_filter : Option Text → Option (Option Tier)
read_tier_filter none = some none
read_tier_filter (some t) =
    if text_eq t []
    then some none
    else if text_eq t (tier_text bronze)
    then some (some bronze)
    else if text_eq t (tier_text silver)
    then some (some silver)
    else if text_eq t (tier_text gold)
    then some (some gold)
    else none

-- `z.array(z.guid())`
unfoldable pub read_guids : (Text → Option Uuid) → List Text → Option (List Uuid)
read_guids guid [] = some []
read_guids guid (t ∷ ts) = elim (guid t) [
  | none ↦ none
  | some u ↦ elim (read_guids guid ts) [ none ↦ none | some us ↦ some (u ∷ us) ]
]

unfoldable pub read_amount : OrderAmount → Option ℤ
read_amount no_amount = some (pos 0)
read_amount not_finite = none
read_amount (finite_amount a) = some a

-- the exception of GrpcRequestPipe
abbrev pub invalid_request : Db → Answer Response × Db
invalid_request db = (raised (rpc_exception invalid_argument invalid_request_fields), db)

-- `transform`: what follows runs on the value of a valid request only
unfoldable pub transform :
    {A : Type 0} → Option A → (A → Db → Answer Response × Db) → Db → Answer Response × Db
transform none k db = invalid_request db
transform (some a) k db = k a db

abbrev pub answered : {A : Type 0} → (A → Response) → Answer A × Db → Answer Response × Db
answered f (returned a, db) = (returned (f a), db)
answered f (raised e, db) = (raised e, db)

-- two fields that must both be valid
unfoldable pub both : {A B : Type 0} → Option A → Option B → Option (A × B)
both none b = none
both (some a) none = none
both (some a) (some b) = some (a, b)

-- `deductPoints` and `refundPoints`, which have no pipe
abbrev command :
    (RawCommand → Db → Answer PointResult × Db)
    → Operation
    → Text
    → ℤ
    → Text
    → Text
    → Db
    → Answer Response × Db
command work op u amount order key db = answered points_response (
    work
      (record {
        operation = op;
        user_id = u;
        amount = amount;
        order_id = order;
        idempotency_key = key;
      })
      db)

-- the methods of LoyaltyController
unfoldable pub handle_call : Transport → Runtime → Clock → GrpcCall → Db → Answer Response × Db
handle_call tp rt clock (get_balance_call t) =
    transform (tp.guid t)
      (λ u db. let (b, db') = get_balance u db in (returned (balances_response b), db'))
handle_call tp rt clock (get_full_profile_call t) =
    transform (tp.guid t)
      (λ u db. let (p, db') = get_full_profile clock u db in (returned (profile_response p), db'))
handle_call tp rt clock (get_transactions_call t limit skip) = transform (tp.guid t) (λ u db. (
  returned (
      transactions_response
        (get_user_transactions u (default_to limit (pos 20)) (default_to skip (pos 0)) db)),
  db,
))
handle_call tp rt clock (deduct_points_call u amount order key) =
    command (deduct_points rt.uuid (rt.attempts 0) clock) deduct_points_op u amount order key
handle_call tp rt clock (refund_points_call u amount order key) =
    command (refund_points rt.uuid (rt.attempts 0)) refund_points_op u amount order key
handle_call tp rt clock (use_gold_call t order) =
    transform (both (tp.guid t) (tp.guid order))
      (λ r db. answered gold_response (use_gold_upgrade (rt.attempts r.0) clock r.0 r.1 db))
handle_call tp rt clock (rollback_gold_call t order) =
    transform (both (tp.guid t) (tp.guid order))
      (λ r db. answered gold_response (rollback_gold_upgrade (rt.attempts r.0) clock r.0 r.1 db))
handle_call tp rt clock (calculate_discount_call t price) =
    transform (both (tp.guid t) (read_amount price))
      (λ r db. (returned (discount_response (calculate_discount r.0 r.1 db)), db))
handle_call tp rt clock (get_admin_balance_call t) =
    transform (tp.guid t)
      (λ u db. let (b, db') = get_user_balance u db in (returned (admin_balance_response b), db'))
handle_call tp rt clock (get_history_call t limit skip) = transform (tp.guid t) (λ u db.
    answered history_response
      (get_transaction_history u (default_to limit (pos 50)) (default_to skip (pos 0)) db, db))
handle_call tp rt clock (modify_points_call t points) =
    transform (tp.guid t)
      (λ u db. answered admin_response (modify_points (rt.attempts u) clock u points db))
handle_call tp rt clock (get_users_call limit skip tier users) =
    transform (both (read_tier_filter tier) (read_guids tp.guid users)) (λ r db.
      answered users_response
        (get_users (default_to limit (pos 50)) (default_to skip (pos 0)) r.0 r.1 db, db))
handle_call tp rt clock (grant_vip_call t) = transform (tp.guid t) (λ u db.
    answered (λ p. vip_response (p.user_id, to_grpc_tier p.tier))
      (grant_vip_status (rt.attempts u) clock u db))

-- what is sent back: a response, or a status with its message
pub data Reply : Type 0 where
  ok_reply : Response → Reply
  error_reply : GrpcStatus → Message → Reply

-- GrpcExceptionFilter.catch; every RpcException of the program carries a status
unfoldable pub catch_exception : Failure → Reply
catch_exception (rpc_exception s m) = error_reply s m
catch_exception _ = error_reply internal internal_server_error

abbrev pub filtered : Answer Response × Db → Reply × Db
filtered (returned r, db) = (ok_reply r, db)
filtered (raised e, db) = (catch_exception e, db)

-- one call: the guard, the method, and the filter round both
unfoldable pub call : Transport → Runtime → Clock → List Text → GrpcCall → Db → Reply × Db
call tp rt clock keys c db =
    if can_activate tp.expected_key keys
    then filtered (handle_call tp rt clock c db)
    else filtered (raised (rpc_exception unauthenticated invalid_api_key), db)
