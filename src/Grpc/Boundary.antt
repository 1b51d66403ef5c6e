-- ===== src/Grpc/Boundary.antt =====
-- What a gRPC call can do to the database.
use cinema_loyalty_service.Prelude.{
  text_eq_refl, arith, Text, text_eq→eq, text_eq, ap, ◌≢◌, ◌⊎◌, inl, inr, true, List, [], ◌∷◌,
  Bool-cases, ◌≡◌, refl, sym, ◌∙◌, subst, Option, none, some,
}
use cinema_loyalty_service.Calculator.{Clock}
use cinema_loyalty_service.Grpc.{
  first_key, can_activate, error_reply, catch_exception, call, Transport, GrpcCall,
  get_balance_call, get_full_profile_call, get_admin_balance_call, grant_vip_call,
  get_transactions_call, get_history_call, deduct_points_call, refund_points_call, use_gold_call,
  rollback_gold_call, calculate_discount_call, modify_points_call, get_users_call, Response,
  transform, answered, handle_call, filtered,
}
use cinema_loyalty_service.Reads.{upsert_profile, get_balance, get_user_balance, get_full_profile}
use cinema_loyalty_service.Service.{
  Runtime, Request, deduct_request, refund_request, modify_points_request, vip_request,
  use_gold_request, rollback_gold_request, serve,
}
use cinema_loyalty_service.Store.Profiles.{ensure_profile}
use cinema_loyalty_service.Store.Tx.{unauthenticated, invalid_api_key, Answer, returned, raised}
use cinema_loyalty_service.Store.Types.{Uuid, Db}

-- The effects of a call: none, a new profile with no points for a reader, or those of a request.
pub data Effect (rt : Runtime) (clock : Clock) (db : Db) : Db → Type 0 where
  untouched : Effect rt clock db db
  visited : (u : Uuid) → Effect rt clock db (ensure_profile u db)
  served : (r : Request) → Effect rt clock db (serve rt clock r db)

answered_database : {A : Type 0} (f : A → Response) (r : Answer A × Db) → (answered f r).1 ≡ r.1
answered_database f (returned a, db) = refl
answered_database f (raised e, db) = refl

filtered_database : (r : Answer Response × Db) → (filtered r).1 ≡ r.1
filtered_database (returned a, db) = refl
filtered_database (raised e, db) = refl

module _ (tp : Transport) (rt : Runtime) (clock : Clock) (db : Db) where
  -- a request that the answer to it is made of
  answered-Effect :
      {A : Type 0} (f : A → Response) (r : Request) (a : Answer A × Db)
      → a.1 ≡ serve rt clock r db
      → Effect rt clock db (answered f a).1
  answered-Effect f r a h = subst (Effect rt clock db) (sym (answered_database f a ∙ h)) (served r)

  transform-Effect :
      {A : Type 0} (o : Option A) (k : A → Db → Answer Response × Db)
      → ((a : A) → Effect rt clock db (k a db).1)
      → Effect rt clock db (transform o k db).1
  unfolding transform
  transform-Effect none k h = untouched
  transform-Effect (some a) k h = h a

  handle_call-Effect : (c : GrpcCall) → Effect rt clock db (handle_call tp rt clock c db).1
  unfolding handle_call get_balance get_full_profile get_user_balance upsert_profile serve
  handle_call-Effect (get_balance_call t) = transform-Effect _ _ (λ u. visited u)
  handle_call-Effect (get_full_profile_call t) = transform-Effect _ _ (λ u. visited u)
  handle_call-Effect (get_admin_balance_call t) = transform-Effect _ _ (λ u. visited u)
  handle_call-Effect (grant_vip_call t) =
      transform-Effect _ _ (λ u. answered-Effect _ (vip_request u) _ refl)
  handle_call-Effect (get_transactions_call t limit skip) = transform-Effect _ _ (λ u. untouched)
  handle_call-Effect (get_history_call t limit skip) =
      transform-Effect _ _ (λ u. subst (Effect rt clock db) (sym (answered_database _ _)) untouched)
  handle_call-Effect (deduct_points_call u amount order key) =
      answered-Effect _ (deduct_request _) _ refl
  handle_call-Effect (refund_points_call u amount order key) =
      answered-Effect _ (refund_request _) _ refl
  handle_call-Effect (use_gold_call t order) =
      transform-Effect _ _ (λ r. answered-Effect _ (use_gold_request r.0 r.1) _ refl)
  handle_call-Effect (rollback_gold_call t order) =
      transform-Effect _ _ (λ r. answered-Effect _ (rollback_gold_request r.0 r.1) _ refl)
  handle_call-Effect (calculate_discount_call t price) = transform-Effect _ _ (λ r. untouched)
  handle_call-Effect (modify_points_call t points) =
      transform-Effect _ _ (λ u. answered-Effect _ (modify_points_request u points) _ refl)
  handle_call-Effect (get_users_call limit skip tier users) =
      transform-Effect _ _ (λ r. subst (Effect rt clock db) (sym (answered_database _ _)) untouched)

-- the guard lets through the configured key only, and no empty one
can_activate-exact :
    (expected : Text) (keys : List Text)
    → can_activate expected keys ≡ true
    → (first_key keys ≡ some expected) × (expected ≢ [])
unfolding can_activate
can_activate-exact expected [] h = absurd (cc)
can_activate-exact expected (k ∷ keys) h = elim (Bool-cases (text_eq k expected)) [
  | inr other ↦ absurd (ground (arith, h))
  | inl same ↦
      let e : k ≡ expected = text_eq→eq k expected same in
      (
        ap some e,
        λ empty.
            absurd
              (ground (arith, h, text_eq_refl [], ap (λ (x : Text). text_eq x []) (e ∙ empty))),
      )
]

-- A call is answered UNAUTHENTICATED and changes nothing, or its first key is the configured one,
-- which is not empty, and it changes nothing, gives a reader's user a new profile with no points, or
-- does to the database what one request of the service does.
pub call-authorized :
    (tp : Transport) (rt : Runtime) (clock : Clock) (keys : List Text) (c : GrpcCall) (db : Db)
    → (call tp rt clock keys c db ≡ (error_reply unauthenticated invalid_api_key, db))
      ⊎ ((first_key keys ≡ some tp.expected_key)
          × (tp.expected_key ≢ [])
          × Effect rt clock db (call tp rt clock keys c db).1)
unfolding call catch_exception
call-authorized tp rt clock keys c db = elim (Bool-cases (can_activate tp.expected_key keys)) [
  | inr no_key ↦ inl (rw (no_key, call) refl)
  | inl keyed ↦
      let (first, filled) = can_activate-exact tp.expected_key keys keyed in
      inr (
        first,
        filled,
        rw (keyed, call)
            (rw (filtered_database (handle_call tp rt clock c db))
              (handle_call-Effect tp rt clock db c)),
      )
]
