-- ===== src/Examples/Arrivals.antt =====
-- The properties of calls, and of jobs and messages that arrive twice, at concrete inputs.
use cinema_loyalty_service.Prelude.{
  sym, ap, ◌∙◌, inl, inr, false, arith, ◌+ℤ◌, text_eq, trim, is_int32, select, find_first,
  update_where, Text, pos, ℕ, ◌≡◌, refl, ◌≢◌, ◌⊎◌, true, none, some, [], ◌∷◌,
}
use cinema_loyalty_service.Achievements.Intents.{valid_event_id, save_dispatch_intents, ActionEvent}
use cinema_loyalty_service.Achievements.Jobs.{process}
use cinema_loyalty_service.Achievements.Once.{process-replay}
use cinema_loyalty_service.Achievements.Progress.{
  calculate_achievement_progress_increment, progressed, book_reward, apply_progress, advance,
  advance_once, achievement_body, process_achievement, process_all, gte_operator, Achievement,
}
use cinema_loyalty_service.Calculator.{resolve_multiplier}
use cinema_loyalty_service.Delivery.Purchases.{
  event_type_in, validate_purchase, absent, a_text, a_number, PurchasePayload, PurchaseReader,
  consume_purchase, consume_purchase-replay,
}
use cinema_loyalty_service.Examples.{
  user, order, key, clock, calm, attempts, empty, one_profile, runtime,
}
use cinema_loyalty_service.Expiration.{next_batch, scan, expire_body, expire_points}
use cinema_loyalty_service.Expiration.Swept.{expiring, is_due_for, sweep, sweep_complete}
use cinema_loyalty_service.Expiration.Work.{Has, AreUnique}
use cinema_loyalty_service.Grpc.{Transport, first_key, grant_vip_call, error_reply, call}
use cinema_loyalty_service.Grpc.Boundary.{Effect, call-authorized}
use cinema_loyalty_service.Points.Command.{find_processed}
use cinema_loyalty_service.Purchase.{
  resolve_points_used_for_order, points_earned_for, rewarded, purchase_events, assert_rewards,
  book_earning, record_purchase, purchase_from, after_dedupe, purchase_body,
  process_ticket_purchase,
}
use cinema_loyalty_service.Store.Profiles.{
  new_profile, find_profile, replace_profile, lock_loyalty_profile, fits, update_profile,
  find_profile_or_throw, create_transaction, record_tier_change, balance_of,
}
use cinema_loyalty_service.Store.Retry.{IsUndisturbed}
use cinema_loyalty_service.Store.Tx.{
  with_transaction_retry, unauthenticated, invalid_api_key, Attempt, Answer, returned,
}
use cinema_loyalty_service.Store.Types.{undefined, Profile, Uuid, ticket_purchased, Db}

abbrev undisturbed : ℕ → Attempt
undisturbed n = calm

calm-IsUndisturbed : IsUndisturbed calm
calm-IsUndisturbed = (λ d. refl, refl)

abbrev one_visit : Achievement
one_visit = record {
  id = 3;
  is_active = true;
  criteria = some (record {
    field = ticket_purchased;
    operator = gte_operator;
    target = pos 1;
    value_field = none;
  });
  reward_points = pos 25;
}

abbrev visit : ActionEvent
visit = record {
  event_id = key;
  user_id = user;
  action_type = ticket_purchased;
  metadata = record {
    amount = 1000;
    points_used = 0;
    paid_amount = undefined;
    event_type = none;
    seat_class = undefined;
  };
}

abbrev value_of : Text → ActionEvent → ℕ
value_of t e = e.metadata.amount

abbrev number_text : Uuid → Text
number_text u = b'3' ∷ []

abbrev rewarded_db : Db
rewarded_db =
    (process value_of number_text (λ u. attempts) clock (one_visit ∷ []) visit one_profile).1

-- the job succeeds, and rewards the visit
visit_won :
    (process value_of number_text (λ u. attempts) clock (one_visit ∷ []) visit one_profile).0
    ≡ returned tt
unfolding process valid_event_id trim process_all select process_achievement with_transaction_retry
    lock_loyalty_profile advance_once find_processed advance find_first apply_progress is_int32
    progressed book_reward find_profile_or_throw find_profile update_profile fits replace_profile
    create_transaction calculate_achievement_progress_increment achievement_body ◌+ℤ◌
visit_won = refl

visit_reward : balance_of user rewarded_db.profiles ≡ pos 125
unfolding process valid_event_id trim process_all select process_achievement with_transaction_retry
    lock_loyalty_profile advance_once find_processed advance find_first apply_progress is_int32
    progressed book_reward find_profile_or_throw find_profile update_profile fits replace_profile
    create_transaction calculate_achievement_progress_increment achievement_body balance_of
    update_where text_eq ◌+ℤ◌
visit_reward = refl

process-replay_example :
    process value_of number_text (λ u. undisturbed) clock (one_visit ∷ []) visit rewarded_db
    ≡ (returned tt, rewarded_db)
process-replay_example =
    process-replay value_of number_text (λ u. attempts) (λ u. undisturbed) clock clock
      (one_visit ∷ []) visit one_profile (λ n k v. (λ m d h. h, λ m d h. h))
      (λ n. calm-IsUndisturbed) visit_won

abbrev purchase_body_json : PurchasePayload
purchase_body_json = record {
  event_id = a_text key;
  user_id = a_text key;
  order_id = a_text key;
  total_amount = a_number (pos 3000);
  ticket_amount = a_number (pos 2000);
  food_amount = a_number (pos 1000);
  event_type = a_text (b'S' ∷ b'P' ∷ b'E' ∷ b'C' ∷ b'I' ∷ b'A' ∷ b'L' ∷ []);
  purchased_at = a_text key;
  paid_amount = absent;
  points_used = absent;
  seat_class = absent;
  ticket_count = absent;
}

abbrev reader : PurchaseReader
reader = record { is_uuid = λ t. some user; is_date = λ t. true; uuid_of = λ t. order }

abbrev bought : Answer (Unit {0}) × Db
bought = consume_purchase reader attempts clock (some purchase_body_json) one_profile

bought_won : bought.0 ≡ returned tt
unfolding consume_purchase validate_purchase event_type_in text_eq process_ticket_purchase
    with_transaction_retry lock_loyalty_profile find_profile find_processed after_dedupe
    find_profile_or_throw purchase_body purchase_from resolve_points_used_for_order find_first
    points_earned_for rewarded resolve_multiplier assert_rewards book_earning record_purchase
    purchase_events update_profile fits replace_profile create_transaction record_tier_change
    save_dispatch_intents is_int32 trim ◌+ℤ◌
bought_won = refl

consume_purchase-replay_example :
    consume_purchase reader undisturbed clock (some purchase_body_json) bought.1
    ≡ (returned tt, bought.1)
consume_purchase-replay_example =
    consume_purchase-replay reader attempts undisturbed clock clock (some purchase_body_json)
      one_profile calm-IsUndisturbed bought_won

abbrev transport : Transport
transport = record { expected_key = key; guid = λ t. some user }

call-authorized_example :
    (call transport runtime clock (key ∷ []) (grant_vip_call key) empty
      ≡ (error_reply unauthenticated invalid_api_key, empty))
    ⊎ ((first_key (key ∷ []) ≡ some key)
        × (key ≢ [])
        × Effect runtime clock empty
            (call transport runtime clock (key ∷ []) (grant_vip_call key) empty).1)
call-authorized_example =
    call-authorized transport runtime clock (key ∷ []) (grant_vip_call key) empty

abbrev past_points : Uuid → Profile
past_points u = record (new_profile u u) { balance = pos 70; balance_expires_at = some 900 }

abbrev two_past : Db
two_past = record empty { profiles = past_points 9 ∷ past_points 4 ∷ []; next_id = 10 }

two_past-AreUnique : AreUnique two_past.profiles
two_past-AreUnique r s (inl h) (inl k) e = h ∙ sym k
two_past-AreUnique r s (inl h) (inr (inl k)) e =
    absurd (omega (arith, e, ap Profile.user_id h, ap Profile.user_id k))
two_past-AreUnique r s (inr (inl h)) (inl k) e =
    absurd (omega (arith, e, ap Profile.user_id h, ap Profile.user_id k))
two_past-AreUnique r s (inr (inl h)) (inr (inl k)) e = h ∙ sym k
two_past-AreUnique r s (inl h) (inr (inr x)) e = elim x [ ]
two_past-AreUnique r s (inr (inl h)) (inr (inr x)) e = elim x [ ]
two_past-AreUnique r s (inr (inr x)) k e = elim x [ ]

two_past_won : (sweep expiring (λ u. attempts) clock two_past).0 ≡ returned 2
unfolding expire_points scan next_batch expire_body select with_transaction_retry find_profile fits
    is_int32 replace_profile
two_past_won = refl

first_left :
    Has
      (record (past_points 9) { balance = pos 0 })
      (sweep expiring (λ u. attempts) clock two_past).1.profiles
unfolding expire_points scan next_batch expire_body select with_transaction_retry find_profile fits
    is_int32 replace_profile
first_left = inl refl

sweep_complete_example :
    is_due_for expiring clock (record (past_points 9) { balance = pos 0 }) ≡ false
sweep_complete_example =
    sweep_complete expiring (λ u. attempts) clock two_past 2 (λ u m d. refl) two_past-AreUnique
      (omega arith) two_past_won (record (past_points 9) { balance = pos 0 }) first_left
