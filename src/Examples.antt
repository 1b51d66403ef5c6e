-- ===== src/Examples.antt =====
-- The properties at concrete inputs: a history of requests (here), each request alone, the queues, the
-- loops and the readers, the messages, what arrives twice, the catalogues, the publications, the
-- birthday job, and the tool and the start of the process.
mod Requests
mod Queues
mod Loops
mod Messages
mod Arrivals
mod Catalogues
mod Publications
mod Birthdays
mod Process
use cinema_loyalty_service.Prelude.{
  ℕ, ◌*◌, if◌then◌else◌, ◌+◌, ◌≡◌, ◌⊎◌, ◌≤◌, refl, true, false, some, none, inl, inr, Option, List,
  [], ◌∷◌, ℤ, pos, negsuc, Text, arith, Bool, not, is_some, ◌||◌, find_first, count_where, ◌≤ℤ◌,
  length, ◌==◌, update_where, text_eq, is_int32, ◌-ℤ◌, ◌+ℤ◌, neg, select, trim,
}
use cinema_loyalty_service.Achievements.Intents.{save_dispatch_intents}
use cinema_loyalty_service.Birthday.{grant_birthday_bonus_for_user, process_user_date_of_birth_set}
use cinema_loyalty_service.Calculator.{Clock, resolve_multiplier}
use cinema_loyalty_service.Expiration.{expire_points_job}
use cinema_loyalty_service.Gold.{
  use_gold_upgrade, rollback_gold_upgrade, existing_reservation, use_fresh, reserve_month,
  is_reservation_of, granted,
}
use cinema_loyalty_service.Gold.Quota.{IsWithinQuota, gold_requests-IsWithinQuota}
use cinema_loyalty_service.Ledger.Steps.{IsBalanced, no_rows-IsBalanced}
use cinema_loyalty_service.Points.Command.{
  RawCommand, PointCommand, PointResult, accepted, rejected, find_processed, claim_point_command,
  replay_point_command,
}
use cinema_loyalty_service.Points.Deduct.{deduct_body}
use cinema_loyalty_service.Points.Once.{IsRefundedOnce, refund_points-IsRefundedOnce}
use cinema_loyalty_service.Points.Refund.{refund_points}
use cinema_loyalty_service.Points.Rejection.{deduct_body-rejected}
use cinema_loyalty_service.Points.Replay.{deduct_body-replay}
use cinema_loyalty_service.Purchase.{
  TicketPurchased, purchase_body, after_dedupe, purchase_from, resolve_points_used_for_order,
  points_earned_for, rewarded, assert_rewards, book_earning, record_purchase, purchase_events,
}
use cinema_loyalty_service.Purchase.Replay.{purchase_body-replay}
use cinema_loyalty_service.Service.{
  Runtime, Request, serve_all, modify_points_request, deduct_request, refund_request, vip_request,
  job_request,
}
use cinema_loyalty_service.Service.Balanced.{serve_all-IsBalanced}
use cinema_loyalty_service.Store.Profiles.{
  new_profile, fits, find_profile, replace_profile, lock_loyalty_profile, find_profile_or_throw,
  update_profile, create_transaction, record_tier_change,
}
use cinema_loyalty_service.Store.Tx.{
  Attempt, Outcome, done, thrown, known_request, p2034, insufficient_points,
}
use cinema_loyalty_service.Store.Types.{
  Db, Uuid, Profile, LocalDate, Tier, bronze, silver, gold, standard, special, premiere,
  OutboxEvent, pending, processing, GoldReservation, BonusGrant, PointsTransaction, refund,
  ProcessedEvent, DispatchIntent, ticket_purchased, deduct_points_op, refund_points_op, Instant,
  ActionMetadata,
}

abbrev pub user : Uuid
user = 7

abbrev pub order : Uuid
order = 40

abbrev pub key : Text
key = b'k' ∷ b'1' ∷ []

abbrev pub clock : Clock
clock = record {
  now = 1000;
  today = record { year = 2026; month = 5; day = 4 };
  month_key = 24317;
  one_year_later = λ t. t + 31536000000;
}

-- an attempt that no other session disturbs
abbrev pub calm : Attempt
calm = record { before = λ d. d; raced = []; fault = none }

-- a first attempt that ends in a serialization failure
abbrev pub attempts : ℕ → Attempt
attempts n = record calm { fault = if n == 2 then some (known_request p2034 none) else none }

abbrev pub empty : Db
empty = record {
  profiles = [];
  processed = [];
  transactions = [];
  debits = [];
  reservations = [];
  grants = [];
  outbox = [];
  intents = [];
  user_achievements = [];
  next_id = 1;
}

abbrev pub rich : Profile
rich = record (new_profile 1 user) { tier = gold; balance = pos 100 }

abbrev pub one_profile : Db
one_profile = record empty { profiles = rich ∷ []; next_id = 2 }

abbrev pub raw : RawCommand
raw = record {
  operation = deduct_points_op;
  user_id = key;
  amount = pos 80;
  order_id = key;
  idempotency_key = key;
}

abbrev pub runtime : Runtime
runtime = record {
  uuid = λ t. some user;
  uuid_of = λ t. order;
  new_date = λ t. none;
  attempts = λ u. attempts;
  value_of = λ t e. 0;
  uuid_text = λ u. key;
}

abbrev pub history : List (Runtime × Clock × Request)
history =
    (runtime, clock, modify_points_request user (pos 100))
    ∷ (runtime, clock, vip_request user)
    ∷ (runtime, clock, deduct_request raw)
    ∷ (runtime, clock, job_request expire_points_job)
    ∷ (runtime, clock, refund_request (record raw { operation = refund_points_op }))
    ∷ []

calm-IsFair : (u : Uuid) (n : ℕ) (db : Db) → IsBalanced db → IsBalanced db
calm-IsFair u n db h = h

serve_all-IsBalanced_example : IsBalanced (serve_all history empty)
serve_all-IsBalanced_example =
    serve_all-IsBalanced history empty
      (calm-IsFair, (calm-IsFair, (calm-IsFair, (calm-IsFair, (calm-IsFair, tt)))))
      (no_rows-IsBalanced empty refl refl)
