-- ===== src/Service.antt =====
-- The requests that move points, as one state machine over the database: the gRPC methods
-- (src/loyalty/loyalty.controller.ts), the messages of the consumers (src/loyalty/consumers) and
-- the jobs on achievements (src/achievements/processors/achievements.processor.ts) and
-- the scheduled jobs (src/loyalty/processors/loyalty-queue.processor.ts).
pub mod Jobs
pub mod Steps
pub mod Balanced
pub mod Refinement
use cinema_loyalty_service.Prelude.{ℕ, Option, List, [], ◌∷◌, ℤ, Text}
use cinema_loyalty_service.Achievements.Intents.{ActionEvent}
use cinema_loyalty_service.Achievements.Progress.{Achievement, process_achievement}
use cinema_loyalty_service.Admin.{modify_points, grant_vip_status}
use cinema_loyalty_service.Birthday.{process_user_date_of_birth_set}
use cinema_loyalty_service.Calculator.{Clock}
use cinema_loyalty_service.Expiration.{JobName, process_job}
use cinema_loyalty_service.Gold.{use_gold_upgrade, rollback_gold_upgrade}
use cinema_loyalty_service.Points.Command.{RawCommand}
use cinema_loyalty_service.Points.Deduct.{deduct_points}
use cinema_loyalty_service.Points.Refund.{refund_points}
use cinema_loyalty_service.Purchase.{TicketPurchased, process_ticket_purchase}
use cinema_loyalty_service.Store.Tx.{Attempt}
use cinema_loyalty_service.Store.Types.{Db, Uuid, LocalDate}

-- What the service takes from its runtime: zod's uuid check, the cast to a database uuid, the
-- `new Date` of a text that is no plain date, what surrounds each attempt of a transaction, the number that a field
-- of an event's metadata denotes, and the text of a uuid.
pub record Runtime : Type 0 where
  pub uuid : Text → Option Uuid
  pub uuid_of : Text → Uuid
  pub new_date : Text → Option LocalDate
  pub attempts : Uuid → ℕ → Attempt
  pub value_of : Text → ActionEvent → ℕ
  pub uuid_text : Uuid → Text

pub data Request : Type 0 where
  deduct_request refund_request : RawCommand → Request
  purchase_request : TicketPurchased → Request
  date_of_birth_request : Uuid → Text → Request
  modify_points_request : Uuid → ℤ → Request
  vip_request : Uuid → Request
  use_gold_request rollback_gold_request : Uuid → Uuid → Request
  job_request : JobName → Request
  achievement_request : ActionEvent → Achievement → Request

-- the database after a request
unfoldable pub serve : Runtime → Clock → Request → Db → Db
serve rt clock (deduct_request c) db = (deduct_points rt.uuid (rt.attempts 0) clock c db).1
serve rt clock (refund_request c) db = (refund_points rt.uuid (rt.attempts 0) c db).1
serve rt clock (purchase_request m) db =
    (process_ticket_purchase rt.uuid_of (rt.attempts m.user_id) clock m db).1
serve rt clock (date_of_birth_request u t) db =
    (process_user_date_of_birth_set rt.new_date (rt.attempts u) clock u t db).1
serve rt clock (modify_points_request u n) db = (modify_points (rt.attempts u) clock u n db).1
serve rt clock (vip_request u) db = (grant_vip_status (rt.attempts u) clock u db).1
serve rt clock (use_gold_request u o) db = (use_gold_upgrade (rt.attempts u) clock u o db).1
serve rt clock (rollback_gold_request u o) db =
    (rollback_gold_upgrade (rt.attempts u) clock u o db).1
serve rt clock (achievement_request e a) db =
    (process_achievement rt.value_of rt.uuid_text (rt.attempts e.user_id) clock e a db).1
serve rt clock (job_request j) db = process_job rt.attempts clock j db

-- a history of requests, each with its clock and its runtime
unfoldable pub serve_all : List (Runtime × Clock × Request) → Db → Db
unfolding serve
serve_all [] db = db
serve_all ((rt, clock, r) ∷ rest) db = serve_all rest (serve rt clock r db)
