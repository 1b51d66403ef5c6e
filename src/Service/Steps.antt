-- ===== src/Service/Steps.antt =====
-- What every step of the ledger keeps, through the requests.
use cinema_loyalty_service.Prelude.{
  ℕ, ◌≡◌, refl, some, none, Option-cases, Bool-cases, inl, inr, List, [], ◌∷◌, Option, true, pos,
  ◌≤ℤ◌, Text, arith, leb_ℤ, eqb_ℤ, ℤ,
}
use cinema_loyalty_service.Achievements.Conservation.{achievement_body-LedgerStep}
use cinema_loyalty_service.Achievements.Intents.{ActionEvent}
use cinema_loyalty_service.Achievements.Progress.{
  Achievement, Criteria, process_achievement, calculate_achievement_progress_increment,
}
use cinema_loyalty_service.Admin.{modify_points, grant_vip_status}
use cinema_loyalty_service.Admin.Conservation.{
  modify_points_body-LedgerStep, grant_vip_status_body-LedgerStep,
}
use cinema_loyalty_service.Birthday.{process_user_date_of_birth_set}
use cinema_loyalty_service.Birthday.Conservation.{date_of_birth_body-LedgerStep}
use cinema_loyalty_service.Calculator.{Clock}
use cinema_loyalty_service.Dates.{parse_utc_local_date, is_future_utc_local_date}
use cinema_loyalty_service.Gold.{use_gold_upgrade, rollback_gold_upgrade}
use cinema_loyalty_service.Gold.Conservation.{
  use_gold_upgrade_body-LedgerStep, rollback_gold_upgrade_body-LedgerStep,
}
use cinema_loyalty_service.Ledger.Steps.{LedgerStep}
use cinema_loyalty_service.Points.Command.{RawCommand, PointCommand, parse_point_command}
use cinema_loyalty_service.Points.Conservation.{deduct_body-LedgerStep, refund_body-LedgerStep}
use cinema_loyalty_service.Points.Deduct.{deduct_points}
use cinema_loyalty_service.Points.Refund.{refund_points}
use cinema_loyalty_service.Purchase.{process_ticket_purchase}
use cinema_loyalty_service.Purchase.Conservation.{purchase_body-LedgerStep}
use cinema_loyalty_service.Service.{
  Runtime, Request, serve, serve_all, deduct_request, refund_request, purchase_request,
  date_of_birth_request, modify_points_request, vip_request, use_gold_request,
  rollback_gold_request, job_request, achievement_request,
}
use cinema_loyalty_service.Service.Jobs.{transaction_inv, process_job_inv}
use cinema_loyalty_service.Store.Retry.{IsFair}
use cinema_loyalty_service.Store.Tx.{Attempt}
use cinema_loyalty_service.Store.Types.{Db, Uuid, LocalDate}

at_least_one : (a : ℤ) → leb_ℤ (pos 1) a ≡ true → pos 0 ≤ℤ a
at_least_one a h = ground arith

parse_point_command-positive :
    (uuid : Text → Option Uuid) (input : RawCommand) (c : PointCommand)
    → parse_point_command uuid input ≡ some c
    → pos 0 ≤ℤ c.amount
unfolding parse_point_command
parse_point_command-positive uuid input c h =
    let k : leb_ℤ (pos 1) c.amount ≡ true = ground arith in at_least_one c.amount k

-- every request of a history runs beside sessions that keep a predicate
abbrev pub AreFair : (Db → Type 0) → List (Runtime × Clock × Request) → Type 0
AreFair P [] = Unit
AreFair P ((rt, clock, r) ∷ rest) = ((u : Uuid) → IsFair P (rt.attempts u)) × AreFair P rest

module _ (P : Db → Type 0) (step : (db db' : Db) → LedgerStep db db' → P db → P db') where
  deduct_points_inv :
      (uuid : Text → Option Uuid) (env : ℕ → Attempt) (clock : Clock) (input : RawCommand)
      → IsFair P env
      → (db : Db) → P db
      → P (deduct_points uuid env clock input db).1
  unfolding deduct_points
  deduct_points_inv uuid env clock input fair db h =
      elim (Option-cases (parse_point_command uuid input)) [
        | inl wrong ↦ rw (wrong, deduct_points) h
        | inr (c, parsed) ↦
            rw (parsed, deduct_points)
              (transaction_inv P step env _ fair (λ raced d. deduct_body-LedgerStep clock c raced d)
                db h)
      ]

  refund_points_inv :
      (uuid : Text → Option Uuid) (env : ℕ → Attempt) (input : RawCommand)
      → IsFair P env
      → (db : Db) → P db
      → P (refund_points uuid env input db).1
  unfolding refund_points
  refund_points_inv uuid env input fair db h =
      elim (Option-cases (parse_point_command uuid input)) [
        | inl wrong ↦ rw (wrong, refund_points) h
        | inr (c, parsed) ↦
            rw (parsed, refund_points)
              (transaction_inv P step env _ fair
                (λ raced d.
                  refund_body-LedgerStep c raced d
                    (parse_point_command-positive uuid input c parsed))
                db h)
      ]

  date_of_birth_inv :
      (new_date : Text → Option LocalDate) (env : ℕ → Attempt) (clock : Clock) (u : Uuid)
      (text : Text)
      → IsFair P env
      → (db : Db) → P db
      → P (process_user_date_of_birth_set new_date env clock u text db).1
  unfolding process_user_date_of_birth_set
  date_of_birth_inv new_date env clock u text fair db h =
      elim (Option-cases (parse_utc_local_date new_date text)) [
        | inl wrong ↦ rw (wrong, process_user_date_of_birth_set) h
        | inr (b, parsed) ↦ elim (Bool-cases (is_future_utc_local_date b clock.today)) [
          | inl future ↦ rw (parsed, process_user_date_of_birth_set, future) h
          | inr past ↦
              rw (parsed, process_user_date_of_birth_set, past)
                (transaction_inv P step env _ fair
                  (λ raced d. date_of_birth_body-LedgerStep clock u b d) db h)
        ]
      ]

  modify_points_inv :
      (env : ℕ → Attempt) (clock : Clock) (u : Uuid) (n : ℤ)
      → IsFair P env
      → (db : Db) → P db
      → P (modify_points env clock u n db).1
  unfolding modify_points
  modify_points_inv env clock u n fair db h = elim (Bool-cases (eqb_ℤ n (pos 0))) [
    | inl nothing ↦ rw nothing h
    | inr some_points ↦ rw some_points (
        transaction_inv P step env _ fair (λ raced d. modify_points_body-LedgerStep clock u n d) db
          h)
  ]

  process_achievement_inv :
      (value_of : Text → ActionEvent → ℕ) (uuid_text : Uuid → Text) (env : ℕ → Attempt)
      (clock : Clock) (e : ActionEvent) (a : Achievement)
      → IsFair P env
      → (db : Db) → P db
      → P (process_achievement value_of uuid_text env clock e a db).1
  unfolding process_achievement
  process_achievement_inv value_of uuid_text env clock e a fair db h = cases a.criteria refl
    where
      cases :
          (o : Option Criteria)
          → a.criteria ≡ o
          → P (process_achievement value_of uuid_text env clock e a db).1
      cases none q = rw (q, process_achievement) h
      cases (some c) q =
          elim (Bool-cases (calculate_achievement_progress_increment value_of c e).should_process) [
            | inr skipped ↦ rw (q, process_achievement, skipped) h
            | inl counted ↦
                rw (q, process_achievement, counted)
                  (transaction_inv P step env _ fair
                    (λ raced d. achievement_body-LedgerStep clock _ e.user_id a _ _ d) db h)
          ]

  -- One request of any kind keeps what the steps of the ledger keep, whatever attempts fail, if the
  -- other sessions do.
  pub serve_inv :
      (rt : Runtime) (clock : Clock) (r : Request) (db : Db)
      → ((u : Uuid) → IsFair P (rt.attempts u))
      → P db
      → P (serve rt clock r db)
  unfolding serve process_ticket_purchase grant_vip_status use_gold_upgrade rollback_gold_upgrade
  serve_inv rt clock (deduct_request c) db fair h =
      deduct_points_inv rt.uuid (rt.attempts 0) clock c (fair 0) db h
  serve_inv rt clock (refund_request c) db fair h =
      refund_points_inv rt.uuid (rt.attempts 0) c (fair 0) db h
  serve_inv rt clock (purchase_request m) db fair h =
      transaction_inv P step (rt.attempts m.user_id) _ (fair m.user_id)
        (λ raced d. purchase_body-LedgerStep rt.uuid_of clock m d) db h
  serve_inv rt clock (date_of_birth_request u t) db fair h =
      date_of_birth_inv rt.new_date (rt.attempts u) clock u t (fair u) db h
  serve_inv rt clock (modify_points_request u n) db fair h =
      modify_points_inv (rt.attempts u) clock u n (fair u) db h
  serve_inv rt clock (vip_request u) db fair h =
      transaction_inv P step (rt.attempts u) _ (fair u)
        (λ raced d. grant_vip_status_body-LedgerStep clock u d) db h
  serve_inv rt clock (use_gold_request u o) db fair h =
      transaction_inv P step (rt.attempts u) _ (fair u)
        (λ raced d. use_gold_upgrade_body-LedgerStep clock u o d) db h
  serve_inv rt clock (rollback_gold_request u o) db fair h =
      transaction_inv P step (rt.attempts u) _ (fair u)
        (λ raced d. rollback_gold_upgrade_body-LedgerStep clock u o d) db h
  serve_inv rt clock (achievement_request e a) db fair h =
      process_achievement_inv rt.value_of rt.uuid_text (rt.attempts e.user_id) clock e a
        (fair e.user_id) db h
  serve_inv rt clock (job_request j) db fair h =
      process_job_inv P step rt.attempts fair clock j db h

  -- So does a history of requests.
  pub serve_all_inv :
      (history : List (Runtime × Clock × Request)) (db : Db)
      → AreFair P history
      → P db
      → P (serve_all history db)
  unfolding serve_all
  serve_all_inv [] db fair h = h
  serve_all_inv ((rt, clock, r) ∷ rest) db (fair, others) h =
      serve_all_inv rest _ others (serve_inv rt clock r db fair h)
