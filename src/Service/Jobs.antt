-- ===== src/Service/Jobs.antt =====
-- What every step of the ledger keeps, through one transaction and its retries, and through the
-- scheduled jobs.
use cinema_loyalty_service.Prelude.{ℕ, none, Bool-cases, inl, inr, List, []}
use cinema_loyalty_service.Birthday.{grant_birthday_bonus_for_user, has_birthday}
use cinema_loyalty_service.Birthday.Conservation.{grant_for_user_body-LedgerStep}
use cinema_loyalty_service.Calculator.{Clock}
use cinema_loyalty_service.Expiration.{
  has_old_quota, wants_notice, has_birthday_date, JobName, process_job, expire_points,
  reset_annual_stats, gold_reset, notify_expiring_users, grant_birthday_bonuses, grant_today,
  passes, expire_one, reset_one, gold_reset_one, is_active_this_year, is_expired, expire_points_job,
  notify_expiring_job, annual_stats_reset, legacy_annual_reset, gold_reset_job,
  grant_birthday_bonuses_job, other_job,
}
use cinema_loyalty_service.Expiration.Conservation.{
  expire_body-LedgerStep, reset_body-LedgerStep, gold_reset_body-LedgerStep, scan_inv,
  notify_from_inv,
}
use cinema_loyalty_service.Ledger.Steps.{LedgerStep, LedgerStep_same}
use cinema_loyalty_service.Store.Retry.{IsFair}
use cinema_loyalty_service.Store.Rules.{Keeps-mono}
use cinema_loyalty_service.Store.Tx.{Tx, Keeps, Attempt, retry_from_inv, with_transaction_retry}
use cinema_loyalty_service.Store.Types.{Db, Uuid, ProcessedEvent, Profile}

module _ (P : Db → Type 0) (step : (db db' : Db) → LedgerStep db db' → P db → P db') where
  pub transaction_inv :
      {A : Type 0} (env : ℕ → Attempt) (operation : List ProcessedEvent → Tx A)
      → IsFair P env
      → ((raced : List ProcessedEvent) (db : Db) → Keeps (LedgerStep db) (operation raced db))
      → (db : Db) → P db
      → P (with_transaction_retry env operation db).1
  unfolding with_transaction_retry
  transaction_inv env operation fair steps db h =
      retry_from_inv P env operation fair (λ n d b. step d _ LedgerStep_same b)
        (λ n d b.
          Keeps-mono (LedgerStep d) P (operation (env n).raced d) (λ d' m. step d d' m b)
            (steps (env n).raced d))
        2 db h

  grant_birthday_bonus_for_user_inv :
      (env : ℕ → Attempt) (clock : Clock) (u : Uuid)
      → IsFair P env
      → (db : Db) → P db
      → P (grant_birthday_bonus_for_user env clock u db).1
  unfolding grant_birthday_bonus_for_user
  grant_birthday_bonus_for_user_inv env clock u fair db h =
      transaction_inv env _ fair (λ raced d. grant_for_user_body-LedgerStep clock u d) db h

  module _ (env : Uuid → ℕ → Attempt) (fair : (u : Uuid) → IsFair P (env u)) (clock : Clock) where
    grant_today_inv : (p : Profile) (db : Db) → P db → P (grant_today env clock p db).1
    grant_today_inv p db h = elim (Bool-cases (has_birthday clock p.birthday_date)) [
      | inl today ↦
          rw today (
            grant_birthday_bonus_for_user_inv (env p.user_id) clock p.user_id (fair p.user_id) db h)
      | inr other ↦ rw other h
    ]

    grant_birthday_bonuses_inv : (db : Db) → P db → P (grant_birthday_bonuses env clock db).1
    unfolding grant_birthday_bonuses
    grant_birthday_bonuses_inv db h =
        scan_inv P (grant_today env clock) grant_today_inv has_birthday_date
          (passes has_birthday_date db) none 0 db h

    reset_annual_stats_inv : (db : Db) → P db → P (reset_annual_stats env db).1
    unfolding reset_annual_stats
    reset_annual_stats_inv db h =
        scan_inv P (reset_one env)
          (λ p.
            transaction_inv (env p.user_id) _ (fair p.user_id)
              (λ raced d. reset_body-LedgerStep p.user_id d))
          is_active_this_year (passes is_active_this_year db) none 0 db h

    -- A scheduled job keeps what the steps of the ledger keep.
    pub process_job_inv : (j : JobName) (db : Db) → P db → P (process_job env clock j db)
    unfolding process_job expire_points gold_reset notify_expiring_users
    process_job_inv expire_points_job db h =
        scan_inv P (expire_one env clock.now)
          (λ p.
            transaction_inv (env p.user_id) _ (fair p.user_id)
              (λ raced d. expire_body-LedgerStep clock.now p.user_id d))
          (is_expired clock.now) (passes (is_expired clock.now) db) none 0 db h
    process_job_inv notify_expiring_job db h =
        notify_from_inv P step clock.now (passes (wants_notice clock.now) db) none [] db h
    process_job_inv annual_stats_reset db h = reset_annual_stats_inv db h
    process_job_inv legacy_annual_reset db h = reset_annual_stats_inv db h
    process_job_inv gold_reset_job db h =
        scan_inv P (gold_reset_one env clock.month_key)
          (λ p.
            transaction_inv (env p.user_id) _ (fair p.user_id)
              (λ raced d. gold_reset_body-LedgerStep clock.month_key p.user_id d))
          (has_old_quota clock.month_key) (passes (has_old_quota clock.month_key) db) none 0 db h
    process_job_inv grant_birthday_bonuses_job db h = grant_birthday_bonuses_inv db h
    process_job_inv other_job db h = h
