-- ===== src/Expiration.antt =====
-- The scheduled jobs of LoyaltyExpirationService (src/loyalty/loyalty-expiration.service.ts), the
-- birthday scan of LoyaltyService (src/loyalty/loyalty.service.ts), and the dispatch of jobs
-- (src/loyalty/processors/loyalty-queue.processor.ts).
-- Profiles are stored by descending id, so a batch is the first 500 rows of the condition below
-- the cursor. The fuel of a scan is the cursor of its first pass, and two.
pub mod Conservation
pub mod Scan
pub mod Work
pub mod Batches
pub mod Visits
pub mod Swept
pub mod Grants
pub mod Birthdays
use cinema_loyalty_service.Prelude.{
  ℕ, zero, suc, ◌+◌, ◌-◌, ◌*◌, ◌≤◌, Bool, true, false, ◌&&◌, ◌||◌, not, Option, none, some,
  if◌then◌else◌, List, [], ◌∷◌, ◌++◌, ℤ, pos, neg, ltb_ℤ, leb_ℤ, ltb, leb, is_some, take, select,
  length, ◌==◌, map,
}
use cinema_loyalty_service.Birthday.{has_birthday, grant_birthday_bonus_for_user, BirthdayResult}
use cinema_loyalty_service.Calculator.{Clock}
use cinema_loyalty_service.Store.Profiles.{
  find_profile, lock_loyalty_profile, update_profile, create_transaction, replace_profile,
}
use cinema_loyalty_service.Store.Tx.{
  Tx, pure, modify, ◌>>=◌, ◌>>◌, done, Attempt, Answer, returned, raised, Failure,
  with_transaction_retry,
}
use cinema_loyalty_service.Store.Types.{Db, Uuid, Instant, MonthKey, Profile, expire}

abbrev pub batch_size : ℕ
batch_size = 500

abbrev pub below : Option ℕ → ℕ → Bool
below none n = true
below (some c) n = ltb n c

abbrev pub last_id : Profile → List Profile → ℕ
last_id p [] = p.id
last_id p (q ∷ qs) = last_id q qs

-- the `findMany` of one pass
unfoldable pub next_batch : (Profile → Bool) → Option ℕ → Db → List Profile
next_batch wanted cursor db =
    take batch_size (select (λ p. below cursor p.id && wanted p) db.profiles)

-- What a job leaves: the number of profiles that it counted, or the failure that stopped it.
abbrev pub Progress : Type 0
Progress = Answer ℕ × Db

-- `for (const candidate of batch)`, stopped by a failure
unfoldable pub run_batch : (Profile → Db → Progress) → List Profile → ℕ → Db → Progress
run_batch work [] total db = (returned total, db)
run_batch work (p ∷ ps) total db =
    let (r, db') = work p db in
    elim r [ returned n ↦ run_batch work ps (total + n) db' | raised e ↦ (raised e, db') ]

-- the `do ... while (lastSeenId)` loop
unfoldable pub scan :
    (Profile → Bool) → (Profile → Db → Progress) → ℕ → Option ℕ → ℕ → Db → Progress
unfolding next_batch run_batch
scan wanted work zero cursor total db = (returned total, db)
scan wanted work (suc fuel) cursor total db = elim (next_batch wanted cursor db) [
  | [] ↦ (returned total, db)
  | p ∷ ps ↦
      let (r, db') = run_batch work (p ∷ ps) total db in
      elim r [
        | returned n ↦ scan wanted work fuel (some (last_id p ps)) n db'
        | raised e ↦ (raised e, db')
      ]
]

-- the first pass, and as many as can lower the cursor that it leaves
abbrev pub passes : (Profile → Bool) → Db → ℕ
passes wanted db = elim (next_batch wanted none db) [ [] ↦ 1 | p ∷ ps ↦ suc (suc (last_id p ps)) ]

abbrev due : Instant → Option Instant → Bool
due now none = false
due now (some t) = leb t now

-- `balance: { gt: 0 }, balanceExpiresAt: { lte: now }`
unfoldable pub is_expired : Instant → Profile → Bool
is_expired now p = ltb_ℤ (pos 0) p.balance && due now p.balance_expires_at

-- the writes of an expiration
unfoldable pub book_expiration : Profile → Tx ℕ
unfolding update_profile create_transaction
book_expiration p = do
  update_profile (record p { balance = pos 0 })
  create_transaction p.user_id expire (neg p.balance) (pos 0) none
  pure 1

-- the transaction of one candidate, which reads the profile again under its lock
unfoldable pub expire_body : Instant → Uuid → Tx ℕ
unfolding book_expiration is_expired
expire_body now u db = elim (find_profile u db.profiles) [
  | none ↦ done 0 db
  | some p ↦ if is_expired now p then book_expiration p db else done 0 db
]

abbrev pub expire_one : (Uuid → ℕ → Attempt) → Instant → Profile → Db → Progress
expire_one env now p = with_transaction_retry (env p.user_id) (λ raced. expire_body now p.user_id)

unfoldable pub expire_points : (Uuid → ℕ → Attempt) → Clock → Db → Progress
unfolding expire_body scan
expire_points env clock db =
    scan (is_expired clock.now) (expire_one env clock.now) (passes (is_expired clock.now) db) none 0
      db

abbrev pub is_active_this_year : Profile → Bool
is_active_this_year p = ltb_ℤ (pos 0) p.year_points || ltb_ℤ (pos 0) p.year_visits

-- the reset of one profile
unfoldable pub reset_body : Uuid → Tx ℕ
unfolding update_profile
reset_body u db = elim (find_profile u db.profiles) [
  | none ↦ done 1 db
  | some p ↦ (do update_profile (record p { year_points = pos 0; year_visits = pos 0 }); pure 1) db
]

abbrev pub reset_one : (Uuid → ℕ → Attempt) → Profile → Db → Progress
reset_one env p = with_transaction_retry (env p.user_id) (λ raced. reset_body p.user_id)

unfoldable pub reset_annual_stats : (Uuid → ℕ → Attempt) → Db → Progress
unfolding reset_body scan
reset_annual_stats env db =
    scan is_active_this_year (reset_one env) (passes is_active_this_year db) none 0 db

-- `goldUpgradeUsedMonth: { lt: month }`
abbrev pub used_before : MonthKey → Option MonthKey → Bool
used_before m none = false
used_before m (some n) = ltb n m

-- the release of one old quota; it counts the rows that it changed
unfoldable pub gold_reset_body : MonthKey → Uuid → Tx ℕ
unfolding update_profile
gold_reset_body m u db = elim (find_profile u db.profiles) [
  | none ↦ done 0 db
  | some p ↦
      if used_before m p.gold_upgrade_used_month
      then (do update_profile (record p { gold_upgrade_used_month = none }); pure 1) db
      else done 0 db
]

abbrev pub gold_reset_one : (Uuid → ℕ → Attempt) → MonthKey → Profile → Db → Progress
gold_reset_one env m p =
    with_transaction_retry (env p.user_id) (λ raced. gold_reset_body m p.user_id)

abbrev pub has_old_quota : MonthKey → Profile → Bool
has_old_quota m p = used_before m p.gold_upgrade_used_month

unfoldable pub gold_reset : (Uuid → ℕ → Attempt) → Clock → Db → Progress
unfolding gold_reset_body scan
gold_reset env clock db =
    scan (has_old_quota clock.month_key) (gold_reset_one env clock.month_key)
      (passes (has_old_quota clock.month_key) db) none 0 db

-- 30 days in milliseconds
abbrev pub notify_window : ℕ
notify_window = 30 * 86400000

abbrev expires_within : Instant → Option Instant → Bool
expires_within now none = false
expires_within now (some t) = leb now t && leb t (now + notify_window)

abbrev not_notified_since : Instant → Option Instant → Bool
not_notified_since t none = true
not_notified_since t (some s) = ltb s t

unfoldable pub wants_notice : Instant → Profile → Bool
wants_notice now p =
    ltb_ℤ (pos 0) p.balance
    && (expires_within now p.balance_expires_at
        && not_notified_since (now - notify_window) p.last_expiry_notification_at)

-- the POINTS_EXPIRING messages that are emitted: user, points, expiry
pub record Notice : Type 0 where
  pub user_id : Uuid
  pub points : ℤ
  pub expires_at : Option Instant

abbrev notice_of : Profile → Notice
notice_of p = record { user_id = p.user_id; points = p.balance; expires_at = p.balance_expires_at }

-- `updateMany({ where: { id: { in: ids } } })` of the notification instant
unfoldable pub mark_notified : Instant → List Profile → List Profile → List Profile
mark_notified now [] rows = rows
mark_notified now (p ∷ ps) rows = mark_notified now ps (
    map (λ q. if q.id == p.id then record q { last_expiry_notification_at = some now } else q) rows)

-- the passes of `notifyExpiringUsers`; the rows are marked before the messages are emitted
unfoldable pub notify_from : Instant → ℕ → Option ℕ → List Notice → Db → List Notice × Db
unfolding mark_notified next_batch wants_notice
notify_from now zero cursor sent db = (sent, db)
notify_from now (suc fuel) cursor sent db = elim (next_batch (wants_notice now) cursor db) [
  | [] ↦ (sent, db)
  | p ∷ ps ↦
      notify_from now fuel (some (last_id p ps)) (sent ++ map notice_of (p ∷ ps))
        (record db { profiles = mark_notified now (p ∷ ps) db.profiles })
]

unfoldable pub notify_expiring_users : Clock → Db → List Notice × Db
unfolding notify_from
notify_expiring_users clock db =
    notify_from clock.now (passes (wants_notice clock.now) db) none [] db

-- `grantBirthdayBonuses`: the scan reads every profile with a birthday, and grants today's
abbrev pub grant_today : (Uuid → ℕ → Attempt) → Clock → Profile → Db → Progress
grant_today env clock p db =
    if has_birthday clock p.birthday_date
    then (let (r, db') = grant_birthday_bonus_for_user (env p.user_id) clock p.user_id db in
        (elim r [ returned _ ↦ returned 1 | raised e ↦ raised e ], db'))
    else (returned 1, db)

abbrev pub has_birthday_date : Profile → Bool
has_birthday_date p = is_some p.birthday_date

unfoldable pub grant_birthday_bonuses : (Uuid → ℕ → Attempt) → Clock → Db → Progress
unfolding scan
grant_birthday_bonuses env clock db =
    scan has_birthday_date (grant_today env clock) (passes has_birthday_date db) none 0 db

pub data JobName : Type 0 where
  expire_points_job notify_expiring_job annual_stats_reset legacy_annual_reset : JobName
  gold_reset_job grant_birthday_bonuses_job other_job : JobName

-- the database after a job; an unknown name is only logged
unfoldable pub process_job : (Uuid → ℕ → Attempt) → Clock → JobName → Db → Db
process_job env clock expire_points_job db = (expire_points env clock db).1
process_job env clock notify_expiring_job db = (notify_expiring_users clock db).1
process_job env clock annual_stats_reset db = (reset_annual_stats env db).1
process_job env clock legacy_annual_reset db = (reset_annual_stats env db).1
process_job env clock gold_reset_job db = (gold_reset env clock db).1
process_job env clock grant_birthday_bonuses_job db = (grant_birthday_bonuses env clock db).1
process_job env clock other_job db = db
