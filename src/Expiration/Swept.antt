-- ===== src/Expiration/Swept.antt =====
-- What the scheduled jobs leave to be done.
use cinema_loyalty_service.Prelude.{
  pos, ℕ, ◌≡◌, refl, ◌∙◌, subst, inl, inr, Bool, false, none, Bool-cases, Option-cases,
}
use cinema_loyalty_service.Calculator.{Clock}
use cinema_loyalty_service.Expiration.{
  Progress, scan, passes, is_expired, book_expiration, expire_body, expire_points,
  is_active_this_year, reset_body, reset_annual_stats, gold_reset_body, has_old_quota, gold_reset,
}
use cinema_loyalty_service.Expiration.Batches.{Descends}
use cinema_loyalty_service.Expiration.Scan.{scan-Scanned}
use cinema_loyalty_service.Expiration.Visits.{Scanned-visits, Spares}
use cinema_loyalty_service.Expiration.Work.{
  Has, AreUnique, ids, Worked, no_row, row_unwanted, row_replaced, Worked-Leaves,
}
use cinema_loyalty_service.Store.Profiles.{find_profile, create_transaction, update_profile-Keeps}
use cinema_loyalty_service.Store.Retry.{with_transaction_retry-committed}
use cinema_loyalty_service.Store.Tx.{Tx, Attempt, Keeps, returned, with_transaction_retry}
use cinema_loyalty_service.Store.Types.{Uuid, Instant, MonthKey, Profile, Db}

module _ (wanted : Profile → Bool) (body : Uuid → Tx ℕ)
    (worked : (u : Uuid) (db : Db)
      → Keeps (λ d. Worked wanted u db.profiles d.profiles) (body u db))
    (env : Uuid → ℕ → Attempt)
    (quiet : (u : Uuid) (n : ℕ) (db : Db) → ((env u n).before db).profiles ≡ db.profiles) where
  abbrev work : Profile → Db → Progress
  work p = with_transaction_retry (env p.user_id) (λ raced. body p.user_id)

  work-Leaves :
      (p : Profile) (d : Db) (n : ℕ)
      → Unit {0}
      → ((r : Profile) → Has r d.profiles → Unit {0})
      → AreUnique d.profiles
      → (work p d).0 ≡ returned n
      → Spares (λ r. Unit {0}) (λ x. wanted) p.user_id d (work p d).1
  work-Leaves p d n t rows unique won =
      let left = Worked-Leaves wanted p.user_id d.profiles _ unique (
        with_transaction_retry-committed (λ x. x.profiles ≡ d.profiles)
          (λ x. Worked wanted p.user_id d.profiles x.profiles) (λ raced. body p.user_id)
          (env p.user_id) (λ m x h. quiet p.user_id m x ∙ h) (λ m x h. h)
          (λ m x h.
            subst (λ rows. Keeps (λ y. Worked wanted p.user_id rows y.profiles) (body p.user_id x))
              h (worked p.user_id x))
          d n refl won) in
      record {
        rows = λ r h. tt;
        same_ids = left.same_ids;
        unique = left.unique;
        others = λ r h w. let (old, apart) = left.others r h w in (old, w, apart);
      }

  scan-visits :
      (db : Db) (n : ℕ)
      → AreUnique db.profiles
      → Descends (ids db.profiles)
      → (scan wanted work (passes wanted db) none 0 db).0 ≡ returned n
      → (r : Profile) → Has r (scan wanted work (passes wanted db) none 0 db).1.profiles
      → wanted r ≡ false
  scan-visits db n unique descends won =
      Scanned-visits wanted work (λ x. wanted) (λ r. Unit {0}) (λ d r w. w) work-Leaves none 0 n db
        (scan wanted work (passes wanted db) none 0 db) (scan-Scanned wanted work 0 db)
        (record { rows = λ r h. tt; unique = unique; descends = descends; left = λ r h w. refl })
        won

expire_body-Worked :
    (now : Instant) (u : Uuid) (db : Db)
    → Keeps (λ d. Worked (is_expired now) u db.profiles d.profiles) (expire_body now u db)
unfolding expire_body book_expiration create_transaction is_expired
expire_body-Worked now u db = elim (Option-cases (find_profile u db.profiles)) [
  | inl none_found ↦ rw (none_found, expire_body) (no_row none_found)
  | inr (p, found) ↦ elim (Bool-cases (is_expired now p)) [
    | inr idle ↦ rw (found, expire_body, idle) (row_unwanted p found idle)
    | inl ripe ↦
        rw (found, expire_body, ripe)
          (update_profile-Keeps (λ d. Worked (is_expired now) u db.profiles d.profiles)
            (record p { balance = pos 0 }) _ db
            (λ ok. row_replaced p (record p { balance = pos 0 }) found refl refl refl))
  ]
]

reset_body-Worked :
    (u : Uuid) (db : Db)
    → Keeps (λ d. Worked is_active_this_year u db.profiles d.profiles) (reset_body u db)
unfolding reset_body
reset_body-Worked u db = elim (Option-cases (find_profile u db.profiles)) [
  | inl none_found ↦ rw (none_found, reset_body) (no_row none_found)
  | inr (p, found) ↦
      let q : Profile = record p { year_points = pos 0; year_visits = pos 0 } in
      rw (found, reset_body)
        (update_profile-Keeps (λ d. Worked is_active_this_year u db.profiles d.profiles) q _ db
          (λ ok. row_replaced p q found refl refl refl))
]

gold_reset_body-Worked :
    (m : MonthKey) (u : Uuid) (db : Db)
    → Keeps (λ d. Worked (has_old_quota m) u db.profiles d.profiles) (gold_reset_body m u db)
unfolding gold_reset_body
gold_reset_body-Worked m u db = elim (Option-cases (find_profile u db.profiles)) [
  | inl none_found ↦ rw (none_found, gold_reset_body) (no_row none_found)
  | inr (p, found) ↦ elim (Bool-cases (has_old_quota m p)) [
    | inr idle ↦ rw (found, gold_reset_body, idle) (row_unwanted p found idle)
    | inl old ↦
        let q : Profile = record p { gold_upgrade_used_month = none } in
        rw (found, gold_reset_body, old)
          (update_profile-Keeps (λ d. Worked (has_old_quota m) u db.profiles d.profiles) q _ db
            (λ ok. row_replaced p q found refl refl refl))
  ]
]

-- the jobs that go through the profiles in transactions
pub data Sweep : Type 0 where
  expiring annual monthly : Sweep

-- the profiles that a job is for
abbrev pub is_due_for : Sweep → Clock → Profile → Bool
is_due_for expiring clock = is_expired clock.now
is_due_for annual clock = is_active_this_year
is_due_for monthly clock = has_old_quota clock.month_key

abbrev pub sweep : Sweep → (Uuid → ℕ → Attempt) → Clock → Db → Progress
sweep expiring env clock = expire_points env clock
sweep annual env clock = reset_annual_stats env
sweep monthly env clock = gold_reset env clock

-- A job that ends without a failure leaves no profile that it is for: none with points past their
-- time, none with points or visits of the year, or none with a Gold quota of an old month. The rows
-- are stored by descending id with one row for each user, and no other session changes a profile
-- meanwhile.
pub sweep_complete :
    (s : Sweep) (env : Uuid → ℕ → Attempt) (clock : Clock) (db : Db) (n : ℕ)
    → ((u : Uuid) (m : ℕ) (d : Db) → ((env u m).before d).profiles ≡ d.profiles)
    → AreUnique db.profiles
    → Descends (ids db.profiles)
    → (sweep s env clock db).0 ≡ returned n
    → (r : Profile) → Has r (sweep s env clock db).1.profiles
    → is_due_for s clock r ≡ false
unfolding expire_points reset_annual_stats gold_reset
sweep_complete expiring env clock db n quiet unique descends won =
    scan-visits (is_expired clock.now) (expire_body clock.now) (expire_body-Worked clock.now) env
      quiet db n unique descends won
sweep_complete annual env clock db n quiet unique descends won =
    scan-visits is_active_this_year reset_body reset_body-Worked env quiet db n unique descends won
sweep_complete monthly env clock db n quiet unique descends won =
    scan-visits (has_old_quota clock.month_key) (gold_reset_body clock.month_key)
      (gold_reset_body-Worked clock.month_key) env quiet db n unique descends won
