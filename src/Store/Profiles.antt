-- ===== src/Store/Profiles.antt =====
-- The statements on loyalty_profiles, points_transactions and outbox_events that the services
-- share, and lockLoyaltyProfile (src/prisma/profile-transaction.ts).
use cinema_loyalty_service.Prelude.{
  ℕ, ◌+◌, ◌≡◌, Bool, ◌&&◌, not, Option, none, some, arith, if◌then◌else◌, ◌==◌, List, [], ◌∷◌, ℤ,
  pos, is_int32, is_some, Bool-cases, inl, inr, true,
}
use cinema_loyalty_service.Store.Types.{
  Db, Uuid, Profile, TransactionType, Tier, bronze, pending, Instant, tier_eq,
}
use cinema_loyalty_service.Store.Tx.{
  Tx, pure, throw, gets, modify, throw_if, ◌>>◌, Keeps, known_request, p2020, p2025,
}

-- SELECT * FROM loyalty_profiles WHERE user_id = ...
unfoldable pub find_profile : Uuid → List Profile → Option Profile
find_profile u [] = none
find_profile u (p ∷ ps) = if p.user_id == u then some p else find_profile u ps

-- UPDATE loyalty_profiles SET ... of the row with the new row's user_id
unfoldable pub replace_profile : Profile → List Profile → List Profile
replace_profile q [] = []
replace_profile q (p ∷ ps) = (if p.user_id == q.user_id then q else p) ∷ replace_profile q ps

pub find_profile-replace_profile :
    (v : Uuid) (q : Profile) (ps : List Profile)
    → find_profile v (replace_profile q ps) ≡ (
        if q.user_id == v
        then (if is_some (find_profile v ps) then some q else none)
        else find_profile v ps)
unfolding find_profile replace_profile
find_profile-replace_profile v q [] = ground arith
find_profile-replace_profile v q (p ∷ ps) = ground (arith, find_profile-replace_profile v q ps)

pub find_profile-user_id :
    (u : Uuid) (ps : List Profile) (p : Profile) → find_profile u ps ≡ some p → p.user_id ≡ u
unfolding find_profile
find_profile-user_id u [] p h = cc
find_profile-user_id u (q ∷ ps) p h = ground (arith, find_profile-user_id u ps p)

-- a row with the defaults of the schema
abbrev pub new_profile : ℕ → Uuid → Profile
new_profile n u = record {
  id = n;
  user_id = u;
  tier = bronze;
  balance = pos 0;
  lifetime_points = pos 0;
  year_points = pos 0;
  year_visits = pos 0;
  tier_expires_at = none;
  last_activity_at = none;
  balance_expires_at = none;
  birthday_date = none;
  last_expiry_notification_at = none;
  gold_upgrade_used_month = none;
}

-- `createMany({ data: { userId }, skipDuplicates: true })`, and the `upsert` of the readers
abbrev pub ensure_profile : Uuid → Db → Db
ensure_profile u db =
    let present = is_some (find_profile u db.profiles) in
    record db {
      profiles = if present then db.profiles else new_profile db.next_id u ∷ db.profiles;
      next_id = if present then db.next_id else db.next_id + 1;
    }

-- the balance of a user; a user with no profile has none
unfoldable pub balance_of : Uuid → List Profile → ℤ
balance_of u ps = elim (find_profile u ps) [ none ↦ pos 0 | some p ↦ p.balance ]

pub balance_of-found :
    (u : Uuid) (ps : List Profile) (p : Profile)
    → find_profile u ps ≡ some p
    → balance_of u ps ≡ p.balance
unfolding balance_of
balance_of-found u ps p h = ground arith

-- A new profile starts at zero.
pub balance_of-ensure_profile :
    (u v : Uuid) (db : Db) → balance_of v (ensure_profile u db).profiles ≡ balance_of v db.profiles
unfolding balance_of find_profile
balance_of-ensure_profile u v db = ground arith

-- Writing the row of a user changes the balance of that user alone.
pub balance_of-replace_profile :
    (u : Uuid) (q p : Profile) (v : Uuid) (ps : List Profile)
    → find_profile u ps ≡ some p
    → q.user_id ≡ u
    → balance_of v (replace_profile q ps) ≡ (if u == v then q.balance else balance_of v ps)
unfolding balance_of
balance_of-replace_profile u q p v ps h e = ground (arith, find_profile-replace_profile v q ps)

-- The lock orders the transactions of one user; it changes no row.
unfoldable pub lock_loyalty_profile : Uuid → Bool → Tx Bool
lock_loyalty_profile u create_if_missing db =
    (do
      modify (λ d. if create_if_missing then ensure_profile u d else d)
      gets (λ d. is_some (find_profile u d.profiles)))
      db

-- whether the accounting columns fit an `integer`
unfoldable pub fits : Profile → Bool
fits p =
    is_int32 p.balance
    && (is_int32 p.lifetime_points && (is_int32 p.year_points && is_int32 p.year_visits))

-- UPDATE of a row that was read before; Postgres refuses what does not fit the columns
unfoldable pub update_profile : Profile → Tx (Unit {0})
update_profile p = do
  throw_if (not (fits p)) (known_request p2020 none)
  modify (λ d. record d { profiles = replace_profile p d.profiles })

-- `findUniqueOrThrow`
unfoldable pub find_profile_or_throw : Uuid → Tx Profile
find_profile_or_throw u db = elim (find_profile u db.profiles) [
  | none ↦ throw (known_request p2025 none) db
  | some p ↦ pure p db
]

-- INSERT INTO points_transactions; returns the new row's id
unfoldable pub create_transaction : Uuid → TransactionType → ℤ → ℤ → Option Uuid → Tx ℕ
create_transaction u ty points after order db =
    (do
      modify (λ d. record d {
        transactions =
            record {
              id = d.next_id;
              user_id = u;
              type = ty;
              points = points;
              balance_after = after;
              order_id = order;
            }
            ∷ d.transactions;
        next_id = d.next_id + 1;
      })
      pure db.next_id)
      db

-- INSERT INTO outbox_events of a TIER_UPGRADED event, if the tier changed
abbrev pub tier_noted : Uuid → Tier → Tier → Instant → Db → Db
tier_noted u old new now d = record d {
  outbox =
      if tier_eq new old
      then d.outbox
      else record {
        id = d.next_id;
        user_id = u;
        old_tier = old;
        new_tier = new;
        status = pending;
        attempts = 0;
        max_attempts = 5;
        lease_token = none;
        lease_expires_at = none;
        next_attempt_at = now;
        published_at = none;
      }
        ∷ d.outbox;
  next_id = d.next_id + 1;
}

unfoldable pub record_tier_change : Uuid → Tier → Tier → Instant → Tx (Unit {0})
record_tier_change u old new now = modify (tier_noted u old new now)

-- What follows an update runs on the database with the row replaced; otherwise all is undone.
pub update_profile-Keeps :
    {A : Type 0} (P : Db → Type 0) (q : Profile) (k : Tx A) (db : Db)
    → (fits q ≡ true → Keeps P (k (record db { profiles = replace_profile q db.profiles })))
    → Keeps P ((update_profile q >> k) db)
unfolding update_profile
update_profile-Keeps P q k db h = elim (Bool-cases (fits q)) [
  | inr wide ↦ rw wide tt
  | inl ok ↦ rw ok (h ok)
]
