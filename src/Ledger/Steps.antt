-- ===== src/Ledger/Steps.antt =====
-- The ledger invariant, and the one kind of change that keeps it: a balance moves by the points of
-- the entry that is written beside it.
use cinema_loyalty_service.Prelude.{
  ◌∙◌, ◌≡◌, refl, some, if◌then◌else◌, ◌==◌, ==_iff, List, [], ◌∷◌, ℤ, pos, ◌+ℤ◌, ◌≤ℤ◌, Bool-cases,
  inl, inr, subst, arith,
}
use cinema_loyalty_service.Store.Tx.{Outcome, Keeps}
use cinema_loyalty_service.Store.Rules.{Keeps-mono}
use cinema_loyalty_service.Store.Types.{Db, Uuid, Profile, PointsTransaction}
use cinema_loyalty_service.Store.Profiles.{
  ensure_profile, balance_of-ensure_profile, find_profile-user_id, balance_of, balance_of-found,
  balance_of-replace_profile, find_profile, replace_profile,
}

-- the sum of a user's ledger entries
pub ledger_sum : Uuid → List PointsTransaction → ℤ
ledger_sum u [] = pos 0
ledger_sum u (t ∷ ts) = if t.user_id == u then ledger_sum u ts +ℤ t.points else ledger_sum u ts

-- Every balance is the sum of its ledger, and none is negative.
pub record IsBalanced (db : Db) : Type 0 where
  pub explained : (u : Uuid) → balance_of u db.profiles ≡ ledger_sum u db.transactions
  pub solvent : (u : Uuid) → pos 0 ≤ℤ balance_of u db.profiles

-- What one transaction does to the two tables.
pub data LedgerMove (ps : List Profile) (ts : List PointsTransaction) (ps' : List Profile)
    (ts' : List PointsTransaction) : Type 0 where
  unposted : ((v : Uuid) → balance_of v ps' ≡ balance_of v ps) → ts' ≡ ts → LedgerMove ps ts ps' ts'
  posted :
      (t : PointsTransaction)
      → ts' ≡ t ∷ ts
      → ((v : Uuid)
          → balance_of v ps'
            ≡ (if t.user_id == v then balance_of v ps +ℤ t.points else balance_of v ps))
      → (pos 0 ≤ℤ balance_of t.user_id ps → pos 0 ≤ℤ balance_of t.user_id ps +ℤ t.points)
      → LedgerMove ps ts ps' ts'

abbrev pub LedgerStep : Db → Db → Type 0
LedgerStep db db' = LedgerMove db.profiles db.transactions db'.profiles db'.transactions

ledger_sum-posted :
    (u : Uuid) (t : PointsTransaction) (ts : List PointsTransaction) (b : ℤ)
    → b ≡ ledger_sum u ts
    → (if t.user_id == u then b +ℤ t.points else b) ≡ ledger_sum u (t ∷ ts)
unfolding ledger_sum
ledger_sum-posted u t ts b h = ground arith

solvent-posted :
    (u : Uuid) (t : PointsTransaction) (f : Uuid → ℤ)
    → pos 0 ≤ℤ f u
    → (pos 0 ≤ℤ f t.user_id → pos 0 ≤ℤ f t.user_id +ℤ t.points)
    → pos 0 ≤ℤ f t.user_id
    → pos 0 ≤ℤ (if t.user_id == u then f u +ℤ t.points else f u)
solvent-posted u t f h keep own = elim (Bool-cases (t.user_id == u)) [
  | inl same ↦
      let e : t.user_id ≡ u = (==_iff _ _).0 same in
      rw same (subst (λ v. pos 0 ≤ℤ f v +ℤ t.points) e (keep own))
  | inr other ↦ rw other h
]

-- A step keeps every balance equal to the sum of its ledger, and none becomes negative.
pub LedgerMove-explained :
    {ps ps' : List Profile} {ts ts' : List PointsTransaction}
    → LedgerMove ps ts ps' ts'
    → ((u : Uuid) → balance_of u ps ≡ ledger_sum u ts)
    → (u : Uuid) → balance_of u ps' ≡ ledger_sum u ts'
LedgerMove-explained (unposted same rows) h u = rw (same u, rows) (h u)
LedgerMove-explained (posted t row moved keep) h u =
    rw (moved u, row) (ledger_sum-posted u t _ _ (h u))

LedgerMove-solvent :
    {ps ps' : List Profile} {ts ts' : List PointsTransaction}
    → LedgerMove ps ts ps' ts'
    → ((u : Uuid) → pos 0 ≤ℤ balance_of u ps)
    → (u : Uuid) → pos 0 ≤ℤ balance_of u ps'
LedgerMove-solvent (unposted same rows) h u = rw (same u) (h u)
LedgerMove-solvent {ps} (posted t row moved keep) h u =
    rw (moved u) (solvent-posted u t (λ v. balance_of v ps) (h u) keep (h t.user_id))

pub LedgerStep-IsBalanced : (db db' : Db) → LedgerStep db db' → IsBalanced db → IsBalanced db'
LedgerStep-IsBalanced db db' m h = record {
  explained = LedgerMove-explained m h.explained;
  solvent = LedgerMove-solvent m h.solvent;
}

-- Writing a profile's row with a new balance beside an entry of the difference is a step.
pub replace_profile-posted :
    (u : Uuid) (p q : Profile) (t : PointsTransaction) (ps : List Profile)
    (ts : List PointsTransaction)
    → find_profile u ps ≡ some p
    → q.user_id ≡ p.user_id
    → t.user_id ≡ u
    → q.balance ≡ p.balance +ℤ t.points
    → (pos 0 ≤ℤ p.balance → pos 0 ≤ℤ q.balance)
    → LedgerMove ps ts (replace_profile q ps) (t ∷ ts)
replace_profile-posted u p q t ps ts found keeps_user own sum keep =
    let at = balance_of-found u ps p found in
    let mine : q.user_id ≡ u = keeps_user ∙ find_profile-user_id u ps p found in
    posted t refl
      (λ v. rw (own, balance_of-replace_profile u q p v ps found mine) (ground (arith, at)))
      (λ h. rw (own, at, ← sum) (keep (rw (own, at) at h)))

-- Writing a profile's row with the same balance leaves every balance alone.
pub replace_profile-balances :
    (u : Uuid) (p q : Profile) (ps : List Profile)
    → find_profile u ps ≡ some p
    → q.user_id ≡ p.user_id
    → q.balance ≡ p.balance
    → (v : Uuid) → balance_of v (replace_profile q ps) ≡ balance_of v ps
replace_profile-balances u p q ps found keeps_user same v =
    let at = balance_of-found u ps p found in
    let mine : q.user_id ≡ u = keeps_user ∙ find_profile-user_id u ps p found in
    rw (balance_of-replace_profile u q p v ps found mine) (ground (arith, at))

pub replace_profile-unposted :
    (u : Uuid) (p q : Profile) (ps : List Profile) (ts : List PointsTransaction)
    → find_profile u ps ≡ some p
    → q.user_id ≡ p.user_id
    → q.balance ≡ p.balance
    → LedgerMove ps ts (replace_profile q ps) ts
replace_profile-unposted u p q ps ts found keeps_user same =
    unposted (replace_profile-balances u p q ps found keeps_user same) refl

pub LedgerStep_same : {ps : List Profile} {ts : List PointsTransaction} → LedgerMove ps ts ps ts
LedgerStep_same = unposted (λ v. refl) refl

-- Changes that leave every balance alone may come before a step.
pub LedgerMove-after :
    {ps ps' ps'' : List Profile} {ts ts'' : List PointsTransaction}
    → ((v : Uuid) → balance_of v ps' ≡ balance_of v ps)
    → LedgerMove ps' ts ps'' ts''
    → LedgerMove ps ts ps'' ts''
LedgerMove-after same (unposted moved rows) = unposted (λ v. moved v ∙ same v) rows
LedgerMove-after same (posted t row moved keep) =
    posted t row (λ v. rw (← same v) (moved v))
      (λ h. rw (← same t.user_id) (keep (rw (same t.user_id) h)))

-- So may the creation of a missing profile.
pub ensured-LedgerStep :
    {A : Type 0} (u : Uuid) (db : Db) (o : Outcome A)
    → Keeps (LedgerStep (ensure_profile u db)) o
    → Keeps (LedgerStep db) o
ensured-LedgerStep u db o =
    Keeps-mono (LedgerStep (ensure_profile u db)) (LedgerStep db) o
      (λ d m. LedgerMove-after (λ v. balance_of-ensure_profile u v db) m)

-- A database with no profiles and no entries is balanced.
pub no_rows-IsBalanced : (db : Db) → db.profiles ≡ [] → db.transactions ≡ [] → IsBalanced db
unfolding ledger_sum balance_of find_profile
no_rows-IsBalanced db none_open none_posted = record {
  explained = λ u. rw (none_open, none_posted) refl;
  solvent = λ u. rw none_open (ground arith);
}
