-- ===== src/Service/Refinement.antt =====
-- What the service promises about points, without its tables: accounts that are posted to.
use cinema_loyalty_service.Prelude.{
  ◌≡◌, refl, sym, subst, ℤ, pos, ◌≤ℤ◌, ◌+ℤ◌, ℕ, List, [], ◌∷◌, map, ◌==◌, if◌then◌else◌,
}
use cinema_loyalty_service.Calculator.{Clock}
use cinema_loyalty_service.Ledger.Steps.{unposted, posted, LedgerStep}
use cinema_loyalty_service.Service.{Runtime, Request, serve_all}
use cinema_loyalty_service.Service.Steps.{AreFair, serve_all_inv}
use cinema_loyalty_service.Store.Profiles.{balance_of}
use cinema_loyalty_service.Store.Types.{PointsTransaction, Uuid, Db}

-- The balances, and the movements with the last one first.
pub record Accounts : Type 0 where
  pub balance : Uuid → ℤ
  pub journal : List (Uuid × ℤ)

-- the accounts after a movement
abbrev pub post : Uuid → ℤ → Accounts → Accounts
post u n a = record {
  balance = λ v. if u == v then a.balance v +ℤ n else a.balance v;
  journal = (u, n) ∷ a.journal;
}

-- The one operation posts a movement, and no movement makes an account negative.
pub data AccountRun (start : Accounts) : Accounts → Type 0 where
  stay : AccountRun start start
  move :
      {a : Accounts} (u : Uuid) (n : ℤ)
      → AccountRun start a
      → (pos 0 ≤ℤ a.balance u → pos 0 ≤ℤ a.balance u +ℤ n)
      → AccountRun start (post u n a)

-- what the tables say of the accounts
abbrev pub accounts_of : Db → Accounts
accounts_of db = record {
  balance = λ v. balance_of v db.profiles;
  journal = map (λ (t : PointsTransaction). (t.user_id, t.points)) db.transactions;
}

-- What a database can be reached from.
abbrev pub Refines : Accounts → Db → Type 0
Refines start db = AccountRun start (accounts_of db)

Accounts_eq :
    (a b : Accounts) → ((v : Uuid) → a.balance v ≡ b.balance v) → a.journal ≡ b.journal → a ≡ b
Accounts_eq a b balances rows = λ i. record { balance = λ v. balances v i; journal = rows i }

LedgerStep-Refines :
    (start : Accounts) (db db' : Db) → LedgerStep db db' → Refines start db → Refines start db'
LedgerStep-Refines start db db' (unposted same rows) h =
    subst (AccountRun start)
      (Accounts_eq (accounts_of db) (accounts_of db') (λ v. sym (same v)) (rw rows refl)) h
LedgerStep-Refines start db db' (posted t row moved keep) h =
    subst (AccountRun start)
      (Accounts_eq (post t.user_id t.points (accounts_of db)) (accounts_of db') (λ v. sym (moved v))
        (rw row refl))
      (move t.user_id t.points h keep)

AccountRun-trans : {a b c : Accounts} → AccountRun a b → AccountRun b c → AccountRun a c
AccountRun-trans p stay = p
AccountRun-trans p (move u n q keep) = move u n (AccountRun-trans p q) keep

-- The other sessions post to the accounts, too.
abbrev pub IsPosting : List (Runtime × Clock × Request) → Type 0
IsPosting [] = Unit
IsPosting ((rt, clock, r) ∷ rest) =
    ((u : Uuid) (n : ℕ) (db : Db) → Refines (accounts_of db) (((rt.attempts u) n).before db))
    × IsPosting rest

-- Every history of requests does to the balances and to the ledger what a run of the accounts does,
-- if the other sessions do so: each change is a movement that is written to the journal and changes
-- the one balance by its points, and it never makes a balance negative.
pub serve_all-refines :
    (history : List (Runtime × Clock × Request)) (db : Db)
    → IsPosting history
    → AccountRun (accounts_of db) (accounts_of (serve_all history db))
serve_all-refines history db posting =
    serve_all_inv (Refines (accounts_of db)) (LedgerStep-Refines (accounts_of db)) history db
      (fair history posting) stay
  where
    fair :
        (h : List (Runtime × Clock × Request)) → IsPosting h → AreFair (Refines (accounts_of db)) h
    fair [] p = tt
    fair ((rt, clock, r) ∷ rest) (p, others) =
        (λ u n d run. AccountRun-trans run (p u n d), fair rest others)
