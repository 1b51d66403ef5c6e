-- ===== src/Store/Rules.antt =====
-- Rules for reasoning about a transaction statement by statement: each says what has to hold of
-- the rest so that a commit satisfies a condition.
use cinema_loyalty_service.Prelude.{arith, ◌≡◌, Bool, false, Bool-cases, inl, inr, some}
use cinema_loyalty_service.Store.Types.{Db, Uuid, Profile}
use cinema_loyalty_service.Store.Tx.{
  continue-Keeps, Tx, Outcome, done, thrown, Failure, Keeps, throw_if, ◌>>=◌, ◌>>◌,
}
use cinema_loyalty_service.Store.Profiles.{find_profile, find_profile_or_throw}

find_profile_or_throw_reads :
    (u : Uuid) (p : Profile) (db d : Db)
    → find_profile_or_throw u db ≡ done p d
    → (find_profile u db.profiles ≡ some p) × (d ≡ db)
unfolding find_profile_or_throw
find_profile_or_throw_reads u p db d e = ground arith

module _ {A : Type 0} (P : Db → Type 0) where
  pub find_profile_or_throw-Keeps :
      (u : Uuid) (k : Profile → Tx A) (db : Db)
      → ((p : Profile) → find_profile u db.profiles ≡ some p → Keeps P (k p db))
      → Keeps P ((find_profile_or_throw u >>= k) db)
  find_profile_or_throw-Keeps u k db h = continue-Keeps P k (find_profile_or_throw u db) (λ p d e.
      rw ((find_profile_or_throw_reads u p db d e).1)
        (h p (find_profile_or_throw_reads u p db d e).0))

  pub throw_if-Keeps :
      (b : Bool) (e : Failure) (k : Tx A) (db : Db)
      → (b ≡ false → Keeps P (k db))
      → Keeps P ((throw_if b e >> k) db)
  throw_if-Keeps b e k db h = elim (Bool-cases b) [
    | inl stop ↦ rw stop tt
    | inr go_on ↦ rw go_on (h go_on)
  ]

pub Keeps-mono :
    {A : Type 0} (P Q : Db → Type 0) (o : Outcome A)
    → ((d : Db) → P d → Q d)
    → Keeps P o
    → Keeps Q o
Keeps-mono P Q (done r d) h k = h d k
Keeps-mono P Q (thrown e) h k = tt
