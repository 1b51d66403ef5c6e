-- ===== src/Admin/Conservation.antt =====
-- The administrator's changes keep the ledger.
use cinema_loyalty_service.Prelude.{
  ◌≡◌, refl, false, some, ℤ, pos, ◌+ℤ◌, ltb_ℤ, arith, +ℤ-zero, sym,
}
use cinema_loyalty_service.Store.Types.{tier_eq, Db, Uuid, Profile, gold}
use cinema_loyalty_service.Store.Tx.{Keeps, rpc_exception, already_exists, already_vip}
use cinema_loyalty_service.Store.Profiles.{
  find_profile, ensure_profile, lock_loyalty_profile, update_profile-Keeps,
}
use cinema_loyalty_service.Store.Rules.{find_profile_or_throw-Keeps, throw_if-Keeps}
use cinema_loyalty_service.Calculator.{Clock}
use cinema_loyalty_service.Ledger.Steps.{ensured-LedgerStep, LedgerStep, replace_profile-posted}
use cinema_loyalty_service.Admin.{
  modified, book_modification, modify_points_body, book_vip, grant_vip_status_body,
}

-- The new row has the old user and the balance moved by the points.
modified_row :
    (clock : Clock) (p : Profile) (points : ℤ)
    → ((modified clock p points).user_id ≡ p.user_id)
      × ((modified clock p points).balance ≡ p.balance +ℤ points)
unfolding modified
modified_row clock p points = ground arith

book_modification-LedgerStep :
    (clock : Clock) (u : Uuid) (points : ℤ) (p : Profile) (db : Db)
    → find_profile u db.profiles ≡ some p
    → ltb_ℤ (p.balance +ℤ points) (pos 0) ≡ false
    → Keeps (LedgerStep db) (book_modification clock u points p db)
unfolding book_modification
book_modification-LedgerStep clock u points p db found enough =
    let (same_user, moved) = modified_row clock p points in
    update_profile-Keeps (LedgerStep db) (modified clock p points) _ db (λ ok.
      replace_profile-posted u p (modified clock p points) _ _ _ found same_user refl moved
        (λ h. rw moved (ground arith)))

-- Every modification that commits is a step of the ledger.
pub modify_points_body-LedgerStep :
    (clock : Clock) (u : Uuid) (points : ℤ) (db : Db)
    → Keeps (LedgerStep db) (modify_points_body clock u points db)
unfolding modify_points_body lock_loyalty_profile
modify_points_body-LedgerStep clock u points db =
    let opened = ensure_profile u db in
    ensured-LedgerStep u db _ (
      find_profile_or_throw-Keeps (LedgerStep opened) u _ opened (λ p found.
        throw_if-Keeps (LedgerStep opened) _ _ _ opened
          (λ enough. book_modification-LedgerStep clock u points p opened found enough)))

book_vip-LedgerStep :
    (clock : Clock) (u : Uuid) (p : Profile) (db : Db)
    → find_profile u db.profiles ≡ some p
    → Keeps (LedgerStep db) (book_vip clock u p db)
unfolding book_vip
book_vip-LedgerStep clock u p db found =
    update_profile-Keeps (LedgerStep db) (record p { tier = gold }) _ db
      (λ ok.
        replace_profile-posted u p (record p { tier = gold }) _ _ _ found refl refl
          (sym (+ℤ-zero p.balance)) (λ h. h))

-- A VIP grant that commits writes an entry of no points: it is a step of the ledger.
pub grant_vip_status_body-LedgerStep :
    (clock : Clock) (u : Uuid) (db : Db) → Keeps (LedgerStep db) (grant_vip_status_body clock u db)
unfolding grant_vip_status_body lock_loyalty_profile
grant_vip_status_body-LedgerStep clock u db =
    let opened = ensure_profile u db in
    ensured-LedgerStep u db _ (
      find_profile_or_throw-Keeps (LedgerStep opened) u _ opened (λ p found.
        throw_if-Keeps (LedgerStep opened) (tier_eq p.tier gold)
          (rpc_exception already_exists already_vip) (book_vip clock u p) opened
          (λ other. book_vip-LedgerStep clock u p opened found)))
