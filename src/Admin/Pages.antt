-- ===== src/Admin/Pages.antt =====
-- The pages of the history of points.
use cinema_loyalty_service.Prelude.{
  ◌≡◌, ◌≤◌, refl, List, arith, length, length-take_le, drop, select, ℤ, ◌==◌,
}
use cinema_loyalty_service.Store.Types.{Db, Uuid, PointsTransaction}
use cinema_loyalty_service.Store.Tx.{Answer, returned, raised}
use cinema_loyalty_service.Admin.{Pagination, admin_pagination, get_transaction_history}

admin_pagination-bounds :
    (limit skip : ℤ) (page : Pagination)
    → admin_pagination limit skip ≡ returned page
    → page.take_rows ≤ 100
unfolding admin_pagination
admin_pagination-bounds limit skip page h = ground arith

-- A page of the history that is returned has at most 100 rows, whatever was asked.
pub get_transaction_history-length :
    (u : Uuid) (limit skip : ℤ) (db : Db) (rows : List PointsTransaction)
    → get_transaction_history u limit skip db ≡ returned rows
    → length rows ≤ 100
unfolding get_transaction_history
get_transaction_history-length u limit skip db rows h = cases (admin_pagination limit skip) refl
  where
    cases : (a : Answer Pagination) → admin_pagination limit skip ≡ a → length rows ≤ 100
    cases (raised f) e = let h' = rw (e, get_transaction_history) at h in ground (arith, h')
    cases (returned page) e =
        let h' = rw (e, get_transaction_history) at h in
        let few = admin_pagination-bounds limit skip page e in
        let cut =
          length-take_le page.take_rows
            (drop page.skip_rows (select (λ t. t.user_id == u) db.transactions)) in
        ground (arith, h', few, cut)
