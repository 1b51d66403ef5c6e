-- ===== src/Service/Balanced.antt =====
-- The ledger through a whole history of requests.
use cinema_loyalty_service.Prelude.{List}
use cinema_loyalty_service.Calculator.{Clock}
use cinema_loyalty_service.Ledger.Steps.{IsBalanced, LedgerStep-IsBalanced}
use cinema_loyalty_service.Service.{Runtime, Request, serve_all}
use cinema_loyalty_service.Service.Steps.{AreFair, serve_all_inv}
use cinema_loyalty_service.Store.Types.{Db}

-- Every history of requests, in any order, keeps every balance the sum of its ledger's entries
-- and not negative, whatever attempts fail or are retried, if the other sessions keep this too.
pub serve_all-IsBalanced :
    (history : List (Runtime × Clock × Request)) (db : Db)
    → AreFair IsBalanced history
    → IsBalanced db
    → IsBalanced (serve_all history db)
serve_all-IsBalanced history db fair h =
    serve_all_inv IsBalanced LedgerStep-IsBalanced history db fair h
