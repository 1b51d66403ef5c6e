-- ===== src/Startup.antt =====
-- The start of the process: `bootstrap` (src/bootstrap/bootstrap.ts), with `registerTransports`
-- (src/bootstrap/register-transports.ts) and `resolveProtoPath` (src/bootstrap/resolve-proto-path.ts),
-- and `main` (src/main.ts). `fails` says which of the calls throw; the error of a call stands for what
-- it throws. The log lines of a start that succeeds are left out.
pub mod Order
pub mod Phases
use cinema_loyalty_service.Prelude.{ℕ, Bool, true, false, List, [], ◌∷◌, ◌++◌, if◌then◌else◌}
use cinema_loyalty_service.Effects.{Fate, finished, failed_with, Io, ◌>>=◌, ◌>>◌}

-- the variable `stage`
pub data Stage : Type 0 where
  dependency_creation asset_validation application_initialization : Stage
  microservice_startup http_startup : Stage

pub data StartupCall : Type 0 where
  create_app get_app_config get_frontend_url configure_http find_proto : StartupCall
  connect_grpc get_prefetch connect_rmq init_app start_microservices : StartupCall
  listen_http close_app : StartupCall

pub data StartupReport : Type 0 where
  failed_during : Stage → StartupReport
  cleanup_failed : StartupReport

-- the variables of `bootstrap`, the calls that it made and the errors that it logged
pub record Startup : Type 0 where
  pub has_app : Bool
  pub stage : Stage
  pub calls : List StartupCall
  pub reports : List StartupReport

-- an awaited call; `app` is set by the first
abbrev pub call : (StartupCall → Bool) → StartupCall → Io Startup StartupCall (Unit {0})
call fails c s =
    (if fails c then failed_with c else finished tt, record s { calls = s.calls ++ (c ∷ []) })

abbrev pub set_app : Io Startup StartupCall (Unit {0})
set_app s = (finished tt, record s { has_app = true })

abbrev pub set_stage : Stage → Io Startup StartupCall (Unit {0})
set_stage st s = (finished tt, record s { stage = st })

abbrev pub stop : Io Startup StartupCall (Unit {0})
stop s = (finished tt, s)

-- the body of the `try`
unfoldable pub start : (StartupCall → Bool) → Io Startup StartupCall (Unit {0})
start fails = do
  call fails create_app
  set_app
  call fails get_app_config
  call fails get_frontend_url
  call fails configure_http
  set_stage asset_validation
  call fails find_proto
  call fails connect_grpc
  call fails get_prefetch
  call fails connect_rmq
  set_stage application_initialization
  call fails init_app
  set_stage microservice_startup
  call fails start_microservices
  set_stage http_startup
  call fails listen_http
  stop

abbrev report : StartupReport → Startup → Startup
report r s = record s { reports = s.reports ++ (r ∷ []) }

-- the `try` around `app.close`
abbrev clean_up : (StartupCall → Bool) → Startup → Startup
clean_up fails s =
    let s' : Startup = record s { calls = s.calls ++ (close_app ∷ []) } in
    if fails close_app then report cleanup_failed s' else s'

-- the `catch`, which throws the error on
abbrev pub caught :
    (StartupCall → Bool)
    → Fate StartupCall (Unit {0}) × Startup
    → Fate StartupCall (Unit {0}) × Startup
caught fails (finished u, s) = (finished u, s)
caught fails (failed_with e, s) =
    let s' = report (failed_during s.stage) s in
    (failed_with e, if s.has_app then clean_up fails s' else s')

abbrev pub before_start : Startup
before_start = record { has_app = false; stage = dependency_creation; calls = []; reports = [] }

unfoldable pub bootstrap : (StartupCall → Bool) → Fate StartupCall (Unit {0}) × Startup
bootstrap fails = caught fails (start fails before_start)

-- `main`: the exit code of a start that failed, or 0 for a process that goes on
unfoldable pub exit_code : (StartupCall → Bool) → ℕ
exit_code fails = elim (bootstrap fails).0 [ finished _ ↦ 0 | failed_with e ↦ 1 ]
