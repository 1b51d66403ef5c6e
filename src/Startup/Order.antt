-- ===== src/Startup/Order.antt =====
-- What a start does, read off the list of its calls: the calls in their order, the first of them that
-- fails, and what is left then.
use cinema_loyalty_service.Prelude.{
  ◌&&◌, Bool, true, false, Option, none, some, List, [], ◌∷◌, ◌++◌, if◌then◌else◌,
}
use cinema_loyalty_service.Effects.{Fate, finished, failed_with}
use cinema_loyalty_service.Startup.{
  Stage, dependency_creation, asset_validation, application_initialization, microservice_startup,
  http_startup, StartupCall, create_app, get_app_config, get_frontend_url, configure_http,
  find_proto, connect_grpc, get_prefetch, connect_rmq, init_app, start_microservices, listen_http,
  close_app, failed_during, cleanup_failed, Startup,
}

-- the calls of a start, in their order
abbrev pub startup_order : List StartupCall
startup_order =
    create_app ∷ get_app_config ∷ get_frontend_url ∷ configure_http ∷ find_proto ∷ connect_grpc
    ∷ get_prefetch ∷ connect_rmq ∷ init_app ∷ start_microservices ∷ listen_http ∷ []

abbrev pub phase_of : StartupCall → Stage
phase_of find_proto = asset_validation
phase_of connect_grpc = asset_validation
phase_of get_prefetch = asset_validation
phase_of connect_rmq = asset_validation
phase_of init_app = application_initialization
phase_of start_microservices = microservice_startup
phase_of listen_http = http_startup
phase_of _ = dependency_creation

-- whether there is an application to close when a call fails
abbrev pub follows_create : StartupCall → Bool
follows_create create_app = false
follows_create _ = true

unfoldable pub first_failing : (StartupCall → Bool) → List StartupCall → Option StartupCall
first_failing fails [] = none
first_failing fails (c ∷ cs) = if fails c then some c else first_failing fails cs

-- the calls up to the first that fails, with it
unfoldable pub up_to : (StartupCall → Bool) → List StartupCall → List StartupCall
up_to fails [] = []
up_to fails (c ∷ cs) = c ∷ (if fails c then [] else up_to fails cs)

-- the process after a start
unfoldable pub described : (StartupCall → Bool) → Fate StartupCall (Unit {0}) × Startup
described fails = elim (first_failing fails startup_order) [
  | none ↦ (
    finished tt,
    record { has_app = true; stage = http_startup; calls = startup_order; reports = [] },
  )
  | some c ↦ (
    failed_with c,
    record {
      has_app = follows_create c;
      stage = phase_of c;
      calls = up_to fails startup_order ++ (if follows_create c then close_app ∷ [] else []);
      reports =
          failed_during (phase_of c)
          ∷ (if follows_create c && fails close_app then cleanup_failed ∷ [] else []);
    },
  )
]
