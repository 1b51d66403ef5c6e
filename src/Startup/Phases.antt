-- ===== src/Startup/Phases.antt =====
-- What a start does until a call of it fails, and what it does then.
use mathlib.Core.List.{append-nil, append_assoc}
use cinema_loyalty_service.Prelude.{
  ap, ◌∙◌, ◌&&◌, ◌≡◌, refl, Bool, true, false, none, some, List, [], ◌∷◌, ◌++◌, if◌then◌else◌,
  Bool-cases, Option-cases, inl, inr,
}
use cinema_loyalty_service.Effects.{finished, failed_with, Io, ◌>>◌}
use cinema_loyalty_service.Startup.{
  Stage, dependency_creation, asset_validation, application_initialization, microservice_startup,
  http_startup, StartupCall, create_app, get_app_config, get_frontend_url, configure_http,
  find_proto, connect_grpc, get_prefetch, connect_rmq, init_app, start_microservices, listen_http,
  close_app, failed_during, cleanup_failed, Startup, call, set_app, set_stage, stop, start, caught,
  before_start, bootstrap,
}
use cinema_loyalty_service.Startup.Order.{
  startup_order, phase_of, follows_create, first_failing, up_to, described,
}

-- the statements of the `try`, as data
data Statement : Type 0 where
  calling : StartupCall → Statement
  app_set : Statement
  phase : Stage → Statement

run_plan : (StartupCall → Bool) → List Statement → Io Startup StartupCall (Unit {0})
run_plan fails [] = stop
run_plan fails (calling c ∷ p) = call fails c >> run_plan fails p
run_plan fails (app_set ∷ p) = set_app >> run_plan fails p
run_plan fails (phase st ∷ p) = set_stage st >> run_plan fails p

abbrev plan : List Statement
plan =
    calling create_app
    ∷ app_set
    ∷ calling get_app_config
    ∷ calling get_frontend_url
    ∷ calling configure_http
    ∷ phase asset_validation
    ∷ calling find_proto
    ∷ calling connect_grpc
    ∷ calling get_prefetch
    ∷ calling connect_rmq
    ∷ phase application_initialization
    ∷ calling init_app
    ∷ phase microservice_startup
    ∷ calling start_microservices
    ∷ phase http_startup
    ∷ calling listen_http
    ∷ []

start-plan : (fails : StartupCall → Bool) (s : Startup) → start fails s ≡ run_plan fails plan s
unfolding start run_plan
start-plan fails s = refl

abbrev calls_of : List Statement → List StartupCall
calls_of [] = []
calls_of (calling c ∷ p) = c ∷ calls_of p
calls_of (app_set ∷ p) = calls_of p
calls_of (phase st ∷ p) = calls_of p

-- every call stands where the variables have its values
IsPlaced : List Statement → Bool → Stage → Type 0
IsPlaced [] b st = Unit
IsPlaced (calling c ∷ p) b st = (phase_of c ≡ st) × (follows_create c ≡ b) × IsPlaced p b st
IsPlaced (app_set ∷ p) b st = IsPlaced p true st
IsPlaced (phase t ∷ p) b st = IsPlaced p b t

-- the variables when a call has failed
abbrev stopped : StartupCall → (StartupCall → Bool) → List Statement → Startup → Startup
stopped c fails p s = record {
  has_app = follows_create c;
  stage = phase_of c;
  calls = s.calls ++ up_to fails (calls_of p);
  reports = s.reports;
}

run_plan-fails :
    (fails : StartupCall → Bool) (c : StartupCall) (p : List Statement) (s : Startup)
    → IsPlaced p s.has_app s.stage
    → first_failing fails (calls_of p) ≡ some c
    → run_plan fails p s ≡ (failed_with c, stopped c fails p s)
unfolding run_plan first_failing up_to IsPlaced
run_plan-fails fails c [] s placed h = cc
run_plan-fails fails c (app_set ∷ p) s placed h =
    run_plan-fails fails c p (record s { has_app = true }) placed h
run_plan-fails fails c (phase st ∷ p) s placed h =
    run_plan-fails fails c p (record s { stage = st }) placed h
run_plan-fails fails c (calling e ∷ p) s (here, app, placed) h = elim (Bool-cases (fails e)) [
  | inl bad ↦
      let h' = rw (bad, first_failing) at h in
      let same : c ≡ e = cc in rw (same, bad, here, app) refl
  | inr good ↦ rw good (
      run_plan-fails fails c p (record s { calls = s.calls ++ (e ∷ []) }) placed
        (rw (good, first_failing) at h)
      ∙ ap
          (λ l. (
            failed_with c,
            record {
              has_app = follows_create c;
              stage = phase_of c;
              calls = l;
              reports = s.reports;
            },
          ))
          (append_assoc s.calls (e ∷ []) (up_to fails (calls_of p))))
]

-- the variables when no call has failed
abbrev finish : List Statement → Startup → Startup
finish [] s = s
finish (calling c ∷ p) s = finish p (record s { calls = s.calls ++ (c ∷ []) })
finish (app_set ∷ p) s = finish p (record s { has_app = true })
finish (phase st ∷ p) s = finish p (record s { stage = st })

run_plan-finishes :
    (fails : StartupCall → Bool) (p : List Statement) (s : Startup)
    → first_failing fails (calls_of p) ≡ none
    → run_plan fails p s ≡ (finished tt, finish p s)
unfolding run_plan first_failing
run_plan-finishes fails [] s h = refl
run_plan-finishes fails (app_set ∷ p) s h =
    run_plan-finishes fails p (record s { has_app = true }) h
run_plan-finishes fails (phase st ∷ p) s h = run_plan-finishes fails p (record s { stage = st }) h
run_plan-finishes fails (calling e ∷ p) s h = elim (Bool-cases (fails e)) [
  | inl bad ↦ let h' = rw (bad, first_failing) at h in cc
  | inr good ↦ rw good (
      run_plan-finishes fails p (record s { calls = s.calls ++ (e ∷ []) })
        (rw (good, first_failing) at h))
]

plan-IsPlaced : IsPlaced plan false dependency_creation
unfolding IsPlaced
plan-IsPlaced = (
  refl,
  refl,
  (
    refl,
    refl,
    (
      refl,
      refl,
      (
        refl,
        refl,
        (
          refl,
          refl,
          (refl, refl, (refl, refl, (refl, refl, (refl, refl, (refl, refl, (refl, refl, tt)))))),
        ),
      ),
    ),
  ),
)

caught-stopped :
    (fails : StartupCall → Bool) (c : StartupCall) (cs : List StartupCall)
    → caught fails (
      failed_with c,
      record { has_app = follows_create c; stage = phase_of c; calls = cs; reports = [] },
    )
      ≡ (
        failed_with c,
        record {
          has_app = follows_create c;
          stage = phase_of c;
          calls = cs ++ (if follows_create c then close_app ∷ [] else []);
          reports =
              failed_during (phase_of c)
              ∷ (if follows_create c && fails close_app then cleanup_failed ∷ [] else []);
        },
      )
caught-stopped fails c cs = elim (Bool-cases (follows_create c)) [
  | inr early ↦ rw (early, append-nil cs) refl
  | inl late ↦ elim (Bool-cases (fails close_app)) [
    | inl bad ↦ rw (late, bad) refl
    | inr good ↦ rw (late, good) refl
  ]
]

-- A start is what its calls make it: it makes them in one fixed order up to the first that fails. If
-- none fails, it ends without a report and closes nothing. If one fails, the start reports the phase
-- of that call, closes the application as its last call if it was created, reports once more if that
-- fails, and throws the error of the first call that failed.
pub bootstrap-described : (fails : StartupCall → Bool) → bootstrap fails ≡ described fails
unfolding bootstrap described
bootstrap-described fails = elim (Option-cases (first_failing fails startup_order)) [
  | inl well ↦
      rw (well, described)
        (ap (caught fails)
          (start-plan fails before_start ∙ run_plan-finishes fails plan before_start well))
  | inr (c, bad) ↦
      rw (bad, described)
        (ap (caught fails) (
            start-plan fails before_start
            ∙ run_plan-fails fails c plan before_start plan-IsPlaced bad)
          ∙ caught-stopped fails c (up_to fails startup_order))
]
