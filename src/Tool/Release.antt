-- ===== src/Tool/Release.antt =====
-- What a run of the replay tool releases, and what its exit code says.
use cinema_loyalty_service.Prelude.{
  not, ◌&&◌, ◌||◌, refl, inl, inr, Bool-cases, if◌then◌else◌, ◌≡◌, Bool, true, false, Option, none,
  some, List, [], ◌∷◌, arith,
}
use cinema_loyalty_service.Delivery.Replay.{Saved, ReplayCall}
use cinema_loyalty_service.Effects.{Fate, Io, ◌>>◌, finally_with, try_finally}
use cinema_loyalty_service.Tool.{
  has_arguments, replay_main, run_tool, ToolError, acquire, release, Resource, application_context,
  database, broker_connection, confirm_channel, ToolEvent, opened, closed, Tool, ToolRun,
  run_replay, with_connection,
}

unfoldable pub same_resource : Resource → Resource → Bool
same_resource application_context application_context = true
same_resource database database = true
same_resource broker_connection broker_connection = true
same_resource confirm_channel confirm_channel = true
same_resource _ _ = false

-- The resources that are still open, the last one first; none when a resource was released that was
-- not the last one opened.
unfoldable pub held : List ToolEvent → Option (List Resource)
held [] = some []
held (opened r ∷ es) = elim (held es) [ none ↦ none | some rs ↦ some (r ∷ rs) ]
held (closed r ∷ es) = elim (held es) [
  | none ↦ none
  | some rs ↦ elim rs [ [] ↦ none | q ∷ qs ↦ if same_resource q r then some qs else none ]
]

run_replay-events : (c : ReplayCall) (s : Tool) → (run_replay c s).1.events ≡ s.events
unfolding run_replay
run_replay-events c s = ground arith

same_resource_refl : (r : Resource) → same_resource r r ≡ true
unfolding same_resource
same_resource_refl application_context = refl
same_resource_refl database = refl
same_resource_refl broker_connection = refl
same_resource_refl confirm_channel = refl

held-closed :
    (r : Resource) (es : List ToolEvent) (rs : List Resource)
    → held es ≡ some (r ∷ rs)
    → held (closed r ∷ es) ≡ some rs
unfolding held
held-closed r es rs h = rw (h, same_resource_refl r) refl

-- the release of a resource, whether it fails or not
finally-held :
    (run : ToolRun) (r : Resource) (rs : List Resource) (x : Fate ToolError (Unit {0}) × Tool)
    → held x.1.events ≡ some (r ∷ rs)
    → held (finally_with (release run r) x).1.events ≡ some rs
finally-held run r rs (f, s) h = released (run.closing_fails r) refl
  where
    released :
        (b : Bool)
        → run.closing_fails r ≡ b
        → held (finally_with (release run r) (f, s)).1.events ≡ some rs
    released true e = rw e (held-closed r s.events rs h)
    released false e = rw e (held-closed r s.events rs h)

-- A resource that is opened before a `try` and released in its `finally` is no longer held.
bracketed :
    (run : ToolRun) (r : Resource) (rs : List Resource) (body : Io Tool ToolError (Unit {0}))
    → ((s : Tool) → held s.events ≡ some (r ∷ rs) → held (body s).1.events ≡ some (r ∷ rs))
    → (s : Tool) → held s.events ≡ some rs
    → held ((acquire run r >> try_finally body (release run r)) s).1.events ≡ some rs
unfolding held
bracketed run r rs body keeps s h = elim (Bool-cases (run.opening_fails r)) [
  | inl fails ↦ rw fails h
  | inr opens ↦ rw opens (finally-held run r rs _ (keeps _ (rw h refl)))
]

with_connection-held :
    (run : ToolRun) (c : ReplayCall) (s : Tool) (rs : List Resource)
    → held s.events ≡ some rs
    → held (with_connection run c s).1.events ≡ some rs
unfolding with_connection
with_connection-held run c s rs h = elim (Bool-cases run.has_rmq_url) [
  | inr no_url ↦ rw (no_url, with_connection) h
  | inl known ↦
      rw (known, with_connection)
        (bracketed run broker_connection rs _
          (bracketed run confirm_channel (broker_connection ∷ rs) _
            (λ t k. rw (run_replay-events c t) k))
          s h)
]

shutdown-held :
    (run : ToolRun) (x : Fate ToolError (Unit {0}) × Tool)
    → held x.1.events ≡ some (database ∷ application_context ∷ [])
    → held (finally_with (release run database >> release run application_context) x).1.events
      ≡ some (if run.closing_fails database then application_context ∷ [] else [])
shutdown-held run (f, s) h =
    released (run.closing_fails database) refl (run.closing_fails application_context) refl
  where
    freed : held (closed database ∷ s.events) ≡ some (application_context ∷ [])
    freed = held-closed database s.events (application_context ∷ []) h

    released :
        (b : Bool)
        → run.closing_fails database ≡ b
        → (a : Bool) → run.closing_fails application_context ≡ a
        → held
            (finally_with (release run database >> release run application_context) (f, s)).1.events
          ≡ some (if run.closing_fails database then application_context ∷ [] else [])
    released true e a k = rw e freed
    released false e true k =
        rw (e, k) (held-closed application_context (closed database ∷ s.events) [] freed)
    released false e false k =
        rw (e, k) (held-closed application_context (closed database ∷ s.events) [] freed)

-- Every resource that a run opens, it releases: whatever fails, none is held at the end, the last one
-- opened being released first. Only the application context is left when the release of the database
-- fails, which stands before its own.
pub run_tool-released :
    (run : ToolRun) (m : Option Saved)
    → held (run_tool run m).1.events
      ≡ some (
          if has_arguments run.args
            && not (run.opening_fails application_context || run.opening_fails database)
            && run.closing_fails database
          then application_context ∷ []
          else [])
unfolding run_tool replay_main held
run_tool-released run m = elim (Bool-cases (has_arguments run.args)) [
  | inr refused ↦ rw (refused, run_tool, replay_main) refl
  | inl fine ↦
      elim (Bool-cases (run.opening_fails application_context || run.opening_fails database)) [
        | inl fails ↦ rw (fine, fails, run_tool, replay_main) refl
        | inr opens ↦
            rw (fine, opens, run_tool, replay_main)
              (shutdown-held run _
                (with_connection-held run _ _ (database ∷ application_context ∷ []) refl))
      ]
]
