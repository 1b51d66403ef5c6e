-- ===== src/Tool/Exit.antt =====
-- What the exit code of the replay tool says.
use cinema_loyalty_service.Prelude.{
  ap, ◌∙◌, if◌then◌else◌, ◌≡◌, refl, Bool, true, false, not, ◌&&◌, ◌||◌, Option, none, some, ℕ,
  arith, is_some, Bool-cases, inl, inr,
}
use cinema_loyalty_service.Delivery.Replay.{Saved, ReplayCall, ReplayError, replay}
use cinema_loyalty_service.Effects.{Fate, finished, failed_with, ◌>>◌, try_finally, finally_with}
use cinema_loyalty_service.Tool.{
  Resource, application_context, database, broker_connection, confirm_channel, ToolError, Tool,
  ToolRun, run_replay, with_connection, replay_main, run_tool, has_arguments, acquire, release,
  argument_after, delivery_id_flag, replay_id_flag,
}

abbrev is_finished : {A : Type 0} → Fate ToolError A → Bool
is_finished (finished _) = true
is_finished (failed_with e) = false

-- the replay that a run asks for
abbrev pub call_of_run : ToolRun → ReplayCall
call_of_run run =
    run.call_of (argument_after delivery_id_flag run.args) (argument_after replay_id_flag run.args)

-- the run comes to its replay
unfoldable pub reaches_replay : ToolRun → Bool
reaches_replay run =
    has_arguments run.args
    && (not (run.opening_fails application_context || run.opening_fails database)
        && (run.has_rmq_url
            && (not (run.opening_fails broker_connection)
                && not (run.opening_fails confirm_channel))))

unfoldable pub releases_all : ToolRun → Bool
releases_all run =
    not (run.closing_fails confirm_channel)
    && (not (run.closing_fails broker_connection)
        && (not (run.closing_fails database) && not (run.closing_fails application_context)))

-- A body of which the message and the success are known.
abbrev Gives : Bool → Option Saved → Fate ToolError (Unit {0}) × Tool → Type 0
Gives b m x = (is_finished x.0 ≡ b) × (x.1.message ≡ m)

finally-Gives :
    (run : ToolRun) (r : Resource) (b : Bool) (m : Option Saved)
    (x : Fate ToolError (Unit {0}) × Tool)
    → Gives b m x
    → Gives (b && not (run.closing_fails r)) m (finally_with (release run r) x)
finally-Gives run r b m (f, s) (h, k) = released f h (run.closing_fails r) refl
  where
    released :
        (g : Fate ToolError (Unit {0}))
        → is_finished g ≡ b
        → (c : Bool) → run.closing_fails r ≡ c
        → Gives (b && not (run.closing_fails r)) m (finally_with (release run r) (g, s))
    released (finished u) h true e = rw (e, ← h) (refl, k)
    released (failed_with u) h true e = rw (e, ← h) (refl, k)
    released (finished u) h false e = rw (e, ← h) (refl, k)
    released (failed_with u) h false e = rw (e, ← h) (refl, k)

-- the message after its replay
abbrev pub replayed_message : ReplayCall → Saved → Saved
replayed_message c m = record m { delivery = (replay c m).row }

run_replay-Gives :
    (c : ReplayCall) (m : Saved) (s : Tool)
    → s.message ≡ some m
    → Gives (not (is_some (replay c m).error)) (some (replayed_message c m)) (run_replay c s)
unfolding run_replay
run_replay-Gives c m s h = answered (replay c m).error refl
  where
    answered :
        (e : Option ReplayError)
        → (replay c m).error ≡ e
        → Gives (not (is_some (replay c m).error)) (some (replayed_message c m)) (run_replay c s)
    answered none e = rw (h, run_replay, e) (refl, refl)
    answered (some x) e = rw (h, run_replay, e) (refl, refl)

with_channel-Gives :
    (run : ToolRun) (c : ReplayCall) (m : Saved) (s : Tool)
    → s.message ≡ some m
    → Gives
        (not (run.opening_fails confirm_channel)
          && (not (is_some (replay c m).error) && not (run.closing_fails confirm_channel)))
        (some (if not (run.opening_fails confirm_channel) then replayed_message c m else m))
        ((acquire run confirm_channel >> try_finally (run_replay c) (release run confirm_channel))
          s)
with_channel-Gives run c m s h = elim (Bool-cases (run.opening_fails confirm_channel)) [
  | inl fails ↦ rw fails (refl, h)
  | inr opens ↦ rw opens (finally-Gives run confirm_channel _ _ _ (run_replay-Gives c m _ h))
]

with_connection-Gives :
    (run : ToolRun) (c : ReplayCall) (m : Saved) (s : Tool)
    → s.message ≡ some m
    → Gives
        (run.has_rmq_url
          && (not (run.opening_fails broker_connection)
              && ((not (run.opening_fails confirm_channel)
                    && (not (is_some (replay c m).error)
                        && not (run.closing_fails confirm_channel)))
                  && not (run.closing_fails broker_connection))))
        (some (
          if run.has_rmq_url
            && (not (run.opening_fails broker_connection)
                && not (run.opening_fails confirm_channel))
          then replayed_message c m
          else m))
        (with_connection run c s)
unfolding with_connection
with_connection-Gives run c m s h = elim (Bool-cases run.has_rmq_url) [
  | inr no_url ↦ rw (no_url, with_connection) (refl, h)
  | inl known ↦ elim (Bool-cases (run.opening_fails broker_connection)) [
    | inl fails ↦ rw (known, with_connection) (rw fails (refl, h))
    | inr opens ↦
        rw (known, with_connection)
          (rw opens (finally-Gives run broker_connection _ _ _ (with_channel-Gives run c m _ h)))
  ]
]

shutdown-Gives :
    (run : ToolRun) (b : Bool) (m : Option Saved) (x : Fate ToolError (Unit {0}) × Tool)
    → Gives b m x
    → Gives
        (b && (not (run.closing_fails database) && not (run.closing_fails application_context)))
        m
        (finally_with (release run database >> release run application_context) x)
shutdown-Gives run b m (f, s) (h, k) =
    released f h (run.closing_fails database) refl (run.closing_fails application_context) refl
  where
    released :
        (g : Fate ToolError (Unit {0}))
        → is_finished g ≡ b
        → (c : Bool) → run.closing_fails database ≡ c
        → (d : Bool) → run.closing_fails application_context ≡ d
        → Gives
            (b && (not (run.closing_fails database) && not (run.closing_fails application_context)))
            m
            (finally_with (release run database >> release run application_context) (g, s))
    released (finished u) h true e d i = rw (e, ← h) (refl, k)
    released (failed_with u) h true e d i = rw (e, ← h) (refl, k)
    released (finished u) h false e true i = rw (e, i, ← h) (refl, k)
    released (failed_with u) h false e true i = rw (e, i, ← h) (refl, k)
    released (finished u) h false e false i = rw (e, i, ← h) (refl, k)
    released (failed_with u) h false e false i = rw (e, i, ← h) (refl, k)

code-finished :
    (f : Fate ToolError (Unit {0})) (b : Bool)
    → is_finished f ≡ b
    → (elim f as (λ x. ℕ) [ finished _ ↦ 0 | failed_with e ↦ 1 ]) ≡ (if b then 0 else 1)
code-finished (finished u) b h = rw (← h) refl
code-finished (failed_with e) b h = rw (← h) refl

-- the successes of the calls, put together
all_well :
    (u b c ok cc cb cd ca : Bool)
    → ((u && (b && ((c && (ok && cc)) && cb))) && (cd && ca))
      ≡ ((u && (b && c)) && (ok && (cc && (cb && (cd && ca)))))
all_well u b c ok cc cb cd ca = ground arith

-- For a message that exists: the exit code is 0 exactly if the arguments are complete, every call succeeded, the releases
-- included, and the replay ended without an error. The message is the one that the replay leaves if
-- the run came to it, and is not touched otherwise.
pub run_tool-exit :
    (run : ToolRun) (m : Saved)
    → ((run_tool run (some m)).0 ≡ (
        if reaches_replay run
          && (not (is_some (replay (call_of_run run) m).error) && releases_all run)
        then 0
        else 1))
      × ((run_tool run (some m)).1.message
          ≡ some (if reaches_replay run then replayed_message (call_of_run run) m else m))
unfolding run_tool replay_main reaches_replay releases_all
run_tool-exit run m = elim (Bool-cases (has_arguments run.args)) [
  | inr refused ↦ rw (refused, run_tool, replay_main, reaches_replay) (refl, refl)
  | inl fine ↦
      elim (Bool-cases (run.opening_fails application_context || run.opening_fails database)) [
        | inl fails ↦ rw (fine, fails, run_tool, replay_main, reaches_replay) (refl, refl)
        | inr opens ↦
            let (code, message) =
              shutdown-Gives run _ _ _ (with_connection-Gives run (call_of_run run) m _ refl) in
            rw (fine, opens, run_tool, replay_main, reaches_replay)
              (
                code-finished _ _ code
                    ∙ ap (λ w. if w then 0 else 1)
                        (all_well run.has_rmq_url (not (run.opening_fails broker_connection))
                          (not (run.opening_fails confirm_channel))
                          (not (is_some (replay (call_of_run run) m).error))
                          (not (run.closing_fails confirm_channel))
                          (not (run.closing_fails broker_connection))
                          (not (run.closing_fails database))
                          (not (run.closing_fails application_context))),
                message,
              )
      ]
]
