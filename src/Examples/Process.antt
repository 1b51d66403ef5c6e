-- ===== src/Examples/Process.antt =====
-- The properties of the replay tool and of the start of the process at concrete inputs.
use cinema_loyalty_service.Prelude.{text_eq, ◌≡◌, refl, Bool, true, false, some, [], ◌∷◌}
use cinema_loyalty_service.Delivery.{reset_for_replay}
use cinema_loyalty_service.Delivery.Replay.{
  publish_confirmed, replay, replay_saved, reset_and_publish, publish_replay, on_events, on_event,
  ReplayCall, confirmed,
}
use cinema_loyalty_service.Effects.{failed_with}
use cinema_loyalty_service.Examples.Catalogues.{word}
use cinema_loyalty_service.Examples.Publications.{saved_message, call}
use cinema_loyalty_service.Startup.{
  StartupCall, init_app, application_initialization, failed_during, bootstrap,
}
use cinema_loyalty_service.Startup.Order.{described, first_failing}
use cinema_loyalty_service.Startup.Phases.{bootstrap-described}
use cinema_loyalty_service.Tool.{
  includes, index_after, argument_at, has_arguments, Resource, application_context, database,
  ToolRun, run_tool, consumers_stopped_flag, delivery_id_flag, replay_id_flag,
}
use cinema_loyalty_service.Tool.Exit.{run_tool-exit, reaches_replay, releases_all, replayed_message}
use cinema_loyalty_service.Tool.Release.{held, run_tool-released}

-- the message is confirmed
abbrev good_call : ReplayCall
good_call = record call { events = confirmed ∷ [] }

abbrev is_database : Resource → Bool
is_database database = true
is_database _ = false

abbrev good_run : ToolRun
good_run = record {
  args = consumers_stopped_flag ∷ delivery_id_flag ∷ word ∷ replay_id_flag ∷ word ∷ [];
  opening_fails = λ r. false;
  closing_fails = λ r. false;
  has_rmq_url = true;
  call_of = λ i r. good_call;
}

run_tool-exit_example :
    ((run_tool good_run (some saved_message)).0 ≡ 0)
    × ((run_tool good_run (some saved_message)).1.message
        ≡ some (replayed_message good_call saved_message))
unfolding has_arguments includes text_eq argument_at index_after reaches_replay releases_all replay
    replay_saved reset_and_publish reset_for_replay publish_replay publish_confirmed on_events
    on_event
run_tool-exit_example = run_tool-exit good_run saved_message

-- The release of the database fails.
abbrev leaking_run : ToolRun
leaking_run = record good_run { closing_fails = is_database }

run_tool-released_example :
    held (run_tool leaking_run (some saved_message)).1.events ≡ some (application_context ∷ [])
unfolding has_arguments includes text_eq argument_at index_after
run_tool-released_example = run_tool-released leaking_run (some saved_message)

-- The initialization fails.
abbrev init_fails : StartupCall → Bool
init_fails init_app = true
init_fails _ = false

bootstrap-described_example : bootstrap init_fails ≡ described init_fails
bootstrap-described_example = bootstrap-described init_fails

-- what that start is
closes :
    ((described init_fails).0 ≡ failed_with init_app)
    × ((described init_fails).1.reports ≡ failed_during application_initialization ∷ [])
unfolding described first_failing
closes = (refl, refl)
