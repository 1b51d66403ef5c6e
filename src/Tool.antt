-- ===== src/Tool.antt =====
-- The command that replays a quarantined message (src/tools/replay-quarantine.ts). `ToolRun` is what
-- one run meets: its arguments, which calls of the libraries fail, and what the replay meets.
-- `NestFactory.createApplicationContext` connects the database (src/prisma/prisma.service.ts). The
-- log lines are left out.
pub mod Release
pub mod Exit
use cinema_loyalty_service.Prelude.{
  Text, text_eq, ℕ, zero, suc, Bool, true, false, not, ◌&&◌, ◌||◌, Option, none, some, List, [],
  ◌∷◌, if◌then◌else◌,
}
use cinema_loyalty_service.Delivery.Replay.{
  ReplayError, invalid_replay_id, replay_record_missing, Saved, ReplayCall, Replayed, replay,
}
use cinema_loyalty_service.Effects.{
  Fate, finished, failed_with, Io, ◌>>=◌, ◌>>◌, fail, attempt, attempt_anyway, try_finally,
}

pub data Resource : Type 0 where
  application_context database broker_connection confirm_channel : Resource

-- a resource that was opened, or whose release was called
pub data ToolEvent : Type 0 where
  opened closed : Resource → ToolEvent

pub data ToolError : Type 0 where
  replay_requires rmq_url_missing : ToolError
  opening_failed closing_failed : Resource → ToolError
  replay_failed : ReplayError → ToolError

-- the resources of a run, the last event first, and the message that its id names
pub record Tool : Type 0 where
  pub events : List ToolEvent
  pub message : Option Saved

pub record ToolRun : Type 0 where
  pub args : List Text
  pub opening_fails : Resource → Bool
  pub closing_fails : Resource → Bool
  pub has_rmq_url : Bool
  pub call_of : Text → Text → ReplayCall

-- '--consumers-stopped', '--delivery-id' and '--replay-id'
abbrev pub consumers_stopped_flag : Text
consumers_stopped_flag =
    b'-' ∷ b'-' ∷ b'c' ∷ b'o' ∷ b'n' ∷ b's' ∷ b'u' ∷ b'm' ∷ b'e' ∷ b'r' ∷ b's' ∷ b'-' ∷ b's' ∷ b't'
    ∷ b'o' ∷ b'p' ∷ b'p' ∷ b'e' ∷ b'd' ∷ []

abbrev pub delivery_id_flag : Text
delivery_id_flag =
    b'-' ∷ b'-' ∷ b'd' ∷ b'e' ∷ b'l' ∷ b'i' ∷ b'v' ∷ b'e' ∷ b'r' ∷ b'y' ∷ b'-' ∷ b'i' ∷ b'd' ∷ []

abbrev pub replay_id_flag : Text
replay_id_flag = b'-' ∷ b'-' ∷ b'r' ∷ b'e' ∷ b'p' ∷ b'l' ∷ b'a' ∷ b'y' ∷ b'-' ∷ b'i' ∷ b'd' ∷ []

-- `args.includes`
unfoldable pub includes : Text → List Text → Bool
includes flag [] = false
includes flag (a ∷ args) = text_eq a flag || includes flag args

-- `args.indexOf(flag) + 1`, which is 0 for a flag that is not there
unfoldable pub index_after : Text → List Text → ℕ
index_after flag args = elim (index flag args) [ none ↦ 0 | some n ↦ suc n ]
  where
    index : Text → List Text → Option ℕ
    index flag [] = none
    index flag (a ∷ args) =
        let rest = index flag args in
        if text_eq a flag then some 0 else elim rest [ none ↦ none | some n ↦ some (suc n) ]

-- an element, or the empty text for `undefined`, which the tool refuses alike
unfoldable pub argument_at : ℕ → List Text → Text
argument_at n [] = []
argument_at zero (a ∷ args) = a
argument_at (suc n) (a ∷ args) = argument_at n args

abbrev pub argument_after : Text → List Text → Text
argument_after flag args = argument_at (index_after flag args) args

-- the arguments that the tool runs with
unfoldable pub has_arguments : List Text → Bool
has_arguments args =
    includes consumers_stopped_flag args
    && (includes delivery_id_flag args
        && (includes replay_id_flag args
            && (not (text_eq (argument_after delivery_id_flag args) [])
                && not (text_eq (argument_after replay_id_flag args) []))))

abbrev mark : ToolEvent → Tool → Tool
mark e s = record s { events = e ∷ s.events }

abbrev pub acquire : ToolRun → Resource → Io Tool ToolError (Unit {0})
acquire run r = attempt (run.opening_fails r) (opening_failed r) (mark (opened r))

abbrev pub release : ToolRun → Resource → Io Tool ToolError (Unit {0})
release run r = attempt_anyway (run.closing_fails r) (closing_failed r) (mark (closed r))

-- `NestFactory.createApplicationContext`, which fails as a whole
abbrev create_context : ToolRun → Io Tool ToolError (Unit {0})
create_context run =
    attempt (run.opening_fails application_context || run.opening_fails database)
      (opening_failed application_context)
      (λ s. mark (opened database) (mark (opened application_context) s))

abbrev fate_of : Option ReplayError → Fate ToolError (Unit {0})
fate_of none = finished tt
fate_of (some e) = failed_with (replay_failed e)

-- the call of `QuarantineReplayService.replay`, with its lookup of the message
unfoldable pub run_replay : ReplayCall → Io Tool ToolError (Unit {0})
run_replay c s = elim s.message [
  | none ↦
      fail
        (replay_failed (
          if not (c.is_delivery_id && c.is_replay_uuid)
          then invalid_replay_id
          else replay_record_missing))
        s
  | some m ↦
      let x = replay c m in
      (fate_of x.error, record s { message = some (record m { delivery = x.row }) })
]

-- the inner `try` statements
unfoldable pub with_connection : ToolRun → ReplayCall → Io Tool ToolError (Unit {0})
with_connection run c = do
  attempt (not run.has_rmq_url) rmq_url_missing (λ s. s)
  acquire run broker_connection
  try_finally
      (acquire run confirm_channel >> try_finally (run_replay c) (release run confirm_channel))
      (release run broker_connection)

-- `main`
unfoldable pub replay_main : ToolRun → Io Tool ToolError (Unit {0})
replay_main run =
    if not (has_arguments run.args)
    then fail replay_requires
    else (create_context run
        >> try_finally
            (with_connection run (
              run.call_of (argument_after delivery_id_flag run.args)
                (argument_after replay_id_flag run.args)))
            (release run database >> release run application_context))

-- `main().catch`: the exit code of the process, and what the run leaves
unfoldable pub run_tool : ToolRun → Option Saved → ℕ × Tool
run_tool run m =
    let (r, s) = replay_main run (record { events = []; message = m }) in
    (elim r [ finished _ ↦ 0 | failed_with e ↦ 1 ], s)
