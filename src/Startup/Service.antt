-- ===== src/Startup/Service.antt =====
-- `windows_service_runner` of crates/oxid-relay/src/main.rs: the relay under the Windows service
-- control manager, on the controls that have come so far.
pub mod Course
use mathlib.Core.Option.{get_or}
use oxid_relay.Prelude.{ℕ, Bool, true, false, Option, none, some, List, [], ◌∷◌, any, if◌then◌else◌}
use oxid_relay.Prelude.Text.{Text, codes}
use oxid_relay.Prelude.Result.{Result, ok, err}
use oxid_relay.Queue.Sqlite.{Moment}
use oxid_relay.Queue.Sqlite.Open.{Database}
use oxid_relay.Startup.Relay.{StartError, System, Started, run_relay}

-- `ServiceControl`, with the controls that the code does not name in one.
pub data ServiceControl : Type 0 where
  stop shutdown interrogate : ServiceControl
  other : ℕ → ServiceControl

-- `ServiceControlHandlerResult`
pub data HandlerResult : Type 0 where
  no_error not_implemented : HandlerResult

-- The closure `event_handler`: the answer, and whether it sends on the channel `shutdown_tx`.
unfoldable pub event_handler : ServiceControl → HandlerResult × Bool
event_handler stop = (no_error, true)
event_handler shutdown = (no_error, true)
event_handler interrogate = (no_error, false)
event_handler (other n) = (not_implemented, false)

-- `shutdown_rx.recv()` has returned.
unfoldable pub is_shut_down : List ServiceControl → Bool
unfolding event_handler
is_shut_down controls = any (λ c. (event_handler c).1) controls

-- `ServiceState`, as far as it is used.
pub data ServiceState : Type 0 where
  running stopped : ServiceState

-- `ServiceStatus`; the type of the service is always that of a process of its own.
pub record ServiceStatus : Type 0 where
  pub current_state : ServiceState
  pub controls_accepted : List ServiceControl
  pub exit_code : ℕ
  pub checkpoint : ℕ
  pub wait_hint : ℕ
  pub process_id : Option ℕ

unfoldable pub status : ServiceState → List ServiceControl → ServiceStatus
status state controls = record {
  current_state = state;
  controls_accepted = controls;
  exit_code = 0;
  checkpoint = 0;
  wait_hint = 0;
  process_id = none;
}

-- The two statuses that the service reports.
abbrev pub running_status : ServiceStatus
running_status = status running (stop ∷ shutdown ∷ [])

abbrev pub stopped_status : ServiceStatus
stopped_status = status stopped []

-- What it takes from the service control manager and from tokio; errors are texts.
pub record Manager : Type 0 where
  pub register : Result (Unit {0}) Text
  pub set_service_status : ServiceStatus → Result (Unit {0}) Text
  pub build_runtime : Result (Unit {0}) Text

pub data ServiceError : Type 0 where
  register_error status_error runtime_error : Text → ServiceError
  relay_error : StartError → ServiceError

-- The statuses that it has reported, accepted or not, and its result once it has one.
pub record Service : Type 0 where
  pub reported : List ServiceStatus
  pub ended : Option (Result (Unit {0}) ServiceError)

-- The result of `run_relay`: that of the start, or, when it is told to stop, of the dispatcher's run.
unfoldable pub relay_result :
    {F W : Type 0}
    → Bool
    → Result (Started F W) StartError
    → Option (Result (Unit {0}) ServiceError)
relay_result told (err x) = some (err (relay_error x))
relay_result told (ok d) = if told then some (ok tt) else none

-- After `block_on`: the second status, whose result is dropped, is reported when the relay has ended.
abbrev pub reported_after : Option (Result (Unit {0}) ServiceError) → Service
reported_after none = record { reported = running_status ∷ []; ended = none }
reported_after (some r) = record { reported = running_status ∷ stopped_status ∷ []; ended = some r }

-- `CONFIG_PATH`, or the default.
abbrev pub service_path : Option Text → Text
service_path config_path = get_or config_path (codes "config.toml")

module _ {Builder Mailbox Letter V A E J Options F Filter W : Type 0}
    (sys : System Builder Mailbox Letter V A E J Options F Filter W) (manager : Manager) where
  unfoldable pub run_service : Option Text → List ServiceControl → Moment → Database → Service
  unfolding relay_result
  run_service config_path controls e db = elim manager.register [
    | err x ↦ record { reported = []; ended = some (err (register_error x)) }
    | ok _ ↦ elim (manager.set_service_status running_status) [
      | err x ↦ record { reported = running_status ∷ []; ended = some (err (status_error x)) }
      | ok _ ↦ elim manager.build_runtime [
        | err x ↦ record { reported = running_status ∷ []; ended = some (err (runtime_error x)) }
        | ok _ ↦
            reported_after (
              relay_result (is_shut_down controls)
                (run_relay sys (service_path config_path) e db).0)
      ]
    ]
  ]
