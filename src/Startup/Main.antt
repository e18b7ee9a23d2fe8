-- ===== src/Startup/Main.antt =====
-- `main` of crates/oxid-relay/src/main.rs: the `.env` file, the command line, and the choice between
-- the Windows service and the foreground.
pub mod Course
use mathlib.Core.Option.{get_or}
use oxid_relay.Prelude.{Bool, not, ◌&&◌, Option, none, some, List, if◌then◌else◌}
use oxid_relay.Prelude.Text.{Text, codes}
use oxid_relay.Prelude.Result.{Result, ok, err}
use oxid_relay.Config.{Environment}
use oxid_relay.Plugin.Loader.{is_windows}
use oxid_relay.Queue.Sqlite.{Moment}
use oxid_relay.Queue.Sqlite.Open.{Database}
use oxid_relay.Startup.Relay.{System}
use oxid_relay.Startup.Service.{ServiceControl, Manager, ServiceError, run_service}
use oxid_relay.Startup.Foreground.{Signal, Signals, run_foreground}

-- The command line as it is given; the flag is known on Windows alone.
pub record Arguments : Type 0 where
  pub config : Option Text
  pub service : Bool

pub record Cli : Type 0 where
  pub config : Text
  pub service : Bool

abbrev pub config_variable : Text
config_variable = codes "OXID_RELAY_CONFIG"

-- From the command line, else from the variable, else the default.
abbrev pub config_path : Environment → Arguments → Text
config_path env args = get_or args.config (get_or (env config_variable) (codes "config.toml"))

-- Where the flag is not known, clap refuses it and ends the process.
unfoldable pub parse : Bool → Environment → Arguments → Option Cli
parse windows env args =
    if args.service && not windows
    then none
    else some (record { config = config_path env args; service = args.service })

-- The environment after `dotenvy::dotenv`, in a debug build and where there is a file.
unfoldable pub load_dotenv : Bool → Result Environment Text → Environment → Environment
load_dotenv debug_assertions dotenv env =
    if debug_assertions then elim dotenv [ ok loaded ↦ loaded | err x ↦ env ] else env

-- How `main` ends: refused by clap, with the error of the service dispatcher, or with the relay's.
pub data MainError : Type 0 where
  usage_error : MainError
  dispatcher_error : Text → MainError
  run_error : ServiceError → MainError

abbrev pub run_result :
    Option (Result (Unit {0}) ServiceError) → Option (Result (Unit {0}) MainError)
run_result none = none
run_result (some (ok u)) = some (ok u)
run_result (some (err x)) = some (err (run_error x))

-- `service_main` prints the error of the service and drops it.
abbrev pub service_result :
    Option (Result (Unit {0}) ServiceError) → Option (Result (Unit {0}) MainError)
service_result none = none
service_result (some r) = some (ok tt)

module _ {Builder Mailbox Letter V A E J Options F Filter W : Type 0}
    (sys : System Builder Mailbox Letter V A E J Options F Filter W) (manager : Manager)
    (signals : Signals) (dotenv : Result Environment Text)
    (start_dispatcher : Result (Unit {0}) Text) where
  -- The system with the environment that `load_dotenv` leaves.
  unfoldable pub loaded : System Builder Mailbox Letter V A E J Options F Filter W
  unfolding load_dotenv
  loaded = record sys { env = load_dotenv sys.debug_assertions dotenv sys.env }

  -- `windows_service_runner::run`
  unfoldable pub run :
      Text → List ServiceControl → Moment → Database → Option (Result (Unit {0}) MainError)
  unfolding loaded run_service
  run config_path controls e db = elim start_dispatcher [
    | err x ↦ some (err (dispatcher_error x))
    | ok _ ↦ service_result (run_service loaded manager (some config_path) controls e db).ended
  ]

  unfoldable pub main :
      Arguments
      → List ServiceControl
      → List Signal
      → Moment
      → Database
      → Option (Result (Unit {0}) MainError)
  unfolding parse run run_foreground
  main args controls seen e db = elim (parse (is_windows sys.disk.platform) loaded.env args) [
    | none ↦ some (err usage_error)
    | some cli ↦
        if cli.service
        then run cli.config controls e db
        else run_result (run_foreground loaded manager.build_runtime signals cli.config seen e db)
  ]
