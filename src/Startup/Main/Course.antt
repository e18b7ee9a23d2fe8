-- ===== src/Startup/Main/Course.antt =====
-- How the process of crates/oxid-relay/src/main.rs ends, by what it was started with.
use oxid_relay.Prelude.{◌≡◌, true, false, Option, none, some, List}
use oxid_relay.Prelude.Text.{Text, codes}
use oxid_relay.Prelude.Result.{Result, ok, err}
use oxid_relay.Config.{Environment}
use oxid_relay.Plugin.Loader.{is_windows}
use oxid_relay.Queue.Sqlite.{Moment}
use oxid_relay.Queue.Sqlite.Open.{Database}
use oxid_relay.Startup.Relay.{StartError, System, Started}
use oxid_relay.Startup.Relay.Starts.{IsRunning, Stops}
use oxid_relay.Startup.Service.{
  ServiceControl, Manager, ServiceError, runtime_error, relay_error, run_service,
}
use oxid_relay.Startup.Foreground.{Signal, Signals, Signalled}
use oxid_relay.Startup.Main.{
  Arguments, config_variable, config_path, MainError, usage_error, dispatcher_error, run_error,
  loaded,
}

-- Where the path of the configuration comes from.
pub data Origin (env : Environment) (args : Arguments) : Text → Type 0 where
  given : (path : Text) → args.config ≡ some path → Origin env args path
  named :
      (path : Text) → args.config ≡ none → env config_variable ≡ some path → Origin env args path
  usual : args.config ≡ none → env config_variable ≡ none → Origin env args (codes "config.toml")

module _ {Builder Mailbox Letter V A E J Options F Filter W : Type 0}
    (sys : System Builder Mailbox Letter V A E J Options F Filter W) (manager : Manager)
    (signals : Signals) (dotenv : Result Environment Text)
    (start_dispatcher : Result (Unit {0}) Text) (args : Arguments) (controls : List ServiceControl)
    (seen : List Signal) (e : Moment) (db : Database) where
  abbrev system : System Builder Mailbox Letter V A E J Options F Filter W
  system = loaded sys manager signals dotenv start_dispatcher

  -- The flag is given, on Windows.
  abbrev pub IsService : Type 0
  IsService = (args.service ≡ true) × (is_windows sys.disk.platform ≡ true)

  pub data Course : Option (Result (Unit {0}) MainError) → Type 0 where
    refused :
        args.service ≡ true → is_windows sys.disk.platform ≡ false → Course (some (err usage_error))
    undispatched :
        (x : Text) → IsService → start_dispatcher ≡ err x → Course (some (err (dispatcher_error x)))
    served :
        (path : Text) (r : Result (Unit {0}) ServiceError)
        → IsService
        → start_dispatcher ≡ ok tt
        → Origin system.env args path
        → (run_service system manager (some path) controls e db).ended ≡ some r
        → Course (some (ok tt))
    serving :
        (path : Text)
        → IsService
        → start_dispatcher ≡ ok tt
        → Origin system.env args path
        → (run_service system manager (some path) controls e db).ended ≡ none
        → Course none
    unbuilt :
        (x : Text)
        → args.service ≡ false
        → manager.build_runtime ≡ err x
        → Course (some (err (run_error (runtime_error x))))
    unstarted :
        (path : Text) (x : StartError)
        → args.service ≡ false
        → manager.build_runtime ≡ ok tt
        → Origin system.env args path
        → Stops system path e db x
        → Course (some (err (run_error (relay_error x))))
    told :
        (path : Text) (d : Started F W)
        → args.service ≡ false
        → manager.build_runtime ≡ ok tt
        → Origin system.env args path
        → IsRunning system path d
        → Signalled signals seen
        → Course (some (ok tt))
    running :
        (path : Text) (d : Started F W)
        → args.service ≡ false
        → manager.build_runtime ≡ ok tt
        → Origin system.env args path
        → IsRunning system path d
        → (Signalled signals seen → ⊥)
        → Course none

  abbrev path : Text
  path = config_path system.env args
