-- ===== src/Examples/Running.antt =====
-- The start of the daemon on a database that does not have its table yet.
use oxid_relay.Prelude.{ℕ, ◌≡◌, ◌⊎◌, true, false, none, some, List, [], ◌∷◌}
use oxid_relay.Prelude.Text.{Text, codes}
use oxid_relay.Prelude.Result.{Result, ok, err}
use oxid_relay.Queue.Sqlite.Open.{rows_of}
use oxid_relay.Smtp.{Connector}
use oxid_relay.Startup.Relay.{System, Started, StartError, run_relay, acquired}
use oxid_relay.Startup.Relay.Starts.{IsRunning, Stops, run_relay-Starts}
use oxid_relay.Startup.Service.{Manager, ServiceControl, interrogate, other, stop, run_service}
use oxid_relay.Startup.Foreground.{Signals}
use oxid_relay.Startup.Main.{Arguments}
use oxid_relay.Startup.Main.Course as Main
use oxid_relay.Config.{Environment}
use oxid_relay.Startup.Service.Course.{Course, run_service-Course}
use oxid_relay.Examples.Dynamic.{Dynamic, rhai}
use oxid_relay.Examples.Formats.{codec}
use oxid_relay.Examples.Mailing.{lettre}
use oxid_relay.Examples.Plugins.{disk, parsers, runtime, http, json, no_env}
use oxid_relay.Examples.Starting.{read_config, toml}
use oxid_relay.Examples.Storage.{calm}

abbrev connector : Connector Text Text Text ℕ
connector = record {
  starttls_relay = λ host. ok host;
  port = λ b n. b;
  credentials = λ b user password. b;
  build = λ b. lettre;
}

-- The log's filters are texts, and the lock files are their paths.
abbrev system : System Text Text Text Dynamic Text Text Text Text Text Text ℕ
system = record {
  fs = read_config;
  toml = toml;
  env = no_env;
  debug_assertions = true;
  tracing = record {
    try_from_default_env = err (codes "not set");
    try_new = λ level. ok level;
    new = λ level. level;
    is_terminal = true;
    try_init = λ ansi filter. ok tt;
  };
  files = record { open_lock = λ path. ok path; try_lock = λ file. acquired };
  sqlx = record { from_str = λ url. ok url; connect_with = λ options. ok tt };
  codec = codec;
  connector = connector;
  disk = disk;
  parsers = parsers;
  rhai = rhai;
  runtime = runtime;
  http = http;
  json = json;
}

run_relay-Starts_example :
    ((d : Started Text ℕ) × (run_relay system (codes "config.toml") calm none
        ≡ (ok d, some (rows_of none)))
      × IsRunning system (codes "config.toml") d)
    ⊎ ((x : StartError) × (run_relay system (codes "config.toml") calm none ≡ (err x, none))
        × Stops system (codes "config.toml") calm none x)
run_relay-Starts_example = run_relay-Starts system (codes "config.toml") calm none

abbrev manager : Manager
manager = record { register = ok tt; set_service_status = λ s. ok tt; build_runtime = ok tt }

abbrev controls : List ServiceControl
controls = interrogate ∷ other 3 ∷ stop ∷ []

run_service-Course_example :
    Course system manager none controls calm none
      (run_service system manager none controls calm none)
run_service-Course_example = run_service-Course system manager none controls calm none

abbrev signals : Signals
signals = record { unix = true; terminations = ok tt; ctrl_c = ok tt }

abbrev dotenv : Result Environment Text
dotenv = err (codes "no file")

abbrev dispatched : Result (Unit {0}) Text
dispatched = ok tt

abbrev arguments : Arguments
arguments = record { config = some (codes "relay.toml"); service = false }
