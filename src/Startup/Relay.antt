-- ===== src/Startup/Relay.antt =====
-- `run_relay` of crates/oxid-relay/src/main.rs up to the dispatcher's run: the configuration, the log,
-- the lock, the queue and the dispatcher, in this order, and what stops the daemon from starting.
pub mod Starts
use oxid_relay.Prelude.{Bool, Option, none, some}
use oxid_relay.Prelude.Text.{Text}
use oxid_relay.Prelude.Result.{Result, ok, err}
use oxid_relay.Message.{CoreError}
use oxid_relay.Config.{Config, ConfigError, Environment, SmtpIngressConfig}
use oxid_relay.Config.Load.{ReadFile, TomlParser, load}
use oxid_relay.Dispatcher.{Inner}
use oxid_relay.Logging.{Tracing, init}
use oxid_relay.Plugin.Http.{HttpClient}
use oxid_relay.Plugin.Engine.{Rhai, Json}
use oxid_relay.Plugin.Loader.{Disk, Parsers, is_windows}
use oxid_relay.Plugin.Transport.{Runtime}
use oxid_relay.Queue.Instance.{State, sqlite_queue}
use oxid_relay.Queue.Row.{Codec, Row}
use oxid_relay.Queue.Sqlite.{Moment}
use oxid_relay.Queue.Sqlite.Open.{Sqlx, Database, connect}
use oxid_relay.Smtp.{Connector, new_smtp_transport}
use oxid_relay.Startup.{dispatcher, sqlite_url, lock_path}
use oxid_relay.Startup.Plugins.{build_plugin_transports}

-- Why the daemon does not start; of the errors of the system the text is kept.
pub data StartError : Type 0 where
  config_error : Text → ConfigError → StartError
  logging_error : Text → StartError
  lock_open lock_error : Text → Text → StartError
  already_running : Text → StartError
  queue_error : Text → CoreError → StartError

-- The answer of `FileExt::try_lock`.
pub data TryLock : Type 0 where
  acquired would_block : TryLock
  failed : Text → TryLock

-- What the lock takes from the standard library and from `fs4`; `F` is an open file.
pub record Files (F : Type 0) : Type 0 where
  pub open_lock : Text → Result F Text
  pub try_lock : F → TryLock

abbrev locked : {F : Type 0} → Text → F → TryLock → Result (Option F) StartError
locked path file acquired = ok (some file)
locked path file would_block = err (already_running path)
locked path file (failed e) = err (lock_error path e)

unfoldable pub acquire_instance_lock : {F : Type 0} → Files F → Text → Result (Option F) StartError
unfolding lock_path
acquire_instance_lock files database = elim (lock_path database) [
  | none ↦ ok none
  | some path ↦ elim (files.open_lock path) [
    | err e ↦ err (lock_open path e)
    | ok file ↦ locked path file (files.try_lock file)
  ]
]

-- What the daemon takes from the system and from the libraries.
pub record System (Builder Mailbox Letter V A E J Options F Filter W : Type 0) : Type 0 where
  pub fs : ReadFile
  pub toml : TomlParser
  pub env : Environment
  pub debug_assertions : Bool
  pub tracing : Tracing Filter
  pub files : Files F
  pub sqlx : Sqlx Options
  pub codec : Codec
  pub connector : Connector Builder Mailbox Letter W
  pub disk : Disk
  pub parsers : Parsers A
  pub rhai : Rhai V E
  pub runtime : Runtime V A E W
  pub http : HttpClient W
  pub json : Json V E J

-- The daemon before its dispatcher runs: the lock that it holds, the dispatcher, and the settings of
-- the ingress that it starts.
pub record Started (F W : Type 0) : Type 0 where
  pub lock : Option F
  pub inner : Inner (State Row) W
  pub ingress : Option SmtpIngressConfig

module _ {Builder Mailbox Letter V A E J Options F Filter W : Type 0}
    (sys : System Builder Mailbox Letter V A E J Options F Filter W) where
  unfoldable pub started : Config → Option F → Started F W
  unfolding dispatcher new_smtp_transport build_plugin_transports
  started config lock = record {
    lock = lock;
    inner = dispatcher (new_smtp_transport sys.connector sys.env) config (sqlite_queue sys.codec) (
        build_plugin_transports sys.disk sys.parsers sys.rhai sys.runtime sys.env config sys.http
          sys.json sys.debug_assertions);
    ingress = config.ingress.smtp;
  }

  -- With the queue that was opened, or not.
  abbrev pub with_queue :
      Config
      → Option F
      → Result (Unit {0}) CoreError × Database
      → Result (Started F W) StartError × Database
  with_queue config lock (err x, db) = (err (queue_error (sqlite_url config.queue.database) x), db)
  with_queue config lock (ok _, db) = (ok (started config lock), db)

  unfoldable pub run_relay : Text → Moment → Database → Result (Started F W) StartError × Database
  unfolding acquire_instance_lock started load init connect
  run_relay path e db = elim (load sys.fs sys.toml path) [
    | err x ↦ (err (config_error path x), db)
    | ok config ↦ elim (init sys.tracing (is_windows sys.disk.platform) config.logging.level) [
      | err x ↦ (err (logging_error x), db)
      | ok _ ↦ elim (acquire_instance_lock sys.files config.queue.database) [
        | err x ↦ (err x, db)
        | ok lock ↦
            with_queue config lock (connect sys.sqlx e (sqlite_url config.queue.database) db)
      ]
    ]
  ]
