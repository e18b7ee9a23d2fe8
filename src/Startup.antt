-- ===== src/Startup.antt =====
-- crates/oxid-relay/src/main.rs: how the daemon turns the configuration into the dispatcher.
pub mod Ready
pub mod Lock
pub mod Plugins
pub mod Durable
pub mod Relay
pub mod Accepted
pub mod Delivered
pub mod Arrived
pub mod Advances
pub mod Drained
pub mod Restarted
pub mod Service
pub mod Foreground
pub mod Main
use oxid_relay.Prelude.{Option, none, some, List, [], ◌∷◌, ◌++◌, is_empty, ◌||◌, if◌then◌else◌}
use oxid_relay.Prelude.Text.{Text, codes, contains, starts_with, trim}
use oxid_relay.Prelude.Assoc.{Assoc, insert}
use oxid_relay.Prelude.Result.{Result, ok, err}
use oxid_relay.Message.{CoreError}
use oxid_relay.Config.{Config, SmtpConfig}
use oxid_relay.Queue.{Queue}
use oxid_relay.Dispatcher.{DispatcherConfig, Inner, Transport}
use oxid_relay.Dispatcher.Retry.{from_secs}

unfoldable pub dispatcher_config : Config → DispatcherConfig
dispatcher_config config = record {
  batch_size = config.dispatcher.batch_size;
  concurrency = config.dispatcher.concurrency;
  poll_interval = from_secs config.dispatcher.poll_interval_secs;
  sending_lease = from_secs config.dispatcher.sending_lease_secs;
  retry = record {
    max_attempts = config.dispatcher.max_attempts;
    base_delay = from_secs config.dispatcher.retry_base_secs;
    max_delay = from_secs config.dispatcher.retry_max_secs;
  };
}

unfoldable pub sqlite_url : Text → Text
sqlite_url database =
    if starts_with database (codes "sqlite:") then database else codes "sqlite:" ++ database

-- The lock file of `acquire_instance_lock`; a database in memory has none.
unfoldable pub lock_path : Text → Option Text
lock_path database =
    if contains database (codes ":memory:") || is_empty (trim database)
    then none
    else some (database ++ codes ".lock")

-- The loop over the plugins: a later one with a name takes the place of an earlier one.
unfoldable pub insert_all : {V : Type 0} → Assoc V → List (Text × V) → Assoc V
insert_all transports [] = transports
insert_all transports ((name, t) ∷ plugins) = insert_all (insert transports name t) plugins

abbrev pub or_smtp : Option Text → Option Text
or_smtp none = some (codes "smtp")
or_smtp (some name) = some name

module _ {W : Type 0} (new_smtp : SmtpConfig → Result (Transport W) CoreError) where
  -- `SmtpTransport::new`, where SMTP is configured; an error is only logged.
  unfoldable pub smtp_transport : Config → Option (Transport W)
  smtp_transport config = elim config.mail.smtp [
    | none ↦ none
    | some smtp ↦ elim (new_smtp smtp) [ ok t ↦ some t | err e ↦ none ]
  ]

  unfoldable pub transports : Config → List (Text × Transport W) → Assoc (Transport W)
  unfolding smtp_transport insert_all
  transports config plugins = elim (smtp_transport config) [
    | none ↦ insert_all [] plugins
    | some t ↦ insert_all (insert [] (codes "smtp") t) plugins
  ]

  unfoldable pub default_transport : Config → Option Text
  unfolding smtp_transport
  default_transport config = elim (smtp_transport config) [
    | none ↦ config.mail.default_transport
    | some t ↦ or_smtp config.mail.default_transport
  ]

  -- The dispatcher that `run_relay` builds.
  unfoldable pub dispatcher :
      {S : Type 0} → Config → Queue S → List (Text × Transport W) → Inner S W
  unfolding transports default_transport dispatcher_config
  dispatcher config queue plugins = record {
    queue = queue;
    transports = transports config plugins;
    default_transport = default_transport config;
    config = dispatcher_config config;
  }
