-- ===== src/Config.antt =====
-- crates/core/src/config.rs: the configuration as read from the TOML file, its defaults and errors.
-- The children model what the code computes from it.
pub mod Validate
pub mod Load
pub mod Settings
pub mod Subject
pub mod Routing
pub mod Auth
use oxid_relay.Prelude.{ℕ, ◌++◌, Option, none, some, List, [], Bool, false}
use oxid_relay.Prelude.Text.{Text, codes}
use oxid_relay.Prelude.Assoc.{Assoc}
use oxid_relay.Prelude.Result.{Result, ok, err}

-- Of the errors of the file system and of the TOML parser the text is kept.
pub data ConfigError : Type 0 where
  read : Text → Text → ConfigError
  parse invalid missing_env : Text → ConfigError

abbrev pub ConfigResult : Type 0 → Type 0
ConfigResult A = Result A ConfigError

-- The process environment: the variables that `std::env::var` can read.
abbrev pub Environment : Type 0
Environment = Text → Option Text

unfoldable pub resolve_env : Environment → Text → ConfigResult Text
resolve_env env var = elim (env var) [ none ↦ err (missing_env var) | some value ↦ ok value ]

-- `ConfigError::to_string`, from the `#[error]` attributes.
unfoldable pub config_error_text : ConfigError → Text
config_error_text (read path source) =
    codes "could not read config file " ++ path ++ codes ": " ++ source
config_error_text (parse e) = codes "could not parse config: " ++ e
config_error_text (invalid e) = codes "invalid config: " ++ e
config_error_text (missing_env var) = codes "environment variable " ++ var ++ codes " is not set"

pub record DispatcherSettings : Type 0 where
  pub batch_size : ℕ
  pub concurrency : ℕ
  pub poll_interval_secs : ℕ
  pub sending_lease_secs : ℕ
  pub max_attempts : ℕ
  pub retry_base_secs : ℕ
  pub retry_max_secs : ℕ

abbrev pub default_dispatcher : DispatcherSettings
default_dispatcher = record {
  batch_size = 64;
  concurrency = 8;
  poll_interval_secs = 5;
  sending_lease_secs = 120;
  max_attempts = 5;
  retry_base_secs = 30;
  retry_max_secs = 3600;
}

pub record RouteTargetConfig : Type 0 where
  pub transport : Text
  pub recipients : List Text

pub record RouteRule : Type 0 where
  pub transport : Option Text
  pub recipients : List Text
  pub targets : List RouteTargetConfig

-- The field is named `default` in the source.
pub record RoutingConfig : Type 0 where
  pub default : Option RouteRule
  pub senders : Assoc RouteRule

pub record SmtpIngressConfig : Type 0 where
  pub bind : Text
  pub hostname : Text

abbrev pub default_ingress_bind : Text
default_ingress_bind = codes "127.0.0.1:2525"

abbrev pub default_ingress_hostname : Text
default_ingress_hostname = codes "oxid-relay"

pub record IngressConfig : Type 0 where
  pub smtp : Option SmtpIngressConfig

pub record SmtpConfig : Type 0 where
  pub host : Text
  pub port : ℕ
  pub username : Text
  pub password_env : Text

-- `SmtpConfig::password`
unfoldable pub smtp_password : Environment → SmtpConfig → ConfigResult Text
unfolding resolve_env
smtp_password env c = resolve_env env c.password_env

pub record MailConfig : Type 0 where
  pub smtp : Option SmtpConfig
  pub default_transport : Option Text

pub record QueueConfig : Type 0 where
  pub database : Text

abbrev pub default_queue : QueueConfig
default_queue = record { database = codes "queue.db" }

pub record LoggingConfig : Type 0 where
  pub level : Text

abbrev pub default_logging : LoggingConfig
default_logging = record { level = codes "info" }

pub record SenderSubject : Type 0 where
  pub format : Text

pub record SubjectConfig : Type 0 where
  pub format : Text
  pub senders : Assoc SenderSubject

abbrev pub default_subject : SubjectConfig
default_subject = record { format = codes "[Abs: %name%] %original%"; senders = [] }

pub record SecurityConfig : Type 0 where
  pub ip_whitelist : List Text

pub record AnonymousAuth : Type 0 where
  pub enabled : Bool
  pub subject_match : Option Text

pub record ServiceAuth : Type 0 where
  pub username : Text
  pub password_env : Text

pub record SelfRegisterAuth : Type 0 where
  pub enabled : Bool

pub record AuthConfig : Type 0 where
  pub anonymous : AnonymousAuth
  pub services : Assoc ServiceAuth
  pub self_register : SelfRegisterAuth

pub record Config : Type 0 where
  pub mail : MailConfig
  pub queue : QueueConfig
  pub logging : LoggingConfig
  pub subject : SubjectConfig
  pub security : SecurityConfig
  pub auth : AuthConfig
  pub plugins : Assoc (Assoc Text)
  pub ingress : IngressConfig
  pub routing : RoutingConfig
  pub dispatcher : DispatcherSettings

-- `Config::default()`, which an empty file gives.
abbrev pub default_config : Config
default_config = record {
  mail = record { smtp = none; default_transport = none };
  queue = default_queue;
  logging = default_logging;
  subject = default_subject;
  security = record { ip_whitelist = [] };
  auth = record {
    anonymous = record { enabled = false; subject_match = none };
    services = [];
    self_register = record { enabled = false };
  };
  plugins = [];
  ingress = record { smtp = none };
  routing = record { default = none; senders = [] };
  dispatcher = default_dispatcher;
}
