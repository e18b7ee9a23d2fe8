-- ===== src/Examples/Starting.antt =====
-- The daemon with SMTP configured and one plugin.
use oxid_relay.Prelude.{false, ◌≡◌, ◌≢◌, refl, none, some, [], ◌∷◌, ◌++◌, List}
use oxid_relay.Prelude.Text.{Text, codes, starts_with, contains, trim}
use oxid_relay.Prelude.Result.{Result, ok}
use oxid_relay.Message.{CoreError, Time}
use oxid_relay.Config.{Config, SmtpConfig, default_config}
use oxid_relay.Config.Load.{ReadFile, TomlParser}
use oxid_relay.Dispatcher.{Transport}
use oxid_relay.Startup.{sqlite_url, lock_path}
use oxid_relay.Startup.Lock.{sqlite_url-lock_path}
use oxid_relay.Examples.Delivering.{refusing}

abbrev pub config : Config
config = record default_config {
  mail = record {
    smtp = some (record {
      host = codes "smtp.example.com";
      port = 587;
      username = codes "relay";
      password_env = codes "SMTP_PASSWORD";
    });
    default_transport = none;
  };
}

abbrev pub read_config : ReadFile
read_config path = ok (codes "[mail.smtp]")

abbrev pub toml : TomlParser
toml raw = ok config

abbrev pub new_smtp : SmtpConfig → Result (Transport Time) CoreError
new_smtp smtp = ok refusing

abbrev pub plugins : List (Text × Transport Time)
plugins = (codes "slack", refusing) ∷ []

prefix_missing : starts_with (codes "queue.db") (codes "sqlite:") ≡ false
unfolding starts_with
prefix_missing = refl

lock_taken : lock_path (codes "queue.db") ≡ some (codes "queue.db.lock")
unfolding lock_path contains trim
lock_taken = refl

sqlite_url-lock_path_example :
    (sqlite_url (codes "sqlite:" ++ codes "queue.db") ≡ sqlite_url (codes "queue.db"))
    × (lock_path (codes "sqlite:" ++ codes "queue.db") ≢ lock_path (codes "queue.db"))
sqlite_url-lock_path_example =
    sqlite_url-lock_path (codes "queue.db") (codes "queue.db.lock") prefix_missing lock_taken
