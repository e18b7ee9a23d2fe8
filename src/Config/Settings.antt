-- ===== src/Config/Settings.antt =====
-- `Config::plugin_settings` of crates/core/src/config.rs.
pub mod Keys
pub mod Lookup
use oxid_relay.Prelude.{none, some, [], ◌∷◌}
use oxid_relay.Prelude.Text.{Text, codes, strip_suffix}
use oxid_relay.Prelude.Assoc.{Assoc, get, insert}
use oxid_relay.Prelude.Result.{ok, ◌>>=◌}
use oxid_relay.Config.{Config, ConfigResult, Environment, resolve_env}

abbrev pub env_suffix : Text
env_suffix = codes "_env"

-- One round of the loop: the entry that goes into the result.
unfoldable pub resolve_entry : Environment → Text → Text → ConfigResult (Text × Text)
resolve_entry env key value = elim (strip_suffix key env_suffix) [
  | some stripped ↦ do secret ← resolve_env env value; ok (stripped, secret)
  | none ↦ ok (key, value)
]

-- The loop over the raw table, in the order of its keys.
unfoldable pub resolve_all : Environment → Assoc Text → Assoc Text → ConfigResult (Assoc Text)
unfolding resolve_entry
resolve_all env [] resolved = ok resolved
resolve_all env ((key, value) ∷ rest) resolved = do
  entry ← resolve_entry env key value
  resolve_all env rest (insert resolved entry.0 entry.1)

unfoldable pub plugin_settings : Environment → Config → Text → ConfigResult (Assoc Text)
unfolding resolve_all
plugin_settings env c name = elim (get c.plugins name) [
  | none ↦ ok []
  | some raw ↦ resolve_all env raw []
]
