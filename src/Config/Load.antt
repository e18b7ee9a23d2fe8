-- ===== src/Config/Load.antt =====
-- `Config::load` and `Config::from_toml_str` of crates/core/src/config.rs. The file system and the
-- TOML parser are parameters.
pub mod Laws
use oxid_relay.Prelude.Text.{Text}
use oxid_relay.Prelude.Result.{Result, ok, err, ◌>>=◌, ◌>>◌}
use oxid_relay.Config.{Config, ConfigResult, read, parse}
use oxid_relay.Config.Validate.{validate}

-- `toml::from_str::<Config>`
abbrev pub TomlParser : Type 0
TomlParser = Text → Result Config Text

-- `std::fs::read_to_string`
abbrev pub ReadFile : Type 0
ReadFile = Text → Result Text Text

abbrev parsed : Result Config Text → ConfigResult Config
parsed (ok c) = ok c
parsed (err e) = err (parse e)

abbrev read_from : Text → Result Text Text → ConfigResult Text
read_from path (ok raw) = ok raw
read_from path (err e) = err (read path e)

unfoldable pub from_toml_str : TomlParser → Text → ConfigResult Config
from_toml_str toml raw = do config ← parsed (toml raw); validate config; ok config

unfoldable pub load : ReadFile → TomlParser → Text → ConfigResult Config
unfolding from_toml_str
load fs toml path = do raw ← read_from path (fs path); from_toml_str toml raw
