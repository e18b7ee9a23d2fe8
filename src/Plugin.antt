-- ===== src/Plugin.antt =====
-- crates/plugin/src: plugins, which are directories with a manifest and a Rhai script. This file has
-- the errors (error.rs), the manifest (manifest.rs) and a loaded plugin (loader.rs).
pub mod Http
pub mod Engine
pub mod Loader
pub mod Transport
use oxid_relay.Prelude.{Bool, Option, none, some, List, [], any, ◌++◌}
use oxid_relay.Prelude.Text.{Text, codes, text_eq}

-- Of the errors of the file system and of the TOML parser the text is kept.
pub data PluginError : Type 0 where
  io : Text → Text → PluginError
  bad_manifest compile invalid : Text → PluginError

-- `PluginError::to_string`, from the `#[error]` attributes.
unfoldable pub plugin_error_text : PluginError → Text
plugin_error_text (io path source) = codes "could not read " ++ path ++ codes ": " ++ source
plugin_error_text (bad_manifest e) = codes "invalid manifest: " ++ e
plugin_error_text (compile e) = codes "script compile error: " ++ e
plugin_error_text (invalid e) = codes "invalid plugin: " ++ e

pub record Manifest : Type 0 where
  pub name : Text
  pub version : Text
  pub kind : Text
  pub capabilities : List Text
  pub description : Text
  pub entry : Text

-- The fields that a `plugin.toml` has: those with a default may be missing.
pub record ManifestToml : Type 0 where
  pub name : Text
  pub version : Text
  pub kind : Text
  pub capabilities : Option (List Text)
  pub description : Option Text
  pub entry : Option Text

abbrev pub default_entry : Text
default_entry = codes "script.rhai"

abbrev or_default : {A : Type 0} → A → Option A → A
or_default d none = d
or_default d (some a) = a

-- What serde makes of the fields.
unfoldable pub manifest_of : ManifestToml → Manifest
manifest_of t = record {
  name = t.name;
  version = t.version;
  kind = t.kind;
  capabilities = or_default [] t.capabilities;
  description = or_default [] t.description;
  entry = or_default default_entry t.entry;
}

unfoldable pub has_capability : Manifest → Text → Bool
has_capability m capability = any (λ c. text_eq c capability) m.capabilities

-- A loaded plugin; `A` is a compiled script.
pub record Plugin (A : Type 0) : Type 0 where
  pub manifest : Manifest
  pub ast : A
  pub dir : Text
