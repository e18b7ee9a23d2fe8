-- ===== src/Plugin/Loader.antt =====
-- crates/plugin/src/loader.rs: where plugins are looked for, and how they are loaded.
pub mod Laws
use mathlib.Core.Option.{get_or}
use oxid_relay.Prelude.{
  false, Bool, true, not, ◌||◌, ◌==◌, none, some, List, [], ◌∷◌, ◌++◌, if◌then◌else◌,
}
use oxid_relay.Prelude.Text.{Text, codes}
use oxid_relay.Prelude.Result.{Result, ok, err, ◌>>=◌}
use oxid_relay.Config.{Environment}
use oxid_relay.Plugin.{
  Plugin, PluginError, io, bad_manifest, compile, Manifest, ManifestToml, manifest_of,
}

-- The rules of Windows for paths, with its drives and other prefixes.
pub record WindowsPaths : Type 0 where
  pub split_paths : Text → List Text
  pub join : Text → Text → Text

-- What the code is built for: `target_os`, and otherwise another Unix.
pub data Platform : Type 0 where
  windows : WindowsPaths → Platform
  macos other_unix : Platform

-- `cfg!(windows)`
abbrev pub is_windows : Platform → Bool
is_windows (windows paths) = true
is_windows macos = false
is_windows other_unix = false

-- On Unix: the parts between the colons.
unfoldable pub split_at_colons : Text → List Text
split_at_colons [] = [] ∷ []
split_at_colons (c ∷ s) = elim (split_at_colons s) [
  | [] ↦ []
  | first ∷ rest ↦ if c == 58 then [] ∷ first ∷ rest else (c ∷ first) ∷ rest
]

-- `std::env::split_paths`
unfoldable pub split_paths : Platform → Text → List Text
unfolding split_at_colons
split_paths (windows paths) value = paths.split_paths value
split_paths macos value = split_at_colons value
split_paths other_unix value = split_at_colons value

-- Whether something ends in a slash, which an empty path counts for: no separator is needed.
unfoldable pub ends_in_slash : Text → Bool
ends_in_slash [] = true
ends_in_slash (c ∷ []) = c == 47
ends_in_slash (c ∷ d ∷ s) = ends_in_slash (d ∷ s)

-- On Unix: an absolute path takes the place of the first.
unfoldable pub join_unix : Text → Text → Text
unfolding ends_in_slash
join_unix dir [] = if ends_in_slash dir then dir else dir ++ codes "/"
join_unix dir (c ∷ s) =
    if c == 47 then c ∷ s else if ends_in_slash dir then dir ++ c ∷ s else dir ++ 47 ∷ c ∷ s

-- `Path::join`
unfoldable pub join : Platform → Text → Text → Text
unfolding join_unix
join (windows paths) dir name = paths.join dir name
join macos dir name = join_unix dir name
join other_unix dir name = join_unix dir name

-- The location for plugins in a release build.
unfoldable pub release_dir : Platform → Environment → Text
unfolding join
release_dir (windows paths) env =
    let base = get_or (env (codes "PROGRAMDATA")) (codes "C:\\ProgramData") in
    join (windows paths) (join (windows paths) base (codes "OxidRelay")) (codes "plugins")
release_dir macos env = codes "/Library/Application Support/OxidRelay/plugins"
release_dir other_unix env = codes "/etc/oxid-relay/plugins"

-- `cfg!(debug_assertions)` is an argument.
unfoldable pub plugin_dirs : Platform → Environment → Bool → List Text
unfolding split_paths release_dir
plugin_dirs platform env debug_assertions = elim (env (codes "OXID_RELAY_PLUGIN_DIR")) [
  | some value ↦ split_paths platform value
  | none ↦ (if debug_assertions then codes "plugins" else release_dir platform env) ∷ []
]

-- The file system of a platform, with the texts of its errors. A directory's listing may break off at an entry.
pub record Disk : Type 0 where
  pub platform : Platform
  pub read_to_string : Text → Result Text Text
  pub read_dir : Text → Result (List (Result Text Text)) Text
  pub is_dir : Text → Bool
  pub exists : Text → Bool

-- What the loader takes from `toml` and from Rhai's compiler.
pub record Parsers (A : Type 0) : Type 0 where
  pub parse_manifest : Text → Result ManifestToml Text
  pub compile : Text → Result A Text

abbrev pub map_err : {A : Type 0} → (Text → PluginError) → Result A Text → Result A PluginError
map_err f (ok a) = ok a
map_err f (err e) = err (f e)

abbrev pub deserialized : Result ManifestToml Text → Result Manifest PluginError
deserialized (ok t) = ok (manifest_of t)
deserialized (err e) = err (bad_manifest e)

module _ {A : Type 0} (disk : Disk) (parsers : Parsers A) where
  abbrev pub read_file : Text → Result Text PluginError
  read_file path = map_err (λ source. io path source) (disk.read_to_string path)

  unfoldable pub load_plugin : Text → Result (Plugin A) PluginError
  unfolding join
  load_plugin dir = do
    raw ← read_file (join disk.platform dir (codes "plugin.toml"))
    manifest ← deserialized (parsers.parse_manifest raw)
    script ← read_file (join disk.platform dir manifest.entry)
    ast ← map_err (λ e. PluginError.compile e) (parsers.compile script)
    ok (record { manifest = manifest; ast = ast; dir = dir })

  -- The loop's `continue`.
  unfoldable pub is_skipped : Text → Bool
  unfolding join
  is_skipped plugin_dir =
      not (disk.is_dir plugin_dir)
      || not (disk.exists (join disk.platform plugin_dir (codes "plugin.toml")))

  unfoldable pub load_entries :
      Text → List (Result Text Text) → Result (List (Plugin A)) PluginError
  unfolding load_plugin is_skipped
  load_entries dir [] = ok []
  load_entries dir (err source ∷ rest) = err (io dir source)
  load_entries dir (ok plugin_dir ∷ rest) =
      let plugins = load_entries dir rest in
      let loaded = (do plugin ← load_plugin plugin_dir; ps ← plugins; ok (plugin ∷ ps)) in
      if is_skipped plugin_dir then plugins else loaded

  unfoldable pub discover : Text → Result (List (Plugin A)) PluginError
  unfolding load_entries
  discover dir = elim (disk.read_dir dir) [ err _ ↦ ok [] | ok entries ↦ load_entries dir entries ]
