-- ===== src/Startup/Plugins.antt =====
-- `build_plugin_transports` of crates/oxid-relay/src/main.rs: the transports of the plugins.
pub mod Origin
use oxid_relay.Prelude.{Bool, List, [], ◌∷◌, ◌++◌}
use oxid_relay.Prelude.Text.{Text}
use oxid_relay.Prelude.Assoc.{Assoc}
use oxid_relay.Prelude.Result.{ok, err}
use oxid_relay.Config.{Config, Environment}
use oxid_relay.Config.Settings.{plugin_settings}
use oxid_relay.Dispatcher.{Transport}
use oxid_relay.Plugin.{Plugin}
use oxid_relay.Plugin.Http.{HttpClient}
use oxid_relay.Plugin.Engine.{Rhai, Json, Engine, build_engine}
use oxid_relay.Plugin.Loader.{Disk, Parsers, plugin_dirs, discover}
use oxid_relay.Plugin.Transport.{Runtime, rhai_transport, new_transport, string_config_map}

module _ {V A E W : Type 0} (disk : Disk) (parsers : Parsers A) (rhai : Rhai V E)
    (runtime : Runtime V A E W) (env : Environment) (config : Config) where
  module _ (engine : Engine V E W) where
    abbrev pub transport_of : Plugin A → Assoc V → Text × Transport W
    transport_of plugin c =
        (plugin.manifest.name, rhai_transport rhai runtime (new_transport plugin engine c))

    -- The loop over the plugins of a directory: one whose settings do not resolve is passed over.
    unfoldable pub plugin_transports : List (Plugin A) → List (Text × Transport W)
    unfolding plugin_settings
    plugin_transports [] = []
    plugin_transports (plugin ∷ rest) = elim (plugin_settings env config plugin.manifest.name) [
      | err _ ↦ plugin_transports rest
      | ok settings ↦ transport_of plugin (string_config_map rhai settings) ∷ plugin_transports rest
    ]

    -- The loop over the directories: one that fails is passed over.
    unfoldable pub dir_transports : List Text → List (Text × Transport W)
    unfolding plugin_transports
    dir_transports [] = []
    dir_transports (dir ∷ dirs) = elim (discover disk parsers dir) [
      | err _ ↦ dir_transports dirs
      | ok plugins ↦ plugin_transports plugins ++ dir_transports dirs
    ]

  -- `ReqwestClient::new` does not fail.
  unfoldable pub build_plugin_transports :
      {J : Type 0} → HttpClient W → Json V E J → Bool → List (Text × Transport W)
  unfolding dir_transports
  build_plugin_transports http json debug_assertions =
      dir_transports (build_engine rhai http json) (plugin_dirs disk.platform env debug_assertions)
