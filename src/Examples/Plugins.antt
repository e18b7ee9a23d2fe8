-- ===== src/Examples/Plugins.antt =====
-- A plugin directory, a plugin in it, and the theorems on plugins applied to them.
use oxid_relay.Prelude.{ℕ, ◌+◌, ◌≡◌, ◌⊎◌, refl, true, none, some, List, [], ◌∷◌, if◌then◌else◌}
use oxid_relay.Prelude.Text.{Text, codes, text_eq}
use oxid_relay.Prelude.Result.{Result, ok, err}
use oxid_relay.Config.{default_config, Environment}
use oxid_relay.Plugin.{Plugin, PluginError, ManifestToml, manifest_of}
use oxid_relay.Plugin.Http.{HttpRequest, HttpClient}
use oxid_relay.Plugin.Engine.{Json, build_engine}
use oxid_relay.Plugin.Engine.Requests.{
  Call, post_form, perform, AsksFor, Fault, Sends, build_engine-Sends,
}
use oxid_relay.Plugin.Loader.{
  other_unix, Disk, Parsers, discover, load_entries, load_plugin, is_skipped, join, join_unix,
  ends_in_slash, plugin_dirs,
}
use oxid_relay.Plugin.Loader.Laws.{Loaded, Stopped, discover-Loaded}
use oxid_relay.Plugin.Transport.{Runtime, mail_to_map}
use oxid_relay.Plugin.Transport.Reading.{read_mail, content_of, read_mail-mail_to_map}
use oxid_relay.Startup.Plugins.{build_plugin_transports}
use oxid_relay.Startup.Plugins.Origin.{Covers, build_plugin_transports-Covers}
use oxid_relay.Examples.Dynamic.{Dynamic, rhai, casts, casts-IsCasts}
use oxid_relay.Examples.Storage.{due_mail}

-- `plugins` holds the plugin `plugins/teams` and a file.
abbrev pub disk : Disk
disk = record {
  platform = other_unix;
  read_to_string = λ path.
      if text_eq path (codes "plugins/teams/plugin.toml")
      then ok (codes "name = \"teams\"")
      else if text_eq path (codes "plugins/teams/script.rhai")
      then ok (codes "fn send(mail, config) { }")
      else err (codes "not found");
  read_dir = λ path.
      if text_eq path (codes "plugins")
      then ok (ok (codes "plugins/notes.txt") ∷ ok (codes "plugins/teams") ∷ [])
      else err (codes "not found");
  is_dir = λ path. text_eq path (codes "plugins/teams");
  exists = λ path. text_eq path (codes "plugins/teams/plugin.toml");
}

abbrev teams : ManifestToml
teams = record {
  name = codes "teams";
  version = codes "0.1.0";
  kind = codes "transport";
  capabilities = some (codes "send" ∷ []);
  description = none;
  entry = none;
}

abbrev pub parsers : Parsers Text
parsers = record { parse_manifest = λ raw. ok teams; compile = λ script. ok script }

abbrev found : Plugin Text → List Text
found p = p.manifest.name ∷ p.manifest.entry ∷ p.ast ∷ p.dir ∷ []

abbrev summary : Result (List (Plugin Text)) PluginError → List (List Text)
summary (ok []) = []
summary (ok (p ∷ ps)) = found p ∷ summary (ok ps)
summary (err x) = []

discover_one :
    summary (discover disk parsers (codes "plugins"))
    ≡ (codes "teams"
        ∷ codes "script.rhai"
        ∷ codes "fn send(mail, config) { }"
        ∷ codes "plugins/teams"
        ∷ [])
      ∷ []
unfolding discover load_entries load_plugin is_skipped join join_unix ends_in_slash text_eq
    manifest_of
discover_one = refl

discover-Loaded_example :
    ((e : Text) × (disk.read_dir (codes "plugins") ≡ err e)
      × (discover disk parsers (codes "plugins") ≡ ok []))
    ⊎ ((es : List (Result Text Text)) × (disk.read_dir (codes "plugins") ≡ ok es)
        × (((ps : List (Plugin Text)) × (discover disk parsers (codes "plugins") ≡ ok ps)
              × Loaded disk parsers es ps)
            ⊎ ((x : PluginError) × (discover disk parsers (codes "plugins") ≡ err x)
                × Stopped disk parsers (codes "plugins") es x)))
discover-Loaded_example = discover-Loaded disk parsers (codes "plugins")

-- The world counts the requests.
abbrev pub http : HttpClient ℕ
http request w = (ok (record { status = 200; body = request.url }), w + 1)

abbrev pub json : Json Dynamic Text Text
json = record {
  to_string = λ v. ok (codes "{}");
  from_str = λ t. ok t;
  to_dynamic = λ t. ok (rhai.from_text t);
}

abbrev token_call : Call Dynamic
token_call =
    post_form (codes "https://login") ((codes "Accept", rhai.from_text (codes "*")) ∷ [])
      ((codes "scope", rhai.from_text (codes "mail")) ∷ [])

build_engine-Sends_example :
    ((r : HttpRequest) × AsksFor rhai token_call r × Sends rhai http json token_call 4 r)
    ⊎ ((x : Text) × Fault rhai token_call x
        × (perform (build_engine rhai http json) token_call 4 ≡ (err x, 4)))
build_engine-Sends_example = build_engine-Sends rhai http json token_call 4

read_mail-mail_to_map_example :
    read_mail casts (mail_to_map rhai due_mail) ≡ some (content_of due_mail)
read_mail-mail_to_map_example = read_mail-mail_to_map rhai casts casts-IsCasts due_mail

abbrev pub runtime : Runtime Dynamic Text Text ℕ
runtime = record {
  call_fn = λ engine script name mail config w. (ok tt, (engine.http_get script [] w).1);
  spawn_blocking = λ f w. (ok (f w).0, (f w).1);
}

abbrev pub no_env : Environment
no_env var = none

build_plugin_transports-Covers_example :
    Covers disk parsers rhai runtime no_env default_config
      (build_engine rhai http json)
      (plugin_dirs other_unix no_env true)
      (build_plugin_transports disk parsers rhai runtime no_env default_config http json true)
build_plugin_transports-Covers_example =
    build_plugin_transports-Covers disk parsers rhai runtime no_env default_config http json true
