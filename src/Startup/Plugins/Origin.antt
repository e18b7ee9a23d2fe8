-- ===== src/Startup/Plugins/Origin.antt =====
-- Where the transports of `build_plugin_transports` of crates/oxid-relay/src/main.rs come from, and
-- what their scripts are given as their configuration.
use mathlib.Core.List.{Memᴰ}
use mathlib.Core.List.Memᴰ
use oxid_relay.Prelude.{Bool, ◌≡◌, inl, inr, refl, subst, List, [], ◌∷◌, ◌++◌}
use oxid_relay.Prelude.Text.{Text}
use oxid_relay.Prelude.Assoc.{Assoc}
use oxid_relay.Prelude.Result.{ok, err, Result-cases}
use oxid_relay.Config.{Config, ConfigError, Environment}
use oxid_relay.Config.Settings.{plugin_settings}
use oxid_relay.Config.Settings.Lookup.{plugin_settings-IsSorted}
use oxid_relay.Dispatcher.{Transport}
use oxid_relay.Plugin.{Plugin, PluginError}
use oxid_relay.Plugin.Http.{HttpClient}
use oxid_relay.Plugin.Engine.{Rhai, Json, Engine, build_engine}
use oxid_relay.Plugin.Loader.{Disk, Parsers, plugin_dirs, discover}
use oxid_relay.Plugin.Transport.{Runtime, rhai_transport, new_transport, string_config_map}
use oxid_relay.Plugin.Transport.Settings.{Agrees, string_config_map-Agrees}
use oxid_relay.Startup.Plugins.{plugin_transports, dir_transports, build_plugin_transports}

module _ {V A E W : Type 0} (rhai : Rhai V E) (runtime : Runtime V A E W)
    (engine : Engine V E W) where
  -- The entry of a plugin: its name and the transport that runs its script on the settings.
  abbrev pub IsEntry : Plugin A → Assoc Text → Text × Transport W → Type 0
  IsEntry p settings e =
      (c : Assoc V) × Agrees rhai settings c
      × (e ≡ (p.manifest.name, rhai_transport rhai runtime (new_transport p engine c)))

module _ {V A E W : Type 0} (disk : Disk) (parsers : Parsers A) (rhai : Rhai V E)
    (runtime : Runtime V A E W) (env : Environment) (config : Config) (engine : Engine V E W) where
  abbrev SettingsOf : Plugin A → Assoc Text → Type 0
  SettingsOf p settings = plugin_settings env config p.manifest.name ≡ ok settings

  -- The entries are those of the plugins whose settings resolve.
  abbrev Built : List (Plugin A) → List (Text × Transport W) → Type 0
  Built ps ts =
      ((e : Text × Transport W)
        → Memᴰ e ts
        → (p : Plugin A) × (settings : Assoc Text) × Memᴰ p ps
          × SettingsOf p settings
          × IsEntry rhai runtime engine p settings e)
      × ((p : Plugin A) (settings : Assoc Text)
          → Memᴰ p ps
          → SettingsOf p settings
          → (e : Text × Transport W) × Memᴰ e ts × IsEntry rhai runtime engine p settings e)

  Built-passed :
      (q : Plugin A) (x : ConfigError) (ps : List (Plugin A)) (ts : List (Text × Transport W))
      → plugin_settings env config q.manifest.name ≡ err x
      → Built ps ts
      → Built (q ∷ ps) ts
  Built-passed q x ps ts r b = (
    λ e i. let (p, settings, m, f, g) = b.0 e i in (p, settings, Memᴰ.tail m, f, g),
    λ p settings m f. elim (Memᴰ.cases_cons m) [
      | inl same ↦ absurd (cc)
      | inr m' ↦ b.1 p settings m' f
    ],
  )

  same_settings :
      (q : Plugin A) (s settings : Assoc Text)
      → SettingsOf q s
      → SettingsOf q settings
      → settings ≡ s
  same_settings q s settings r f = cc

  Built-cons :
      (q : Plugin A) (s : Assoc Text) (ps : List (Plugin A)) (ts : List (Text × Transport W))
      → SettingsOf q s
      → (e : Text × Transport W) → IsEntry rhai runtime engine q s e
      → Built ps ts
      → Built (q ∷ ps) (e ∷ ts)
  Built-cons q s ps ts r e entry b = (
    λ e' i. elim (Memᴰ.cases_cons i) [
      | inl same ↦ (q, s, Memᴰ.head refl, r, rw same entry)
      | inr i' ↦ let (p, settings, m, f, g) = b.0 e' i' in (p, settings, Memᴰ.tail m, f, g)
    ],
    λ p settings m f. elim (Memᴰ.cases_cons m) [
      | inl same ↦
          (e, Memᴰ.head refl, rw same (rw (same_settings q s settings r (rw same at f)) entry))
      | inr m' ↦ let (e', i, g) = b.1 p settings m' f in (e', Memᴰ.tail i, g)
    ],
  )

  plugin_transports-Built :
      (ps : List (Plugin A))
      → Built ps (plugin_transports disk parsers rhai runtime env config engine ps)
  unfolding plugin_transports
  plugin_transports-Built [] =
      (λ e i. absurd (Memᴰ.not-nil i), λ p settings i r. absurd (Memᴰ.not-nil i))
  plugin_transports-Built (q ∷ ps) =
      elim (Result-cases (plugin_settings env config q.manifest.name)) [
        | inr (x, r) ↦
            rw (r, plugin_transports) (Built-passed q x ps _ r (plugin_transports-Built ps))
        | inl (s, r) ↦
            rw (r, plugin_transports)
              (Built-cons q s ps _ r _
                (
                  string_config_map rhai s,
                  string_config_map-Agrees rhai s (plugin_settings-IsSorted env config _ s r),
                  refl,
                )
                (plugin_transports-Built ps))
      ]

  -- A plugin that is found in one of the directories.
  abbrev pub IsFound : List Text → Plugin A → Type 0
  IsFound dirs p =
      (dir : Text) × (ps : List (Plugin A)) × Memᴰ dir dirs
      × (discover disk parsers dir ≡ ok ps)
      × Memᴰ p ps

  IsFound-later :
      (dir : Text) (dirs : List Text) (p : Plugin A) → IsFound dirs p → IsFound (dir ∷ dirs) p
  IsFound-later dir dirs p (d, ps, m, f, i) = (d, ps, Memᴰ.tail m, f, i)

  -- The entries are those of the plugins in the directories whose settings resolve.
  abbrev pub Covers : List Text → List (Text × Transport W) → Type 0
  Covers dirs ts =
      ((e : Text × Transport W)
        → Memᴰ e ts
        → (p : Plugin A) × (settings : Assoc Text) × IsFound dirs p
          × (plugin_settings env config p.manifest.name ≡ ok settings)
          × IsEntry rhai runtime engine p settings e)
      × ((p : Plugin A) (settings : Assoc Text)
          → IsFound dirs p
          → plugin_settings env config p.manifest.name ≡ ok settings
          → (e : Text × Transport W) × Memᴰ e ts × IsEntry rhai runtime engine p settings e)

  same_plugins :
      (dir : Text) (ps qs : List (Plugin A))
      → discover disk parsers dir ≡ ok ps
      → discover disk parsers dir ≡ ok qs
      → ps ≡ qs
  same_plugins dir ps qs r f = cc

  Covers-passed :
      (dir : Text) (x : PluginError) (dirs : List Text) (ts : List (Text × Transport W))
      → discover disk parsers dir ≡ err x
      → Covers dirs ts
      → Covers (dir ∷ dirs) ts
  Covers-passed dir x dirs ts r b = (
    λ e i.
        let (p, settings, found, f, g) = b.0 e i in
        (p, settings, IsFound-later dir dirs p found, f, g),
    λ p settings found f. elim (Memᴰ.cases_cons found.2) [
      | inl same ↦ absurd (cc)
      | inr m ↦ b.1 p settings (found.0, found.1, m, found.3, found.4) f
    ],
  )

  Covers-append :
      (dir : Text) (ps : List (Plugin A)) (dirs : List Text) (ts us : List (Text × Transport W))
      → discover disk parsers dir ≡ ok ps
      → Built ps ts
      → Covers dirs us
      → Covers (dir ∷ dirs) (ts ++ us)
  Covers-append dir ps dirs ts us r a b = (
    λ e i. elim (Memᴰ.append_cases ts i) [
      | inl here ↦
          let (p, settings, m, f, g) = a.0 e here in
          (p, settings, (dir, ps, Memᴰ.head refl, r, m), f, g)
      | inr there ↦
          let (p, settings, found, f, g) = b.0 e there in
          (p, settings, IsFound-later dir dirs p found, f, g)
    ],
    λ p settings found f. elim (Memᴰ.cases_cons found.2) [
      | inl same ↦
          let listed =
            subst (λ (qs : List (Plugin A)). Memᴰ p qs)
              (same_plugins dir found.1 ps (rw same at found.3) r) found.4 in
          let (e, i, g) = a.1 p settings listed f in (e, Memᴰ.append_left us i, g)
      | inr m ↦
          let (e, i, g) = b.1 p settings (found.0, found.1, m, found.3, found.4) f in
          (e, Memᴰ.append_right ts i, g)
    ],
  )

  dir_transports-Covers :
      (dirs : List Text)
      → Covers dirs (dir_transports disk parsers rhai runtime env config engine dirs)
  unfolding dir_transports
  dir_transports-Covers [] =
      (λ e i. absurd (Memᴰ.not-nil i), λ p settings found f. absurd (Memᴰ.not-nil found.2))
  dir_transports-Covers (dir ∷ dirs) = elim (Result-cases (discover disk parsers dir)) [
    | inr (x, r) ↦
        rw (r, dir_transports) (Covers-passed dir x dirs _ r (dir_transports-Covers dirs))
    | inl (ps, r) ↦
        rw (r, dir_transports)
          (Covers-append dir ps dirs _ _ r (plugin_transports-Built ps)
            (dir_transports-Covers dirs))
  ]

module _ {V A E W J : Type 0} (disk : Disk) (parsers : Parsers A) (rhai : Rhai V E)
    (runtime : Runtime V A E W) (env : Environment) (config : Config) (http : HttpClient W)
    (json : Json V E J) where
  -- The transports of the plugins are those of the plugins that are found in the scanned directories
  -- and whose settings resolve, and of no others: each stands under the name that the plugin's
  -- manifest declares, and runs the plugin's script on a configuration that has, under every key of
  -- the settings, the string that they have there, and nothing under any other key.
  pub build_plugin_transports-Covers :
      (debug_assertions : Bool)
      → Covers disk parsers rhai runtime env config
          (build_engine rhai http json)
          (plugin_dirs disk.platform env debug_assertions)
          (build_plugin_transports disk parsers rhai runtime env config http json debug_assertions)
  unfolding build_plugin_transports
  build_plugin_transports-Covers debug_assertions =
      dir_transports-Covers disk parsers rhai runtime env config (build_engine rhai http json)
        (plugin_dirs disk.platform env debug_assertions)
