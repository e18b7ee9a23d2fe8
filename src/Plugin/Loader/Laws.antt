-- ===== src/Plugin/Loader/Laws.antt =====
-- Which plugins `discover` of crates/plugin/src/loader.rs finds, and with which error it stops.
use oxid_relay.Prelude.{◌≡◌, ◌⊎◌, inl, inr, refl, true, false, List, [], ◌∷◌, Bool-cases}
use oxid_relay.Prelude.Text.{Text, codes}
use oxid_relay.Prelude.Result.{Result, ok, err, Result-cases}
use oxid_relay.Plugin.{Plugin, PluginError, io, bad_manifest, ManifestToml, manifest_of}
use oxid_relay.Plugin.Loader.{Disk, Parsers, join, is_skipped, load_plugin, load_entries, discover}

module _ {A : Type 0} (disk : Disk) (parsers : Parsers A) where
  -- A sub-directory with a manifest.
  abbrev pub IsPluginDir : Text → Type 0
  IsPluginDir path =
      (disk.is_dir path ≡ true)
      × (disk.exists (join disk.platform path (codes "plugin.toml")) ≡ true)

  abbrev pub IsOther : Text → Type 0
  IsOther path =
      (disk.is_dir path ≡ false)
      ⊎ (disk.exists (join disk.platform path (codes "plugin.toml")) ≡ false)

  -- The file `name` of the directory `path` holds `contents`.
  abbrev pub Holds : Text → Text → Text → Type 0
  Holds path name contents = disk.read_to_string (join disk.platform path name) ≡ ok contents

  -- What the plugin is made of is what its directory holds.
  pub record IsLoadedFrom (path : Text) (p : Plugin A) : Type 0 where
    pub raw : Text
    pub toml : ManifestToml
    pub script : Text
    pub manifest_file : Holds path (codes "plugin.toml") raw
    pub parsed : parsers.parse_manifest raw ≡ ok toml
    pub manifest : p.manifest ≡ manifest_of toml
    pub script_file : Holds path (manifest_of toml).entry script
    pub compiled : parsers.compile script ≡ ok p.ast
    pub dir : p.dir ≡ path

  -- Why the plugin of a directory cannot be loaded.
  pub data Breaks (path : Text) : PluginError → Type 0 where
    no_manifest :
        (e : Text)
        → disk.read_to_string (join disk.platform path (codes "plugin.toml")) ≡ err e
        → Breaks path (io (join disk.platform path (codes "plugin.toml")) e)
    not_a_manifest :
        (raw e : Text)
        → Holds path (codes "plugin.toml") raw
        → parsers.parse_manifest raw ≡ err e
        → Breaks path (bad_manifest e)
    no_script :
        (raw e : Text) (toml : ManifestToml)
        → Holds path (codes "plugin.toml") raw
        → parsers.parse_manifest raw ≡ ok toml
        → disk.read_to_string (join disk.platform path (manifest_of toml).entry) ≡ err e
        → Breaks path (io (join disk.platform path (manifest_of toml).entry) e)
    not_a_script :
        (raw script e : Text) (toml : ManifestToml)
        → Holds path (codes "plugin.toml") raw
        → parsers.parse_manifest raw ≡ ok toml
        → Holds path (manifest_of toml).entry script
        → parsers.compile script ≡ err e
        → Breaks path (PluginError.compile e)

  -- The entries' plugins, one for each plugin directory and in order.
  pub data Loaded : List (Result Text Text) → List (Plugin A) → Type 0 where
    nothing : Loaded [] []
    passed :
        {path : Text} {es : List (Result Text Text)} {ps : List (Plugin A)}
        → IsOther path
        → Loaded es ps
        → Loaded (ok path ∷ es) ps
    loaded :
        {path : Text} {es : List (Result Text Text)} {p : Plugin A} {ps : List (Plugin A)}
        → IsPluginDir path
        → IsLoadedFrom path p
        → Loaded es ps
        → Loaded (ok path ∷ es) (p ∷ ps)

  -- The error of the first entry that cannot be read or whose plugin cannot be loaded.
  pub data Stopped (dir : Text) : List (Result Text Text) → PluginError → Type 0 where
    unlisted : {e : Text} {es : List (Result Text Text)} → Stopped dir (err e ∷ es) (io dir e)
    broken :
        {path : Text} {es : List (Result Text Text)} {x : PluginError}
        → IsPluginDir path
        → Breaks path x
        → Stopped dir (ok path ∷ es) x
    later :
        {path : Text} {es : List (Result Text Text)} {x : PluginError}
        → IsOther path ⊎ (IsPluginDir path × (p : Plugin A) × IsLoadedFrom path p)
        → Stopped dir es x
        → Stopped dir (ok path ∷ es) x

  load_plugin-cases :
      (path : Text)
      → ((p : Plugin A) × (load_plugin disk parsers path ≡ ok p) × IsLoadedFrom path p)
        ⊎ ((x : PluginError) × (load_plugin disk parsers path ≡ err x) × Breaks path x)
  unfolding load_plugin
  load_plugin-cases path =
      elim (Result-cases (disk.read_to_string (join disk.platform path (codes "plugin.toml")))) [
        | inr (e, a) ↦ inr (_, rw (a, load_plugin) refl, no_manifest e a)
        | inl (raw, a) ↦ elim (Result-cases (parsers.parse_manifest raw)) [
          | inr (e, b) ↦ inr (_, rw (a, b, load_plugin) refl, not_a_manifest raw e a b)
          | inl (toml, b) ↦
              elim (Result-cases
                (disk.read_to_string (join disk.platform path (manifest_of toml).entry))) [
                  | inr (e, c) ↦ inr (_, rw (a, b, c, load_plugin) refl, no_script raw e toml a b c)
                  | inl (script, c) ↦ elim (Result-cases (parsers.compile script)) [
                    | inr (e, d) ↦ inr (
                      _,
                      rw (a, b, c, d, load_plugin) refl,
                      not_a_script raw script e toml a b c d,
                    )
                    | inl (ast, d) ↦ inl (
                      record { manifest = manifest_of toml; ast = ast; dir = path },
                      rw (a, b, c, d, load_plugin) refl,
                      record {
                        raw = raw;
                        toml = toml;
                        script = script;
                        manifest_file = a;
                        parsed = b;
                        manifest = refl;
                        script_file = c;
                        compiled = d;
                        dir = refl;
                      },
                    )
                  ]
                ]
        ]
      ]

  is_skipped-cases :
      (path : Text)
      → ((is_skipped disk parsers path ≡ true) × IsOther path)
        ⊎ ((is_skipped disk parsers path ≡ false) × IsPluginDir path)
  unfolding is_skipped
  is_skipped-cases path = elim (Bool-cases (disk.is_dir path)) [
    | inr a ↦ inl (rw (a, is_skipped) refl, inl a)
    | inl a ↦ elim (Bool-cases (disk.exists (join disk.platform path (codes "plugin.toml")))) [
      | inr b ↦ inl (rw (a, b, is_skipped) refl, inr b)
      | inl b ↦ inr (rw (a, b, is_skipped) refl, (a, b))
    ]
  ]

  load_entries-cases :
      (dir : Text) (es : List (Result Text Text))
      → ((ps : List (Plugin A)) × (load_entries disk parsers dir es ≡ ok ps) × Loaded es ps)
        ⊎ ((x : PluginError) × (load_entries disk parsers dir es ≡ err x) × Stopped dir es x)
  unfolding load_entries
  load_entries-cases dir [] = inl ([], refl, nothing)
  load_entries-cases dir (err e ∷ es) = inr (_, refl, unlisted)
  load_entries-cases dir (ok path ∷ es) = elim (is_skipped-cases path) [
    | inl (s, o) ↦ elim (load_entries-cases dir es) [
      | inl (ps, r, l) ↦ inl (ps, rw (s, r, load_entries) refl, passed o l)
      | inr (x, r, l) ↦ inr (x, rw (s, r, load_entries) refl, later (inl o) l)
    ]
    | inr (s, d) ↦ elim (load_plugin-cases path) [
      | inr (x, f, b) ↦ inr (x, rw (s, f, load_entries) refl, broken d b)
      | inl (p, f, b) ↦ elim (load_entries-cases dir es) [
        | inl (ps, r, l) ↦ inl (p ∷ ps, rw (s, f, r, load_entries) refl, loaded d b l)
        | inr (x, r, l) ↦ inr (x, rw (s, f, r, load_entries) refl, later (inr (d, p, b)) l)
      ]
    ]
  ]

  -- A directory that cannot be listed has no plugins. Otherwise the plugins are those of the
  -- sub-directories that hold a manifest, one for each and in the order of the listing, each made of
  -- the manifest and the script that its directory holds; or there is an error, which is that of
  -- the first entry that cannot be read, or whose manifest or script cannot be read or is not valid.
  pub discover-Loaded :
      (dir : Text)
      → ((e : Text) × (disk.read_dir dir ≡ err e) × (discover disk parsers dir ≡ ok []))
        ⊎ ((es : List (Result Text Text)) × (disk.read_dir dir ≡ ok es)
            × (((ps : List (Plugin A)) × (discover disk parsers dir ≡ ok ps) × Loaded es ps)
                ⊎ ((x : PluginError) × (discover disk parsers dir ≡ err x) × Stopped dir es x)))
  unfolding discover
  discover-Loaded dir = elim (Result-cases (disk.read_dir dir)) [
    | inr (e, r) ↦ inl (e, r, rw (r, discover) refl)
    | inl (es, r) ↦ inr (es, r, rw (r, discover) (load_entries-cases dir es))
  ]
