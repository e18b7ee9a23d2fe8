-- ===== src/Config/Settings/Lookup.antt =====
-- What a plugin reads under each key of its resolved settings.
use oxid_relay.Prelude.{
  ◌∙◌, ap, subst, ◌≡◌, ◌≢◌, ◌⊎◌, inl, inr, refl, none, some, [], ◌∷◌, arith, Option-cases,
}
use oxid_relay.Prelude.Text.{Text, strip_suffix}
use oxid_relay.Prelude.Assoc.{Assoc, get, insert, get-insert, IsSorted, insert-IsSorted}
use oxid_relay.Prelude.Result.{ok, err}
use oxid_relay.Config.{Config, ConfigResult, ConfigError, missing_env, Environment, resolve_env}
use oxid_relay.Config.Settings.Keys.{setting, setting-secret, setting-plain}
use oxid_relay.Config.Settings.{plugin_settings, resolve_all, resolve_entry, env_suffix}

-- Every secret of the table is in the environment.
abbrev pub IsResolvable : Environment → Text → Text → Type 0
IsResolvable env key value = elim (strip_suffix key env_suffix) [
  | none ↦ Unit {0}
  | some _ ↦ env value ≢ none
]

abbrev pub SecretsSet : Environment → Assoc Text → Type 0
SecretsSet env [] = Unit {0}
SecretsSet env ((key, value) ∷ rest) = IsResolvable env key value × SecretsSet env rest

module _ (env : Environment) (key value : Text) (rest acc : Assoc Text) where
  resolve_all-plain :
      strip_suffix key env_suffix ≡ none
      → resolve_all env ((key, value) ∷ rest) acc ≡ resolve_all env rest (insert acc key value)
  unfolding resolve_all
  resolve_all-plain plain = rw (plain, resolve_entry)

  resolve_all-secret :
      (t v : Text)
      → strip_suffix key env_suffix ≡ some t
      → env value ≡ some v
      → resolve_all env ((key, value) ∷ rest) acc ≡ resolve_all env rest (insert acc t v)
  unfolding resolve_all resolve_env
  resolve_all-secret t v found e = rw (found, resolve_entry) (rw (e, resolve_env))

  resolve_all-missing :
      (t : Text)
      → strip_suffix key env_suffix ≡ some t
      → env value ≡ none
      → resolve_all env ((key, value) ∷ rest) acc ≡ err (missing_env value)
  unfolding resolve_all resolve_env
  resolve_all-missing t found e = rw (found, resolve_entry) (rw (e, resolve_env))

-- How one round of the loop goes.
abbrev Round : Environment → Text → Text → Assoc Text → Assoc Text → Type 0
Round env key value rest acc =
    ((strip_suffix key env_suffix ≡ none)
      × (resolve_all env ((key, value) ∷ rest) acc ≡ resolve_all env rest (insert acc key value)))
    ⊎ ((t : Text) × (v : Text) × (strip_suffix key env_suffix ≡ some t)
        × (env value ≡ some v)
        × (resolve_all env ((key, value) ∷ rest) acc ≡ resolve_all env rest (insert acc t v)))
    ⊎ ((t : Text) × (strip_suffix key env_suffix ≡ some t)
        × (env value ≡ none)
        × (resolve_all env ((key, value) ∷ rest) acc ≡ err (missing_env value)))

Round-cases :
    (env : Environment) (key value : Text) (rest acc : Assoc Text) → Round env key value rest acc
Round-cases env key value rest acc = elim (Option-cases (strip_suffix key env_suffix)) [
  | inl plain ↦ inl (plain, resolve_all-plain env key value rest acc plain)
  | inr (t, found) ↦ elim (Option-cases (env value)) [
    | inl e ↦ inr (inr (t, found, e, resolve_all-missing env key value rest acc t found e))
    | inr (v, e) ↦ inr (inl (t, v, found, e, resolve_all-secret env key value rest acc t v found e))
  ]
]

resolve_all-ok :
    (env : Environment) (raw acc : Assoc Text)
    → SecretsSet env raw
    → (m : Assoc Text) × (resolve_all env raw acc ≡ ok m)
resolve_all-ok env [] acc h = (acc, unfold resolve_all in refl)
resolve_all-ok env ((key, value) ∷ rest) acc h = elim (Round-cases env key value rest acc) [
  | inl (_, e) ↦ rw e (resolve_all-ok env rest (insert acc key value) h.1)
  | inr (inl (t, v, _, _, e)) ↦ rw e (resolve_all-ok env rest (insert acc t v) h.1)
  | inr (inr (t, found, unset, _)) ↦ absurd ((rw (found, IsResolvable) at h.0) unset)
]

resolve_all-get :
    (env : Environment) (raw acc m : Assoc Text) (k : Text)
    → IsSorted raw
    → resolve_all env raw acc ≡ ok m
    → get m k ≡ setting env raw k (get acc k)
resolve_all-get env [] acc m k o h = unfold resolve_all get in ground arith
resolve_all-get env ((key, value) ∷ rest) acc m k o h = elim (Round-cases env key value rest acc) [
  | inl (plain, e) ↦
      resolve_all-get env rest (insert acc key value) m k o.1 (rw e at h)
      ∙ ap (setting env rest k) (get-insert acc key k value)
      ∙ setting-plain env k key value rest o.0 (get acc k) plain
  | inr (inl (t, v, found, set, e)) ↦
      resolve_all-get env rest (insert acc t v) m k o.1 (rw e at h)
      ∙ ap (setting env rest k) (get-insert acc t k v)
      ∙ setting-secret env k key value rest o.0 t v (get acc k) found set
  | inr (inr (t, found, unset, e)) ↦ cc
]

resolve_all-err :
    (env : Environment) (raw acc : Assoc Text) (x : ConfigError)
    → resolve_all env raw acc ≡ err x
    → (var : Text) × (env var ≡ none) × (x ≡ missing_env var)
resolve_all-err env [] acc x h = unfold resolve_all in absurd (cc)
resolve_all-err env ((key, value) ∷ rest) acc x h = elim (Round-cases env key value rest acc) [
  | inl (_, e) ↦ resolve_all-err env rest (insert acc key value) x (rw e at h)
  | inr (inl (t, v, _, _, e)) ↦ resolve_all-err env rest (insert acc t v) x (rw e at h)
  | inr (inr (t, _, unset, e)) ↦ (value, unset, ground (arith, e))
]

abbrev or_empty : ConfigResult (Assoc Text) → Assoc Text
or_empty (ok m) = m
or_empty (err _) = []

resolve_all-IsSorted :
    (env : Environment) (raw acc m : Assoc Text)
    → IsSorted acc
    → resolve_all env raw acc ≡ ok m
    → IsSorted m
resolve_all-IsSorted env [] acc m o h = unfold resolve_all in subst (λ r. IsSorted (or_empty r)) h o
resolve_all-IsSorted env ((key, value) ∷ rest) acc m o h =
    elim (Round-cases env key value rest acc) [
      | inl (_, e) ↦ resolve_all-IsSorted env rest _ m (insert-IsSorted acc key value o) (rw e at h)
      | inr (inl (t, v, _, _, e)) ↦
          resolve_all-IsSorted env rest _ m (insert-IsSorted acc t v o) (rw e at h)
      | inr (inr (t, _, _, e)) ↦ cc
    ]

pub plugin_settings-IsSorted :
    (env : Environment) (c : Config) (name : Text) (m : Assoc Text)
    → plugin_settings env c name ≡ ok m
    → IsSorted m
unfolding plugin_settings
plugin_settings-IsSorted env c name m h = elim (Option-cases (get c.plugins name)) [
  | inl e ↦ subst (λ r. IsSorted (or_empty r)) (rw (e, plugin_settings) at h) tt
  | inr (raw, e) ↦ resolve_all-IsSorted env raw [] m tt (rw (e, plugin_settings) at h)
]

-- Where all secrets of a plugin's table are in the environment, its settings resolve; and what they
-- hold under a key `k` is the variable that the entry `k_env` names, if there is such an entry, and
-- otherwise the plain entry `k`, unless `k` itself ends in `_env`.
pub plugin_settings-get :
    (env : Environment) (c : Config) (name : Text) (raw : Assoc Text)
    → get c.plugins name ≡ some raw
    → IsSorted raw
    → SecretsSet env raw
    → (m : Assoc Text) × (plugin_settings env c name ≡ ok m)
      × ((k : Text) → get m k ≡ setting env raw k none)
unfolding plugin_settings
plugin_settings-get env c name raw e o set =
    let (m, r) = resolve_all-ok env raw [] set in
    (m, rw (e, plugin_settings) r, λ k. resolve_all-get env raw [] m k o r ∙ (unfold get in refl))

-- Resolving the settings of a plugin fails only for a variable that is not in the environment, and
-- the error names it.
pub plugin_settings-err :
    (env : Environment) (c : Config) (name : Text) (x : ConfigError)
    → plugin_settings env c name ≡ err x
    → (var : Text) × (env var ≡ none) × (x ≡ missing_env var)
unfolding plugin_settings
plugin_settings-err env c name x h = elim (Option-cases (get c.plugins name)) [
  | inl e ↦ absurd (ground arith)
  | inr (raw, e) ↦ resolve_all-err env raw [] x (rw (e, plugin_settings) at h)
]
