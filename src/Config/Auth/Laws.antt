-- ===== src/Config/Auth/Laws.antt =====
-- Who `AuthConfig::authenticate` lets in, and under which name.
use oxid_relay.Prelude.{
  ◌≡◌, ◌↔◌, ◌⊎◌, inl, inr, refl, Bool, true, false, Option, none, some, [], ◌∷◌, arith, Bool-cases,
  Option-cases, if◌then◌else◌,
}
use oxid_relay.Prelude.Text.{Text, text_eq, text_eq_iff}
use oxid_relay.Prelude.Assoc.{Assoc}
use oxid_relay.Prelude.Result.{ok, err, ◌>>=◌}
use oxid_relay.Config.{
  AuthConfig, ServiceAuth, Environment, ConfigError, ConfigResult, missing_env, resolve_env,
}
use oxid_relay.Config.Auth.{authenticate, authenticate_services}

-- The first service of the table, in the order of its keys, that has the username.
abbrev pub first_for : Text → Assoc ServiceAuth → Option (Text × ServiceAuth)
first_for username [] = none
first_for username ((name, s) ∷ rest) =
    if text_eq s.username username then some (name, s) else first_for username rest

-- How a login succeeds under a name: by the password of the first service that has the username,
-- under that service's key; or by self-registration under the username, where no service has it.
abbrev pub Accepts : Environment → Assoc ServiceAuth → Bool → Text → Text → Text → Type 0
Accepts env services self_register username pass name =
    ((s : ServiceAuth) × (first_for username services ≡ some (name, s))
      × (env s.password_env ≡ some pass))
    ⊎ ((first_for username services ≡ none) × (self_register ≡ true) × (name ≡ username))

module _ (env : Environment) (self_register : Bool) (username pass : Text) where
  abbrev answer : Assoc ServiceAuth → ConfigResult (Option Text)
  answer services = authenticate_services env services self_register username pass

  -- The service that has the username alone decides.
  answer-hit :
      (n : Text) (s : ServiceAuth) (rest : Assoc ServiceAuth)
      → text_eq s.username username ≡ true
      → answer ((n, s) ∷ rest) ≡ (
          resolve_env env s.password_env >>= λ expected.
          if text_eq expected pass then ok (some n) else ok none)
  unfolding authenticate_services
  answer-hit n s rest h = rw h

  answer-miss :
      (n : Text) (s : ServiceAuth) (rest : Assoc ServiceAuth)
      → text_eq s.username username ≡ false
      → answer ((n, s) ∷ rest) ≡ answer rest
  unfolding authenticate_services
  answer-miss n s rest h = rw h

  services_iff :
      (services : Assoc ServiceAuth) (name : Text)
      → (answer services ≡ ok (some name)) ↔ Accepts env services self_register username pass name
  services_iff [] name = unfold authenticate_services in (λ h. ground arith, λ a. ground arith)
  services_iff ((n, s) ∷ rest) name = elim (Bool-cases (text_eq s.username username)) [
    | inr miss ↦ rw (answer-miss n s rest miss, miss) (services_iff rest name)
    | inl hit ↦
        rw (answer-hit n s rest hit, hit)
          (unfold resolve_env in
            elim (Option-cases (env s.password_env)) [
              | inl unset ↦ ground arith
              | inr (expected, e) ↦ ground (arith, text_eq_iff expected pass)
            ])
  ]

  hit_err :
      (n : Text) (s : ServiceAuth) (rest : Assoc ServiceAuth) (x : ConfigError)
      → text_eq s.username username ≡ true
      → answer ((n, s) ∷ rest) ≡ err x
      → (env s.password_env ≡ none) × (x ≡ missing_env s.password_env)
  unfolding resolve_env
  hit_err n s rest x hit h = ground (arith, answer-hit n s rest hit)

  services_err :
      (services : Assoc ServiceAuth) (x : ConfigError)
      → answer services ≡ err x
      → (name : Text) × (s : ServiceAuth) × (first_for username services ≡ some (name, s))
        × (env s.password_env ≡ none)
        × (x ≡ missing_env s.password_env)
  services_err [] x h = unfold authenticate_services in absurd (ground arith)
  services_err ((n, s) ∷ rest) x h = elim (Bool-cases (text_eq s.username username)) [
    | inr miss ↦ rw miss (services_err rest x (rw (answer-miss n s rest miss) at h))
    | inl hit ↦ let found = hit_err n s rest x hit h in (n, s, rw hit refl, found.0, found.1)
  ]

-- A login succeeds under a name exactly when the first service with the username has that name as
-- its key and the given password in its variable, or when no service has the username,
-- self-registration is on and the name is the username.
pub authenticate_iff :
    (env : Environment) (a : AuthConfig) (username pass name : Text)
    → (authenticate env a username pass ≡ ok (some name))
      ↔ Accepts env a.services a.self_register.enabled username pass name
unfolding authenticate
authenticate_iff env a username pass name =
    services_iff env a.self_register.enabled username pass a.services name

-- A login ends in an error only where the first service with the username names a variable that is
-- not in the environment: the error names that variable.
pub authenticate-err :
    (env : Environment) (a : AuthConfig) (username pass : Text) (x : ConfigError)
    → authenticate env a username pass ≡ err x
    → (name : Text) × (s : ServiceAuth) × (first_for username a.services ≡ some (name, s))
      × (env s.password_env ≡ none)
      × (x ≡ missing_env s.password_env)
unfolding authenticate
authenticate-err env a username pass x h =
    services_err env a.self_register.enabled username pass a.services x h
