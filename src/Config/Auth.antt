-- ===== src/Config/Auth.antt =====
-- `AuthConfig::authenticate` of crates/core/src/config.rs.
pub mod Laws
use oxid_relay.Prelude.{Option, none, some, [], ◌∷◌, Bool, if◌then◌else◌}
use oxid_relay.Prelude.Text.{Text, text_eq}
use oxid_relay.Prelude.Assoc.{Assoc}
use oxid_relay.Prelude.Result.{ok, ◌>>=◌}
use oxid_relay.Config.{AuthConfig, ServiceAuth, ConfigResult, Environment, resolve_env}

-- `ServiceAuth::password`
unfoldable pub password : Environment → ServiceAuth → ConfigResult Text
password env s = resolve_env env s.password_env

-- The first service whose username matches decides.
unfoldable pub authenticate_services :
    Environment → Assoc ServiceAuth → Bool → Text → Text → ConfigResult (Option Text)
unfolding password
authenticate_services env [] self_register username pass =
    if self_register then ok (some username) else ok none
authenticate_services env ((name, service) ∷ rest) self_register username pass =
    if text_eq service.username username
    then (do
      expected ← password env service
      if text_eq expected pass then ok (some name) else ok none)
    else authenticate_services env rest self_register username pass

unfoldable pub authenticate : Environment → AuthConfig → Text → Text → ConfigResult (Option Text)
unfolding authenticate_services
authenticate env a username pass =
    authenticate_services env a.services a.self_register.enabled username pass
