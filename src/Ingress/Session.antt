-- ===== src/Ingress/Session.antt =====
-- The handler's commands up to the message's data, in crates/ingress-smtp/src/lib.rs.
use oxid_relay.Prelude.{ℕ, Bool, not, ◌&&◌, Option, none, some, List, [], ◌∷◌, ◌++◌, if◌then◌else◌}
use oxid_relay.Prelude.Text.{Text, codes}
use oxid_relay.Prelude.Result.{ok, err}
use oxid_relay.Config.Auth.{authenticate}
use oxid_relay.Ingress.{Outside, Context, RelayHandler, Response, custom, is_allowed}

abbrev pub service_not_available : Response
service_not_available = custom 421 (codes "Service not available")

abbrev pub is_none : {A : Type 0} → Option A → Bool
is_none none = Bool.true
is_none (some a) = Bool.false

module _ {Ip Net Regex W : Type 0} (o : Outside Ip Net Regex W) (ctx : Context Net Regex) where
  unfoldable pub try_auth : Text → Text → RelayHandler → Response × RelayHandler
  try_auth user password h = elim (authenticate o.env ctx.auth user password) [
    | ok (some name) ↦ (Response.auth_ok, record h { authenticated_as = some name })
    | ok none ↦ (Response.invalid_credentials, h)
    | err e ↦ (Response.temp_auth_failure, h)
  ]

  unfoldable pub helo : Ip → Text → RelayHandler → Response × RelayHandler
  helo ip domain h =
      ((if is_allowed o ctx.whitelist ip then Response.ok else service_not_available), h)

  unfoldable pub mail : Ip → Text → Text → RelayHandler → Response × RelayHandler
  mail ip domain from h =
      if not (is_allowed o ctx.whitelist ip) then (service_not_available, h) else (
        (if not ctx.anonymous_enabled && is_none h.authenticated_as
            then Response.authentication_required
            else Response.ok),
        record h { envelope_from = from; recipients = []; data_bytes = [] },
      )

  unfoldable pub rcpt : Text → RelayHandler → Response × RelayHandler
  rcpt to h = (Response.ok, record h { recipients = h.recipients ++ to ∷ [] })

  unfoldable pub data_start : RelayHandler → Response × RelayHandler
  data_start h = (Response.ok, record h { data_bytes = [] })

  -- `Handler::data` never fails.
  unfoldable pub data_chunk : List ℕ → RelayHandler → RelayHandler
  data_chunk buf h = record h { data_bytes = h.data_bytes ++ buf }

  unfoldable pub auth_plain : Text → Text → Text → RelayHandler → Response × RelayHandler
  unfolding try_auth
  auth_plain authorization_id authentication_id password = try_auth authentication_id password

  unfoldable pub auth_login : Text → Text → RelayHandler → Response × RelayHandler
  unfolding try_auth
  auth_login username password = try_auth username password
