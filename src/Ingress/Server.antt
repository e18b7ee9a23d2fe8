-- ===== src/Ingress/Server.antt =====
-- The server of crates/ingress-smtp/src/lib.rs: how it is configured and run. The server itself is
-- that of `mailin_embedded`, a library.
use oxid_relay.Prelude.{none, some}
use oxid_relay.Prelude.Text.{Text}
use oxid_relay.Prelude.Result.{Result, ok, err, ◌>>=◌}
use oxid_relay.Config.{Config}
use oxid_relay.Ingress.{
  IngressError, disabled, tls, bind, Outside, Context, RelayHandler, new_handler, context,
}

-- What the ingress takes from `mailin_embedded`, each error as its text: a server is made with the
-- context and the handler that every connection starts with.
pub record Mailin (Net Regex Server Listener W : Type 0) : Type 0 where
  pub new : Context Net Regex → RelayHandler → Server
  pub with_name : Server → Text → Server
  pub without_ssl : Server → Result Server Text
  pub with_addr : Server → Text → Result Server Text
  pub with_tcp_listener : Server → Listener → Server
  pub serve : Server → W → Result (Unit {0}) Text × W

abbrev pub ingress_error :
    {A : Type 0} → (Text → IngressError) → Result A Text → Result A IngressError
ingress_error f (ok a) = ok a
ingress_error f (err e) = err (f e)

module _ {Ip Net Regex Server Listener W : Type 0} (o : Outside Ip Net Regex W)
    (mailin : Mailin Net Regex Server Listener W) where
  unfoldable pub configured_server : Text → Context Net Regex → Result Server IngressError
  unfolding new_handler
  configured_server hostname ctx =
      ingress_error tls
        (mailin.without_ssl (mailin.with_name (mailin.new ctx new_handler) hostname))

  abbrev run_server : Result Server IngressError → W → Result (Unit {0}) IngressError × W
  run_server (err x) w = (err x, w)
  run_server (ok server) w =
      (ingress_error IngressError.serve (mailin.serve server w).0, (mailin.serve server w).1)

  unfoldable pub serve : Config → W → Result (Unit {0}) IngressError × W
  unfolding configured_server
  serve config = run_server (elim config.ingress.smtp [
    | none ↦ err disabled
    | some smtp ↦ do
      server ← configured_server smtp.hostname (context o config)
      ingress_error bind (mailin.with_addr server smtp.bind)
  ])

  unfoldable pub serve_with_listener : Config → Listener → W → Result (Unit {0}) IngressError × W
  unfolding configured_server
  serve_with_listener config listener = run_server (elim config.ingress.smtp [
    | none ↦ err disabled
    | some smtp ↦ do
      server ← configured_server smtp.hostname (context o config)
      ok (mailin.with_tcp_listener server listener)
  ])
