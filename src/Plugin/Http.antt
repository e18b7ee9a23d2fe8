-- ===== src/Plugin/Http.antt =====
-- crates/plugin/src/http.rs: the requests of a plugin, the client that it is given and the one that
-- is backed by `reqwest`. `W` is the world that a request changes.
use oxid_relay.Prelude.{ℕ, List, [], ◌∷◌, ◌++◌}
use oxid_relay.Prelude.Text.{Text, codes}
use oxid_relay.Prelude.Result.{Result, ok, err}
use oxid_relay.Dispatcher.Retry.{Duration, from_secs}

pub data HttpBody : Type 0 where
  no_body : HttpBody
  text : Text → HttpBody
  form : List (Text × Text) → HttpBody

pub record HttpRequest : Type 0 where
  pub method : Text
  pub url : Text
  pub headers : List (Text × Text)
  pub body : HttpBody

pub record HttpResponse : Type 0 where
  pub status : ℕ
  pub body : Text

-- The trait `HttpClient`.
abbrev pub HttpClient : Type 0 → Type 0
HttpClient W = HttpRequest → W → Result HttpResponse Text × W

-- What the client takes from `reqwest`, each error as its text.
pub record Reqwest (Client Method Builder Response W : Type 0) : Type 0 where
  pub build : Duration → Duration → Result Client Text
  pub from_bytes : Text → Result Method Text
  pub request : Client → Method → Text → Builder
  pub header : Builder → Text → Text → Builder
  pub with_text : Builder → Text → Builder
  pub with_form : Builder → List (Text × Text) → Builder
  pub send : Builder → W → Result Response Text × W
  pub status : Response → ℕ
  pub read_text : Response → W → Result Text Text × W

module _ {Client Method Builder Response W : Type 0}
    (reqwest : Reqwest Client Method Builder Response W) where
  -- The loop over the headers.
  unfoldable pub add_headers : Builder → List (Text × Text) → Builder
  add_headers b [] = b
  add_headers b ((key, value) ∷ rest) = add_headers (reqwest.header b key value) rest

  abbrev pub add_body : Builder → HttpBody → Builder
  add_body b no_body = b
  add_body b (text t) = reqwest.with_text b t
  add_body b (form pairs) = reqwest.with_form b pairs

  abbrev response_of : Response → Result Text Text → Result HttpResponse Text
  response_of r (ok body) = ok (record { status = reqwest.status r; body = body })
  response_of r (err e) = err e

  abbrev receive : Result Response Text × W → Result HttpResponse Text × W
  receive (err e, w) = (err e, w)
  receive (ok r, w) = (response_of r (reqwest.read_text r w).0, (reqwest.read_text r w).1)

  -- `ReqwestClient::execute`
  unfoldable pub execute : HttpClient W
  unfolding add_headers
  execute request w = elim (reqwest.build (from_secs 30) (from_secs 10)) [
    | err e ↦ (err e, w)
    | ok client ↦ elim (reqwest.from_bytes request.method) [
      | err e ↦ (err (codes "invalid HTTP method: " ++ e), w)
      | ok method ↦
          let builder = add_headers (reqwest.request client method request.url) request.headers in
          receive (reqwest.send (add_body builder request.body) w)
    ]
  ]
