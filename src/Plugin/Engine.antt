-- ===== src/Plugin/Engine.antt =====
-- crates/plugin/src/engine.rs: the functions that a plugin's script may call.
pub mod Requests
use oxid_relay.Prelude.{ℕ, List, [], ◌∷◌, ◌++◌}
use oxid_relay.Prelude.Text.{Text, codes}
use oxid_relay.Prelude.Assoc.{Assoc, insert}
use oxid_relay.Prelude.Result.{Result, ok, err, ◌>>=◌}
use oxid_relay.Plugin.Http.{no_body, text, form, HttpRequest, HttpResponse, HttpClient}

-- Rhai's dynamic values `V` and script errors `E`, with the conversions that the source uses. A Rhai
-- map is a BTreeMap with text keys.
pub record Rhai (V E : Type 0) : Type 0 where
  pub from_text : Text → V
  pub from_int : ℕ → V
  pub from_map : Assoc V → V
  pub from_array : List V → V
  pub into_string : V → Result Text Text
  pub error_from : Text → E
  pub display : E → Text

-- `serde_json` with the JSON values `J`, and the conversion of `rhai::serde`.
pub record Json (V E J : Type 0) : Type 0 where
  pub to_string : V → Result Text Text
  pub from_str : Text → Result J Text
  pub to_dynamic : J → Result V E

-- The engine, as the functions that are registered with it. `log_info` only logs.
pub record Engine (V E W : Type 0) : Type 0 where
  pub http_get : Text → Assoc V → W → Result (Assoc V) E × W
  pub http_post : Text → Assoc V → Text → W → Result (Assoc V) E × W
  pub http_post_form : Text → Assoc V → Assoc V → W → Result (Assoc V) E × W
  pub to_json : V → Result Text E
  pub parse_json : Text → Result V E

module _ {V E : Type 0} (rhai : Rhai V E) where
  abbrev pub pair : Text → Result Text Text → Result (Text × Text) E
  pair key (ok value) = ok (key, value)
  pair key (err actual) =
      err
        (rhai.error_from (codes "value for '" ++ key ++ codes "' must be a string, got " ++ actual))

  unfoldable pub map_to_pairs : Assoc V → Result (List (Text × Text)) E
  map_to_pairs [] = ok []
  map_to_pairs ((key, value) ∷ rest) = do
    p ← pair key (rhai.into_string value)
    pairs ← map_to_pairs rest
    ok (p ∷ pairs)

  unfoldable pub response_map : HttpResponse → Assoc V
  response_map response =
      insert (insert [] (codes "status") (rhai.from_int response.status)) (codes "body")
        (rhai.from_text response.body)

  abbrev pub answer : Result HttpResponse Text → Result (Assoc V) E
  answer (ok response) = ok (response_map response)
  answer (err e) = err (rhai.error_from (codes "http error: " ++ e))

  abbrev pub json_error : {B : Type 0} → Text → Result B Text → Result B E
  json_error what (ok b) = ok b
  json_error what (err e) = err (rhai.error_from (what ++ codes ": " ++ e))

  module _ {W : Type 0} (http : HttpClient W) where
    unfoldable pub exec : HttpRequest → W → Result (Assoc V) E × W
    unfolding response_map
    exec request w = (answer (http request w).0, (http request w).1)

    -- A request that was put together, or the error that came before.
    abbrev exec_built : Result HttpRequest E → W → Result (Assoc V) E × W
    exec_built (ok request) w = exec request w
    exec_built (err e) w = (err e, w)

    unfoldable pub http_get : Text → Assoc V → W → Result (Assoc V) E × W
    unfolding map_to_pairs
    http_get url headers = exec_built do
      pairs ← map_to_pairs headers
      ok (record { method = codes "GET"; url = url; headers = pairs; body = no_body })

    unfoldable pub http_post : Text → Assoc V → Text → W → Result (Assoc V) E × W
    unfolding map_to_pairs
    http_post url headers body = exec_built do
      pairs ← map_to_pairs headers
      ok (record { method = codes "POST"; url = url; headers = pairs; body = text body })

    unfoldable pub http_post_form : Text → Assoc V → Assoc V → W → Result (Assoc V) E × W
    unfolding map_to_pairs
    http_post_form url headers fields = exec_built do
      pairs ← map_to_pairs headers
      values ← map_to_pairs fields
      ok (record { method = codes "POST"; url = url; headers = pairs; body = form values })

    -- `build_engine`
    unfoldable pub build_engine : {J : Type 0} → Json V E J → Engine V E W
    unfolding http_get http_post http_post_form
    build_engine json = record {
      http_get = http_get;
      http_post = http_post;
      http_post_form = http_post_form;
      to_json = λ value. json_error (codes "to_json") (json.to_string value);
      parse_json = λ raw.
          json_error (codes "parse_json") (json.from_str raw) >>= λ value. json.to_dynamic value;
    }
