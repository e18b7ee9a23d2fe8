-- ===== src/Plugin/Engine/Requests.antt =====
-- The requests that a plugin's script makes through crates/plugin/src/engine.rs.
use oxid_relay.Prelude.{◌≡◌, ◌⊎◌, inl, inr, refl, ap, List, [], ◌∷◌, ◌++◌}
use oxid_relay.Prelude.Text.{Text, codes}
use oxid_relay.Prelude.Assoc.{Assoc}
use oxid_relay.Prelude.Result.{Result, ok, err, Result-cases}
use oxid_relay.Plugin.Http.{no_body, text, form, HttpRequest, HttpClient}
use oxid_relay.Plugin.Engine.{
  Rhai, Json, Engine, map_to_pairs, exec, build_engine, http_get, http_post, http_post_form, answer,
}

module _ {V E : Type 0} (rhai : Rhai V E) where
  -- The pairs are the entries of the map, each with the string that its value is.
  abbrev pub Strings : Assoc V → List (Text × Text) → Type 0
  Strings [] [] = Unit {0}
  Strings [] (p ∷ ps) = ⊥
  Strings (e ∷ m) [] = ⊥
  Strings ((k, v) ∷ m) ((j, t) ∷ ps) = (k ≡ j) × (rhai.into_string v ≡ ok t) × Strings m ps

  -- An entry is no string, and those before it are.
  abbrev pub NotString : Assoc V → E → Type 0
  NotString m x =
      (before after : Assoc V) × (pairs : List (Text × Text)) × (key actual : Text) × (value : V)
      × (m ≡ before ++ (key, value) ∷ after)
      × Strings before pairs
      × (rhai.into_string value ≡ err actual)
      × (x
          ≡ rhai.error_from
              (codes "value for '" ++ key ++ codes "' must be a string, got " ++ actual))

  map_to_pairs-cases :
      (m : Assoc V)
      → ((ps : List (Text × Text)) × (map_to_pairs rhai m ≡ ok ps) × Strings m ps)
        ⊎ ((x : E) × (map_to_pairs rhai m ≡ err x) × NotString m x)
  unfolding map_to_pairs
  map_to_pairs-cases [] = inl ([], refl, tt)
  map_to_pairs-cases ((k, v) ∷ m) = elim (Result-cases (rhai.into_string v)) [
    | inr (t, e) ↦ inr (_, rw (e, map_to_pairs) refl, ([], m, [], k, t, v, refl, tt, e, refl))
    | inl (t, e) ↦ elim (map_to_pairs-cases m) [
      | inl (ps, f, s) ↦ inl ((k, t) ∷ ps, rw (e, f, map_to_pairs) refl, (refl, e, s))
      | inr (x, f, (before, after, pairs, key, actual, value, parts, s, n, y)) ↦ inr (
        x,
        rw (e, f, map_to_pairs) refl,
        (
          (k, v) ∷ before,
          after,
          (k, t) ∷ pairs,
          key,
          actual,
          value,
          ap (◌∷◌ (k, v)) parts,
          (refl, e, s),
          n,
          y,
        ),
      )
    ]
  ]

-- A request as a script makes it.
pub data Call (V : Type 0) : Type 0 where
  get : Text → Assoc V → Call V
  post : Text → Assoc V → Text → Call V
  post_form : Text → Assoc V → Assoc V → Call V

abbrev pub perform : {V E W : Type 0} → Engine V E W → Call V → W → Result (Assoc V) E × W
perform engine (get url headers) = engine.http_get url headers
perform engine (post url headers body) = engine.http_post url headers body
perform engine (post_form url headers fields) = engine.http_post_form url headers fields

module _ {V E : Type 0} (rhai : Rhai V E) where
  -- The request that a call asks for.
  abbrev pub AsksFor : Call V → HttpRequest → Type 0
  AsksFor (get url headers) r =
      (r.method ≡ codes "GET") × (r.url ≡ url) × Strings rhai headers r.headers × (r.body ≡ no_body)
  AsksFor (post url headers body) r =
      (r.method ≡ codes "POST")
      × (r.url ≡ url)
      × Strings rhai headers r.headers
      × (r.body ≡ text body)
  AsksFor (post_form url headers fields) r =
      (r.method ≡ codes "POST")
      × (r.url ≡ url)
      × Strings rhai headers r.headers
      × (values : List (Text × Text)) × (r.body ≡ form values)
      × Strings rhai fields values

  -- What is wrong with a call: a header, or a field of its form, that is no string.
  abbrev pub Fault : Call V → E → Type 0
  Fault (get url headers) x = NotString rhai headers x
  Fault (post url headers body) x = NotString rhai headers x
  Fault (post_form url headers fields) x =
      NotString rhai headers x
      ⊎ ((pairs : List (Text × Text)) × Strings rhai headers pairs × NotString rhai fields x)

  module _ {W J : Type 0} (http : HttpClient W) (json : Json V E J) where
    -- The client is called once.
    abbrev pub Sends : Call V → W → HttpRequest → Type 0
    Sends c w r =
        perform (build_engine rhai http json) c w ≡ (answer rhai (http r w).0, (http r w).1)

    -- A request of a script goes to the HTTP client once, with the method and the address of the
    -- call, every header in order, and the text or every field of the form, and its answer is the
    -- script's; or a header or a field is no string, and then the script gets an error that names
    -- the first such one, and the client is not called.
    pub build_engine-Sends :
        (c : Call V) (w : W)
        → ((r : HttpRequest) × AsksFor c r × Sends c w r)
          ⊎ ((x : E) × Fault c x × (perform (build_engine rhai http json) c w ≡ (err x, w)))
    unfolding build_engine http_get http_post http_post_form exec
    build_engine-Sends (get url headers) w = elim (map_to_pairs-cases rhai headers) [
      | inr (x, e, n) ↦ inr (x, n, rw (e, http_get) refl)
      | inl (ps, e, s) ↦ inl (_, (refl, refl, s, refl), rw (e, http_get, exec) refl)
    ]
    build_engine-Sends (post url headers body) w = elim (map_to_pairs-cases rhai headers) [
      | inr (x, e, n) ↦ inr (x, n, rw (e, http_post) refl)
      | inl (ps, e, s) ↦ inl (_, (refl, refl, s, refl), rw (e, http_post, exec) refl)
    ]
    build_engine-Sends (post_form url headers fields) w = elim (map_to_pairs-cases rhai headers) [
      | inr (x, e, n) ↦ inr (x, inl n, rw (e, http_post_form) refl)
      | inl (ps, e, s) ↦ elim (map_to_pairs-cases rhai fields) [
        | inr (x, f, n) ↦ inr (x, inr (ps, s, n), rw (e, f, http_post_form) refl)
        | inl (vs, f, k) ↦
            inl (_, (refl, refl, s, vs, refl, k), rw (e, f, http_post_form, exec) refl)
      ]
    ]
