-- ===== src/Plugin/Transport/Settings.antt =====
-- What a script finds in the map that `string_config_map` of crates/plugin/src/transport.rs makes of
-- the settings of a plugin.
use mathlib.Core.Option
use oxid_relay.Prelude.{◌≡◌, ◌∙◌, refl, Option, none, some, [], ◌∷◌, arith}
use oxid_relay.Prelude.Text.{Text, text_eq_iff}
use oxid_relay.Prelude.Assoc.{Assoc, get, insert, get-insert, IsSorted, get-Above}
use oxid_relay.Plugin.Engine.{Rhai}
use oxid_relay.Plugin.Transport.{string_config_map, insert_pairs}

abbrev first : {V : Type 0} → Option V → Option V → Option V
first none b = b
first (some a) b = some a

first-none : {V : Type 0} (o : Option V) → first o none ≡ o
first-none none = refl
first-none (some a) = refl

module _ {V E : Type 0} (rhai : Rhai V E) where
  -- A script finds under each key the string that the settings have there, and nothing else.
  abbrev pub Agrees : Assoc Text → Assoc V → Type 0
  Agrees settings c = (k : Text) → get c k ≡ Option.map rhai.from_text (get settings k)

  get-insert_pairs :
      (k : Text) (pairs : Assoc Text) (m : Assoc V)
      → IsSorted pairs
      → get (insert_pairs rhai m pairs) k
        ≡ first (Option.map rhai.from_text (get pairs k)) (get m k)
  unfolding insert_pairs get
  get-insert_pairs k [] m s = refl
  get-insert_pairs k ((j, v) ∷ pairs) m s =
      get-insert_pairs k pairs (insert m j (rhai.from_text v)) s.1
      ∙ ground (arith, get-insert m j k (rhai.from_text v), text_eq_iff j k, get-Above j pairs s.0)

  pub string_config_map-Agrees :
      (settings : Assoc Text)
      → IsSorted settings
      → Agrees settings (string_config_map rhai settings)
  unfolding string_config_map get
  string_config_map-Agrees settings s k =
      get-insert_pairs k settings [] s ∙ first-none (Option.map rhai.from_text (get settings k))
