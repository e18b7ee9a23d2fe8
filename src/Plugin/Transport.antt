-- ===== src/Plugin/Transport.antt =====
-- crates/plugin/src/transport.rs: a plugin's script as a transport.
pub mod Reading
pub mod Settings
use oxid_relay.Prelude.{none, some, List, [], ◌∷◌, ◌++◌}
use oxid_relay.Prelude.Text.{Text, codes}
use oxid_relay.Prelude.Assoc.{Assoc, insert}
use oxid_relay.Prelude.Result.{Result, ok, err}
use oxid_relay.Message.{CoreError, Address, Mail}
use oxid_relay.Dispatcher.{Transport}
use oxid_relay.Plugin.{Plugin}
use oxid_relay.Plugin.Engine.{Rhai, Engine}

-- What the transport takes from Rhai's interpreter, `Engine::call_fn` with two arguments, and from
-- Tokio's thread for blocking work, which may be lost with a text that says why.
pub record Runtime (V A E W : Type 0) : Type 0 where
  pub call_fn : Engine V E W → A → Text → Assoc V → Assoc V → W → Result (Unit {0}) E × W
  pub spawn_blocking : (W → Result (Unit {0}) E × W) → W → Result (Result (Unit {0}) E) Text × W

pub record RhaiTransport (V A E W : Type 0) : Type 0 where
  pub name : Text
  pub engine : Engine V E W
  pub ast : A
  pub config : Assoc V

-- `RhaiTransport::new`; of the manifest the transport reads the name.
unfoldable pub new_transport :
    {V A E W : Type 0} → Plugin A → Engine V E W → Assoc V → RhaiTransport V A E W
new_transport plugin engine config = record {
  name = plugin.manifest.name;
  engine = engine;
  ast = plugin.ast;
  config = config;
}

module _ {V E : Type 0} (rhai : Rhai V E) where
  unfoldable pub insert_pairs : Assoc V → List (Text × Text) → Assoc V
  insert_pairs m [] = m
  insert_pairs m ((key, value) ∷ pairs) = insert_pairs (insert m key (rhai.from_text value)) pairs

  unfoldable pub string_config_map : List (Text × Text) → Assoc V
  unfolding insert_pairs
  string_config_map = insert_pairs []

  unfoldable pub address_map : Address → Assoc V
  address_map addr =
      let m = insert [] (codes "email") (rhai.from_text addr.email) in
      elim addr.name [ none ↦ m | some name ↦ insert m (codes "name") (rhai.from_text name) ]

  -- The loop over the recipients.
  unfoldable pub recipients : List Address → List V
  unfolding address_map
  recipients [] = []
  recipients (addr ∷ rest) = rhai.from_map (address_map addr) ∷ recipients rest

  unfoldable pub mail_to_map : Mail → Assoc V
  unfolding recipients
  mail_to_map mail =
      let from_map = insert [] (codes "from") (rhai.from_map (address_map mail.from)) in
      let to_map = insert from_map (codes "to") (rhai.from_array (recipients mail.to)) in
      insert (insert to_map (codes "subject") (rhai.from_text mail.subject)) (codes "body")
        (rhai.from_text mail.body)

  abbrev pub outcome : Result (Result (Unit {0}) E) Text → Result (Unit {0}) CoreError
  outcome (err e) = err (CoreError.transport (codes "plugin task failed: " ++ e))
  outcome (ok (err e)) = err (CoreError.transport (codes "plugin send: " ++ rhai.display e))
  outcome (ok (ok u)) = ok u

  module _ {A W : Type 0} (runtime : Runtime V A E W) (t : RhaiTransport V A E W) where
    unfoldable pub send : Mail → W → Result (Unit {0}) CoreError × W
    unfolding mail_to_map
    send mail w =
        let r =
          runtime.spawn_blocking
            (runtime.call_fn t.engine t.ast (codes "send") (mail_to_map mail) t.config) w in
        (outcome r.0, r.1)

    -- The trait's view of the transport.
    abbrev pub rhai_transport : Transport W
    rhai_transport = record { name = t.name; send = send }
