-- ===== src/Startup/Ready.antt =====
-- The dispatcher that crates/oxid-relay/src/main.rs builds from a loaded configuration.
use oxid_relay.Prelude.{
  ◌<◌, ◌≡◌, ◌≢◌, ◌⊎◌, inl, inr, Option-cases, none, some, List, [], ◌∷◌, arith,
}
use oxid_relay.Prelude.Text.{Text, codes, text_eq}
use oxid_relay.Prelude.Assoc.{Assoc, get, insert, get-insert}
use oxid_relay.Prelude.Result.{Result, ok}
use oxid_relay.Message.{CoreError}
use oxid_relay.Config.{Config, SmtpConfig}
use oxid_relay.Config.Load.{ReadFile, TomlParser, load}
use oxid_relay.Config.Load.Laws.{load_iff}
use oxid_relay.Queue.{Queue}
use oxid_relay.Dispatcher.{Transport, DispatcherConfig}
use oxid_relay.Startup.{
  dispatcher, dispatcher_config, default_transport, transports, smtp_transport, insert_all,
}

-- Knobs with which a tick makes progress.
pub record IsReady (d : DispatcherConfig) : Type 0 where
  pub batch_size : 0 < d.batch_size
  pub concurrency : 0 < d.concurrency
  pub poll_interval : 0 < d.poll_interval
  pub max_attempts : 0 < d.retry.max_attempts

insert_all-keeps :
    {V : Type 0} (k : Text) (m : Assoc V) (plugins : List (Text × V))
    → get m k ≢ none
    → get (insert_all m plugins) k ≢ none
unfolding insert_all
insert_all-keeps k m [] h = h
insert_all-keeps k m ((name, t) ∷ plugins) h =
    insert_all-keeps k (insert m name t) plugins (ground (arith, get-insert m name k t))

smtp_there : {V : Type 0} (t : V) → get (insert [] (codes "smtp") t) (codes "smtp") ≢ none
unfolding get insert text_eq
smtp_there t h = absurd (ground arith)

module _ {S W : Type 0} (new_smtp : SmtpConfig → Result (Transport W) CoreError) (queue : Queue S)
    (plugins : List (Text × Transport W)) where
  implicit_default :
      (config : Config)
      → config.mail.default_transport ≡ none
      → (default_transport new_smtp config ≡ none)
        ⊎ ((name : Text) × (default_transport new_smtp config ≡ some name)
            × (get (transports new_smtp config plugins) name ≢ none))
  unfolding default_transport transports
  implicit_default config unset = elim (Option-cases (smtp_transport new_smtp config)) [
    | inl e ↦ inl (ground arith)
    | inr (t, e) ↦ inr (
      codes "smtp",
      ground arith,
      rw (e, transports) (insert_all-keeps (codes "smtp") _ plugins (smtp_there t)),
    )
  ]

  -- The dispatcher of a configuration that was loaded has a positive batch size, concurrency, poll
  -- interval and number of attempts. Where the configuration names no default transport, a default
  -- that the daemon picks is one that it has.
  pub dispatcher-IsReady :
      (fs : ReadFile) (toml : TomlParser) (path : Text) (config : Config)
      → load fs toml path ≡ ok config
      → IsReady (dispatcher new_smtp config queue plugins).config
        × ((config.mail.default_transport ≢ none)
            ⊎ ((dispatcher new_smtp config queue plugins).default_transport ≡ none)
            ⊎ ((name : Text) × ((dispatcher new_smtp config queue plugins).default_transport
                  ≡ some name)
                × (get (dispatcher new_smtp config queue plugins).transports name ≢ none)))
  unfolding dispatcher dispatcher_config
  dispatcher-IsReady fs toml path config loaded =
      let (raw, there, parsed, good) = (load_iff fs toml path config).0 loaded in
      (
        record {
          batch_size = good.batch_size;
          concurrency = good.concurrency;
          poll_interval = omega (arith, good.poll_interval);
          max_attempts = good.max_attempts;
        },
        elim (Option-cases config.mail.default_transport) [
          | inr (name, e) ↦ inl (ground arith)
          | inl e ↦ inr (implicit_default config e)
        ],
      )
