-- ===== src/Smtp.antt =====
-- crates/transport-smtp/src/lib.rs: the transport that hands a mail to an SMTP relay.
pub mod Sends
use oxid_relay.Prelude.{ℕ, none, some, List, [], ◌∷◌, ◌++◌}
use oxid_relay.Prelude.Text.{Text, codes}
use oxid_relay.Prelude.Result.{Result, ok, err, ◌>>=◌}
use oxid_relay.Message.{CoreError, invalid_mail, Address, Mail}
use oxid_relay.Config.{ConfigResult, Environment, SmtpConfig, config_error_text, smtp_password}
use oxid_relay.Dispatcher.{Transport}

-- What the transport takes from `lettre`: the parser of mailboxes, the builder of a message from
-- its sender, recipients, subject and body, and the call of the relay, each with its error's text.
pub record Lettre (Mailbox Letter W : Type 0) : Type 0 where
  pub parse_mailbox : Text → Result Mailbox Text
  pub build : Mailbox → List Mailbox → Text → Text → Result Letter Text
  pub submit : Letter → W → Result (Unit {0}) Text × W

abbrev pub invalid : {A : Type 0} → Result A Text → Result A CoreError
invalid (ok a) = ok a
invalid (err e) = err (invalid_mail e)

abbrev pub transport_error : Result (Unit {0}) Text → Result (Unit {0}) CoreError
transport_error (ok u) = ok u
transport_error (err e) = err (CoreError.transport e)

-- `format!("{name} <{}>", addr.email)`
unfoldable pub mailbox_text : Address → Text
mailbox_text addr = elim addr.name [
  | none ↦ addr.email
  | some name ↦ name ++ codes " <" ++ addr.email ++ codes ">"
]

module _ {Mailbox Letter W : Type 0} (lettre : Lettre Mailbox Letter W) where
  unfoldable pub mailbox : Address → Result Mailbox CoreError
  mailbox addr = invalid (lettre.parse_mailbox (mailbox_text addr))

  -- The loop over the recipients.
  unfoldable pub mailboxes : List Address → Result (List Mailbox) CoreError
  unfolding mailbox
  mailboxes [] = ok []
  mailboxes (a ∷ xs) = do m ← mailbox a; ms ← mailboxes xs; ok (m ∷ ms)

  unfoldable pub build_message : Mail → Result Letter CoreError
  unfolding mailboxes
  build_message mail = do
    from ← mailbox mail.from
    to ← mailboxes mail.to
    invalid (lettre.build from to mail.subject mail.body)

  unfoldable pub send : Mail → W → Result (Unit {0}) CoreError × W
  unfolding build_message
  send mail w = elim (build_message mail) [
    | err e ↦ (err e, w)
    | ok letter ↦ (transport_error (lettre.submit letter w).0, (lettre.submit letter w).1)
  ]

  -- The transport that the daemon keeps under the name `smtp`.
  abbrev pub smtp_transport : Transport W
  smtp_transport = record { name = codes "smtp"; send = send }

-- The builder of `lettre`'s client, which in the end has the relay to talk to.
pub record Connector (Builder Mailbox Letter W : Type 0) : Type 0 where
  pub starttls_relay : Text → Result Builder Text
  pub port : Builder → ℕ → Builder
  pub credentials : Builder → Text → Text → Builder
  pub build : Builder → Lettre Mailbox Letter W

abbrev password_error : ConfigResult Text → Result Text CoreError
password_error (ok p) = ok p
password_error (err e) = err (CoreError.transport (config_error_text e))

abbrev relay_error : {A : Type 0} → Result A Text → Result A CoreError
relay_error (ok a) = ok a
relay_error (err e) = err (CoreError.transport e)

-- `SmtpTransport::new`
unfoldable pub new_smtp_transport :
    {Builder Mailbox Letter W : Type 0}
    → Connector Builder Mailbox Letter W
    → Environment
    → SmtpConfig
    → Result (Transport W) CoreError
unfolding smtp_password config_error_text
new_smtp_transport connector env config = do
  password ← password_error (smtp_password env config)
  relay ← relay_error (connector.starttls_relay config.host)
  ok (
      smtp_transport (
        connector.build
          (connector.credentials (connector.port relay config.port) config.username password)))
