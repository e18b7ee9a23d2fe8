-- ===== src/Examples/Mailing.antt =====
-- The SMTP transport with texts for mailboxes and subjects for letters.
use oxid_relay.Prelude.{ℕ, ◌+◌, ◌≡◌, ◌⊎◌, List}
use oxid_relay.Prelude.Text.{Text}
use oxid_relay.Prelude.Result.{ok, err}
use oxid_relay.Message.{invalid_mail}
use oxid_relay.Smtp.{Lettre, mailbox_text, send, transport_error}
use oxid_relay.Smtp.Sends.{Parsed, Invalid, send-Parsed}
use oxid_relay.Examples.Storage.{due_mail}

abbrev pub lettre : Lettre Text Text ℕ
lettre = record {
  parse_mailbox = λ t. ok t;
  build = λ from to subject body. ok subject;
  submit = λ letter w. (ok tt, w + 1);
}

send-Parsed_example :
    ((from : Text) × (to : List Text) × (letter : Text) × (lettre.parse_mailbox
          (mailbox_text due_mail.from)
        ≡ ok from)
      × Parsed lettre due_mail.to to
      × (lettre.build from to due_mail.subject due_mail.body ≡ ok letter)
      × (send lettre due_mail 5
          ≡ (transport_error (lettre.submit letter 5).0, (lettre.submit letter 5).1)))
    ⊎ ((e : Text) × Invalid lettre due_mail e
        × (send lettre due_mail 5 ≡ (err (invalid_mail e), 5)))
send-Parsed_example = send-Parsed lettre due_mail 5
