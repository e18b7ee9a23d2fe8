-- ===== src/Smtp/Sends.antt =====
-- When `SmtpTransport::send` of crates/transport-smtp/src/lib.rs reaches the relay.
use oxid_relay.Prelude.{◌≡◌, ◌⊎◌, inl, inr, refl, List, [], ◌∷◌}
use oxid_relay.Prelude.Text.{Text}
use oxid_relay.Prelude.Result.{ok, err, Result-cases}
use oxid_relay.Message.{invalid_mail, Address, Mail}
use oxid_relay.Smtp.{Lettre, mailbox, mailbox_text, mailboxes, build_message, send, transport_error}

module _ {Mailbox Letter W : Type 0} (lettre : Lettre Mailbox Letter W) where
  -- The mailboxes of the addresses, one each and in order.
  abbrev pub Parsed : List Address → List Mailbox → Type 0
  Parsed [] [] = Unit {0}
  Parsed [] (m ∷ ms) = ⊥
  Parsed (a ∷ xs) [] = ⊥
  Parsed (a ∷ xs) (m ∷ ms) = (lettre.parse_mailbox (mailbox_text a) ≡ ok m) × Parsed xs ms

  mailbox-cases :
      (a : Address)
      → ((m : Mailbox) × (lettre.parse_mailbox (mailbox_text a) ≡ ok m) × (mailbox lettre a ≡ ok m))
        ⊎ ((e : Text) × (lettre.parse_mailbox (mailbox_text a) ≡ err e)
            × (mailbox lettre a ≡ err (invalid_mail e)))
  unfolding mailbox
  mailbox-cases a = elim (Result-cases (lettre.parse_mailbox (mailbox_text a))) [
    | inl (m, e) ↦ inl (m, e, rw e refl)
    | inr (x, e) ↦ inr (x, e, rw e refl)
  ]

  -- The first address that does not parse, behind some that do.
  pub data Unparsed : List Address → Text → Type 0 where
    first :
        {a : Address} {e : Text} (xs : List Address)
        → lettre.parse_mailbox (mailbox_text a) ≡ err e
        → Unparsed (a ∷ xs) e
    later :
        {a : Address} {xs : List Address} {e : Text} (m : Mailbox)
        → lettre.parse_mailbox (mailbox_text a) ≡ ok m
        → Unparsed xs e
        → Unparsed (a ∷ xs) e

  -- What is wrong with a mail that the relay is not given.
  pub data Invalid (mail : Mail) : Text → Type 0 where
    sender : {e : Text} → lettre.parse_mailbox (mailbox_text mail.from) ≡ err e → Invalid mail e
    recipient :
        {e : Text} (from : Mailbox)
        → lettre.parse_mailbox (mailbox_text mail.from) ≡ ok from
        → Unparsed mail.to e
        → Invalid mail e
    message :
        {e : Text} (from : Mailbox) (to : List Mailbox)
        → lettre.parse_mailbox (mailbox_text mail.from) ≡ ok from
        → Parsed mail.to to
        → lettre.build from to mail.subject mail.body ≡ err e
        → Invalid mail e

  mailboxes-cases :
      (xs : List Address)
      → ((ms : List Mailbox) × Parsed xs ms × (mailboxes lettre xs ≡ ok ms))
        ⊎ ((e : Text) × Unparsed xs e × (mailboxes lettre xs ≡ err (invalid_mail e)))
  unfolding mailboxes
  mailboxes-cases [] = inl ([], tt, refl)
  mailboxes-cases (a ∷ xs) = elim (mailbox-cases a) [
    | inr (x, p, e) ↦ inr (x, first xs p, rw e refl)
    | inl (m, p, e) ↦ elim (mailboxes-cases xs) [
      | inr (x, u, f) ↦ inr (x, later m p u, rw (e, f) refl)
      | inl (ms, ps, f) ↦ inl (m ∷ ms, (p, ps), rw (e, f) refl)
    ]
  ]

  -- A mail is handed to the relay once, as the letter that is built of its parsed sender and of all
  -- its parsed recipients in order, with its subject and body, and the answer is the relay's. Or
  -- it is refused as an invalid mail, and the relay is not called: with the error of its sender,
  -- which does not parse; or, as the sender does, with that of the first recipient that does not;
  -- or, as they all do, with the error of the message that cannot be built of them.
  pub send-Parsed :
      (mail : Mail) (w : W)
      → ((from : Mailbox) × (to : List Mailbox) × (letter : Letter) × (lettre.parse_mailbox
              (mailbox_text mail.from)
            ≡ ok from)
          × Parsed mail.to to
          × (lettre.build from to mail.subject mail.body ≡ ok letter)
          × (send lettre mail w
              ≡ (transport_error (lettre.submit letter w).0, (lettre.submit letter w).1)))
        ⊎ ((e : Text) × Invalid mail e × (send lettre mail w ≡ (err (invalid_mail e), w)))
  unfolding send build_message
  send-Parsed mail w = elim (mailbox-cases mail.from) [
    | inr (x, p, e) ↦ inr (x, sender p, rw (e, send, build_message) refl)
    | inl (from, p, e) ↦ elim (mailboxes-cases mail.to) [
      | inr (x, u, f) ↦ inr (x, recipient from p u, rw (e, f, send, build_message) refl)
      | inl (to, ps, f) ↦ elim (Result-cases (lettre.build from to mail.subject mail.body)) [
        | inr (x, g) ↦ inr (x, message from to p ps g, rw (e, f, g, send, build_message) refl)
        | inl (letter, g) ↦ inl (from, to, letter, p, ps, g, rw (e, f, g, send, build_message) refl)
      ]
    ]
  ]
