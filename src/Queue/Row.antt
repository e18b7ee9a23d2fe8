-- ===== src/Queue/Row.antt =====
-- crates/queue-sqlite/src/lib.rs: the table `mails`, how a mail is written to a row and read back.
pub mod RoundTrip
use oxid_relay.Prelude.{ℕ, ◌%◌, ◌^◌, Option, List, ◌++◌, if◌then◌else◌}
use oxid_relay.Prelude.Text.{Text, codes, text_eq}
use oxid_relay.Prelude.Result.{Result, ok, err, ◌>>=◌}
use oxid_relay.Message.{
  CoreError, Address, Mail, MailId, MailStatus, Time, pending, sending, sent, failed, dead,
}

-- The formats of chrono, uuid and serde_json, and the words of the database for a second row with
-- the same primary key.
pub record Codec : Type 0 where
  pub to_rfc3339 : Time → Text
  pub parse_from_rfc3339 : Text → Result Time Text
  pub uuid_to_string : MailId → Text
  pub parse_uuid : Text → Result MailId Text
  pub address_to_json : Address → Result Text Text
  pub address_from_json : Text → Result Address Text
  pub addresses_to_json : List Address → Result Text Text
  pub addresses_from_json : Text → Result (List Address) Text
  pub unique_violation : Text

-- A row of the table, with the columns of `migrate`.
pub record Row : Type 0 where
  pub id : Text
  pub sender : Text
  pub recipients : Text
  pub subject : Text
  pub body : Text
  pub transport : Option Text
  pub status : Text
  pub attempts : ℕ
  pub last_error : Option Text
  pub created_at : Text
  pub updated_at : Text
  pub next_attempt_at : Text

unfoldable pub status_to_str : MailStatus → Text
status_to_str pending = codes "pending"
status_to_str sending = codes "sending"
status_to_str sent = codes "sent"
status_to_str failed = codes "failed"
status_to_str dead = codes "dead"

unfoldable pub status_from_str : Text → Result MailStatus CoreError
status_from_str raw =
    if text_eq raw (codes "pending")
    then ok pending
    else if text_eq raw (codes "sending")
    then ok sending
    else if text_eq raw (codes "sent")
    then ok sent
    else if text_eq raw (codes "failed")
    then ok failed
    else if text_eq raw (codes "dead")
    then ok dead
    else err (CoreError.queue (codes "unknown status: " ++ raw))

-- `.map_err(|err| CoreError::Queue(format!("...: {err}")))`
abbrev pub context {ℓ} : {A : Type ℓ} → Text → Result A Text → Result A CoreError
context what (ok a) = ok a
context what (err e) = err (CoreError.queue (what ++ e))

module _ (c : Codec) where
  unfoldable pub parse_time : Text → Result Time CoreError
  parse_time raw = context (codes "decode timestamp: ") (c.parse_from_rfc3339 raw)

  -- `attempts as u32` keeps the low 32 bits of the column.
  unfoldable pub row_to_mail : Row → Result Mail CoreError
  unfolding parse_time
  row_to_mail row = do
    from ← context (codes "decode sender: ") (c.address_from_json row.sender)
    to ← context (codes "decode recipients: ") (c.addresses_from_json row.recipients)
    id ← context (codes "decode id: ") (c.parse_uuid row.id)
    status ← status_from_str row.status
    created_at ← parse_time row.created_at
    updated_at ← parse_time row.updated_at
    next_attempt_at ← parse_time row.next_attempt_at
    ok (record {
      id = id;
      from = from;
      to = to;
      subject = row.subject;
      body = row.body;
      transport = row.transport;
      status = status;
      attempts = row.attempts % 2 ^ 32;
      last_error = row.last_error;
      created_at = created_at;
      updated_at = updated_at;
      next_attempt_at = next_attempt_at;
    })

  -- The values that `enqueue` binds to its INSERT statement.
  unfoldable pub mail_to_row : Mail → Result Row CoreError
  mail_to_row mail = do
    sender ← context (codes "") (c.address_to_json mail.from)
    recipients ← context (codes "") (c.addresses_to_json mail.to)
    ok (record {
      id = c.uuid_to_string mail.id;
      sender = sender;
      recipients = recipients;
      subject = mail.subject;
      body = mail.body;
      transport = mail.transport;
      status = status_to_str mail.status;
      attempts = mail.attempts;
      last_error = mail.last_error;
      created_at = c.to_rfc3339 mail.created_at;
      updated_at = c.to_rfc3339 mail.updated_at;
      next_attempt_at = c.to_rfc3339 mail.next_attempt_at;
    })
