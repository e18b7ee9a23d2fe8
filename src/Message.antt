-- ===== src/Message.antt =====
-- crates/core/src/error.rs and crates/core/src/message.rs: errors, addresses, mails and their
-- lifecycle state.
pub mod Laws
use oxid_relay.Prelude.{ℕ, Option, none, List, is_empty, ◌++◌}
use oxid_relay.Prelude.Text.{Text, codes, trim}
use oxid_relay.Prelude.Result.{Result, ok, reject_if, ◌>>=◌, ◌>>◌}

pub data CoreError : Type 0 where
  invalid_mail not_found transport queue : Text → CoreError

-- `CoreError::to_string`, from the `#[error]` attributes.
unfoldable pub error_text : CoreError → Text
error_text (invalid_mail m) = codes "invalid mail: " ++ m
error_text (not_found m) = codes "mail not found: " ++ m
error_text (transport m) = codes "transport error: " ++ m
error_text (queue m) = codes "queue error: " ++ m

-- A `Uuid` is its 128-bit number.
abbrev pub MailId : Type 0
MailId = ℕ

-- A `DateTime<Utc>` is its distance from the epoch in nanoseconds.
abbrev pub Time : Type 0
Time = ℕ

pub record Address : Type 0 where
  pub email : Text
  pub name : Option Text

-- `Address::new`
unfoldable pub new_address : Text → Address
new_address email = record { email = email; name = none }

pub data MailStatus : Type 0 where
  pending sending sent failed dead : MailStatus

pub record NewMail : Type 0 where
  pub from : Address
  pub to : List Address
  pub subject : Text
  pub body : Text
  pub transport : Option Text

pub record Mail : Type 0 where
  pub id : MailId
  pub from : Address
  pub to : List Address
  pub subject : Text
  pub body : Text
  pub transport : Option Text
  pub status : MailStatus
  pub attempts : ℕ
  pub last_error : Option Text
  pub created_at : Time
  pub updated_at : Time
  pub next_attempt_at : Time

unfoldable pub validate : NewMail → Result (Unit {0}) CoreError
validate m = do
  reject_if (is_empty (trim m.from.email)) (invalid_mail (codes "sender address is empty"))
  reject_if (is_empty m.to) (invalid_mail (codes "no recipients given"))
  reject_if (is_empty (trim m.subject)) (invalid_mail (codes "subject is empty"))
  ok tt

unfoldable pub from_new : NewMail → Time → MailId → Mail
from_new m now id = record {
  id = id;
  from = m.from;
  to = m.to;
  subject = m.subject;
  body = m.body;
  transport = m.transport;
  status = pending;
  attempts = 0;
  last_error = none;
  created_at = now;
  updated_at = now;
  next_attempt_at = now;
}
