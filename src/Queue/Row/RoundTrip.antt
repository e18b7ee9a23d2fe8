-- ===== src/Queue/Row/RoundTrip.antt =====
-- Writing a mail to a row of crates/queue-sqlite and reading it back.
use oxid_relay.Prelude.{List, ◌*◌, ◌^◌, ◌<◌, ◌≡◌, refl, arith, ltb}
use oxid_relay.Prelude.Text.{Text, text_eq, text_ltb}
use oxid_relay.Prelude.Result.{ok}
use oxid_relay.Message.{
  Address, Mail, MailId, MailStatus, Time, pending, sending, sent, failed, dead,
}
use oxid_relay.Queue.Row.{Codec, Row, status_to_str, status_from_str, mail_to_row, row_to_mail}

-- The first instant of the year 10000, from which on chrono writes years with a sign.
abbrev pub horizon : Time
horizon = 253402300800 * 1_000_000_000

-- The documented behaviour of the formats: what is printed is parsed back, different ids print
-- differently, and up to `horizon` the printed timestamps of UTC are ordered as text as they are
-- in time.
pub record IsCodec (c : Codec) : Type 0 where
  pub time_back : (t : Time) → t < horizon → c.parse_from_rfc3339 (c.to_rfc3339 t) ≡ ok t
  pub time_order :
      (t u : Time)
      → t < horizon
      → u < horizon
      → text_ltb (c.to_rfc3339 t) (c.to_rfc3339 u) ≡ ltb t u
  pub uuid_back : (i : MailId) → c.parse_uuid (c.uuid_to_string i) ≡ ok i
  pub address_back :
      (a : Address) → (t : Text) × (c.address_to_json a ≡ ok t) × (c.address_from_json t ≡ ok a)
  pub addresses_back :
      (xs : List Address)
      → (t : Text) × (c.addresses_to_json xs ≡ ok t) × (c.addresses_from_json t ≡ ok xs)

-- A mail whose counter fits the `u32` and whose timestamps are before `horizon`.
pub record InRange (m : Mail) : Type 0 where
  pub attempts : m.attempts < 2 ^ 32
  pub created_at : m.created_at < horizon
  pub updated_at : m.updated_at < horizon
  pub next_attempt_at : m.next_attempt_at < horizon

-- Every status is read back from its stored text.
pub status_from_str-to_str : (s : MailStatus) → status_from_str (status_to_str s) ≡ ok s
unfolding status_from_str status_to_str text_eq
status_from_str-to_str pending = refl
status_from_str-to_str sending = refl
status_from_str-to_str sent = refl
status_from_str-to_str failed = refl
status_from_str-to_str dead = refl

-- The row that holds a mail whose addresses have these JSON texts.
abbrev pub row_of : Codec → Mail → Text → Text → Row
row_of c m sender recipients = record {
  id = c.uuid_to_string m.id;
  sender = sender;
  recipients = recipients;
  subject = m.subject;
  body = m.body;
  transport = m.transport;
  status = status_to_str m.status;
  attempts = m.attempts;
  last_error = m.last_error;
  created_at = c.to_rfc3339 m.created_at;
  updated_at = c.to_rfc3339 m.updated_at;
  next_attempt_at = c.to_rfc3339 m.next_attempt_at;
}

module _ (c : Codec) (m : Mail) (k : IsCodec c) where
  mail_to_row-row_of :
      (s t : Text)
      → c.address_to_json m.from ≡ ok s
      → c.addresses_to_json m.to ≡ ok t
      → mail_to_row c m ≡ ok (row_of c m s t)
  unfolding mail_to_row
  mail_to_row-row_of s t p q = ground arith

  row_to_mail-row_of :
      (s t : Text)
      → InRange m
      → c.address_from_json s ≡ ok m.from
      → c.addresses_from_json t ≡ ok m.to
      → row_to_mail c (row_of c m s t) ≡ ok m
  unfolding row_to_mail
  row_to_mail-row_of s t v p q = ground (
    arith,
    k.uuid_back m.id,
    status_from_str-to_str m.status,
    k.time_back m.created_at,
    k.time_back m.updated_at,
    k.time_back m.next_attempt_at,
  )

-- Where the formats behave as documented, a mail with a counter below 2^32 and timestamps before
-- the year 10000 is written to a row, and is read back from that row unchanged.
pub row_to_mail-mail_to_row :
    (c : Codec) (m : Mail)
    → IsCodec c
    → InRange m
    → (r : Row) × (mail_to_row c m ≡ ok r) × (row_to_mail c r ≡ ok m)
row_to_mail-mail_to_row c m k v =
    let (s, ps, ds) = k.address_back m.from in
    let (t, pt, dt) = k.addresses_back m.to in
    (row_of c m s t, mail_to_row-row_of c m k s t ps pt, row_to_mail-row_of c m k s t v ds dt)
