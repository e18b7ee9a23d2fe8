-- ===== src/Examples/Storage.antt =====
-- The queue on two mails, one due and one in flight.
use oxid_relay.Prelude.{◌≡◌, refl, true, none, some, List, [], ◌∷◌, All, arith}
use oxid_relay.Prelude.Text.{codes}
use oxid_relay.Prelude.Result.{ok}
use oxid_relay.Message.{NewMail, Mail, pending, sending, failed}
use oxid_relay.Queue.Row.{Row, mail_to_row, row_to_mail}
use oxid_relay.Queue.Row.RoundTrip.{InRange, row_of, row_to_mail-mail_to_row}
use oxid_relay.Queue.Sqlite
use oxid_relay.Queue.Sqlite.{Moment}
use oxid_relay.Queue.Model
use oxid_relay.Queue.Model.Due.{IsBatch}
use oxid_relay.Queue.Model.Keys.{Distinct}
use oxid_relay.Queue.Refine.Batch.{fetch_due-IsBatch}
use oxid_relay.Queue.Refine.Holds.{Holds}
use oxid_relay.Queue.Refine.Writes.{Refines, set_status-Refines, enqueue-Refines}
use oxid_relay.Examples.Formats.{codec, codec-IsCodec, put_address, put_addresses}

abbrev pub payload : NewMail
payload = record {
  from = record { email = codes "app@example.com"; name = none };
  to = record { email = codes "ops@example.com"; name = none } ∷ [];
  subject = codes "Disk full";
  body = codes "The disk is full.";
  transport = none;
}

abbrev pub due_mail : Mail
due_mail = record {
  id = 7;
  from = payload.from;
  to = payload.to;
  subject = payload.subject;
  body = payload.body;
  transport = none;
  status = pending;
  attempts = 0;
  last_error = none;
  created_at = 100;
  updated_at = 100;
  next_attempt_at = 100;
}

abbrev pub flying_mail : Mail
flying_mail = record due_mail { id = 8; status = sending; attempts = 2 }

abbrev pub mails : List Mail
mails = due_mail ∷ flying_mail ∷ []

abbrev pub row : Mail → Row
row m = row_of codec m (put_address m.from []) (1 ∷ put_addresses m.to)

abbrev pub rows : List Row
rows = row due_mail ∷ row flying_mail ∷ []

abbrev pub calm : Moment
calm = record { now = 500; fault = none }

holds : Holds codec rows mails
unfolding mail_to_row
holds = (refl, (refl, tt))

in_range : All InRange mails
in_range = omega arith

pub distinct : Distinct mails
distinct = (refl, (refl, tt))

row_to_mail-mail_to_row_example :
    (r : Row) × (mail_to_row codec flying_mail ≡ ok r) × (row_to_mail codec r ≡ ok flying_mail)
row_to_mail-mail_to_row_example =
    row_to_mail-mail_to_row codec flying_mail codec-IsCodec (omega arith)

fetch_due-IsBatch_example :
    (batch : List Mail) × ((Sqlite.fetch_due codec calm 5 300 rows).0 ≡ ok batch)
    × IsBatch 5 300 mails batch
fetch_due-IsBatch_example =
    fetch_due-IsBatch codec codec-IsCodec rows mails holds calm 5 300 refl (omega arith) in_range

set_status-Refines_example :
    Refines codec
      (Sqlite.set_status codec calm 8 failed (some (codes "busy")) true (some 900) rows)
      (Model.set_status codec calm 8 failed (some (codes "busy")) true (some 900) mails)
set_status-Refines_example =
    set_status-Refines codec codec-IsCodec rows mails holds calm 8 failed (some (codes "busy")) true
      (some 900)

enqueue-Refines_example :
    Refines codec
      (Sqlite.enqueue codec calm due_mail rows)
      (Model.enqueue codec calm due_mail mails)
enqueue-Refines_example = enqueue-Refines codec codec-IsCodec rows mails holds calm due_mail
