-- ===== src/Queue/Refine/Batch.antt =====
-- What the table hands out for delivery.
use oxid_relay.Prelude.{ℕ, ◌<◌, ◌≡◌, none, List, All, arith}
use oxid_relay.Prelude.Result.{ok}
use oxid_relay.Message.{Mail, Time}
use oxid_relay.Queue.Row.{Codec, Row}
use oxid_relay.Queue.Row.RoundTrip.{IsCodec, InRange, horizon}
use oxid_relay.Queue.Sqlite
use oxid_relay.Queue.Sqlite.{Moment, execute}
use oxid_relay.Queue.Model
use oxid_relay.Queue.Model.{due_mails}
use oxid_relay.Queue.Model.Due.{IsBatch, due_mails-IsBatch}
use oxid_relay.Queue.Refine.Holds.{Holds}
use oxid_relay.Queue.Refine.Reads.{fetch_due-Refines}

-- Where the formats behave as documented, a fetch from a table that holds the mails `ms`, all in
-- range, at a time before the year 10000, that the database does not fail, answers with a batch: at
-- most `limit` mails, all pending or failed and due, the earliest due first. With some rest they
-- are exactly the due ones of `ms`; none of the rest is due earlier than any in the batch; and
-- there is a rest only at the limit.
pub fetch_due-IsBatch :
    (c : Codec) (k : IsCodec c) (rows : List Row) (ms : List Mail)
    → Holds c rows ms
    → (e : Moment) (limit : ℕ) (now : Time) → e.fault ≡ none
    → now < horizon
    → All InRange ms
    → (batch : List Mail) × ((Sqlite.fetch_due c e limit now rows).0 ≡ ok batch)
      × IsBatch limit now ms batch
unfolding Model.fetch_due execute
fetch_due-IsBatch c k rows ms held e limit now fine soon a = (
  due_mails limit now ms,
  ground (arith, (fetch_due-Refines c k rows ms held e limit now soon a).0),
  due_mails-IsBatch limit now ms,
)
