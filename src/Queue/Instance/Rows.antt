-- ===== src/Queue/Instance/Rows.antt =====
-- The laws that clients of the queue rely on, for the table of crates/queue-sqlite.
pub mod Keys
pub mod View
pub mod Batch
pub mod Payload
pub mod Reliable
pub mod Room
pub mod Held
use mathlib.Core.Option
use oxid_relay.Queue.Model.{is_mail}
use oxid_relay.Prelude.Result.{ok}
use oxid_relay.Prelude.{ℕ, ◌≤◌, ◌⊎◌, count, ◌≡◌, refl, true, Option, some, List, arith, inl, inr}
use oxid_relay.Prelude.Text.{Text}
use oxid_relay.Queue.Laws.{QueueLaws, Delivery, is_waiting}
use oxid_relay.Message.{Mail, MailId, Time, sending, sent, failed, dead}
use oxid_relay.Queue.Row.{Codec, Row}
use oxid_relay.Queue.Row.RoundTrip.{IsCodec}
use oxid_relay.Queue.Sqlite.{
  Moment, execute, fetch_due, set_row, mark_sending, mark_sent, mark_failed, mark_dead,
  requeue_sending, requeue_stale_sending, is_stale, is_sending,
}
use oxid_relay.Queue.Instance.{State, sqlite_queue}
use oxid_relay.Queue.Instance.Rows.Keys.{
  IsKeyed, set_status-IsKeyed, requeue_where-IsKeyed, enqueue-IsKeyed,
}
use oxid_relay.Queue.Instance.Rows.View.{
  row_view, row_delivery, row_view-set_status, row_view-enqueue, row_view-requeue_where,
  written_status,
}
use oxid_relay.Queue.Instance.Rows.Batch.{fetched_rows, both_left}

fetch_due-same :
    (c : Codec) (e : Moment) (limit : ℕ) (now : Time) (rows : List Row)
    → (fetch_due c e limit now rows).1 ≡ rows
unfolding fetch_due execute
fetch_due-same c e limit now rows = ground arith

stale_sending : (c : Codec) (t : Time) (r : Row) → is_stale c t r ≡ true → is_sending c r ≡ true
unfolding is_stale
stale_sending c t r h = both_left _ _ h

fetched_view :
    (c : Codec)
    → IsCodec c
    → (limit : ℕ) (now : Time) (s : State Row) (batch : List Mail) → IsKeyed c s.table
    → ((sqlite_queue c).fetch_due limit now s).0 ≡ ok batch
    → (j : MailId)
    → (count (is_mail j) batch ≤ 1)
      × ((count (is_mail j) batch ≡ 0)
          ⊎ ((d : Delivery Text) × (row_view c s.table j ≡ some d) × (is_waiting d.status ≡ true)))
fetched_view c k limit now s batch h e j =
    let (once, there) = fetched_rows c k limit now s.table h (s.moments 0) batch e j in
    (
      once,
      elim there [
        | inl none_left ↦ inl none_left
        | inr (r, found, waits) ↦ inr (row_delivery r, rw found refl, waits)
      ],
    )

-- The table keeps the laws, whatever the moments that its calls meet; the time of the next attempt
-- is known as the text that is written to the row.
pub sqlite_laws : (c : Codec) → IsCodec c → QueueLaws Text (sqlite_queue c)
unfolding set_row mark_sending mark_sent mark_failed mark_dead requeue_sending requeue_stale_sending
sqlite_laws c k = record {
  stamp = c.to_rfc3339;
  valid = λ s. IsKeyed c s.table;
  enqueue_valid = λ m s h. enqueue-IsKeyed c (s.moments 0) m s.table h;
  stale_valid = λ t s h. requeue_where-IsKeyed c (s.moments 0) (is_stale c t) s.table h;
  recover_valid = λ s h. requeue_where-IsKeyed c (s.moments 0) (is_sending c) s.table h;
  fetch_valid = λ limit now s h. rw (fetch_due-same c (s.moments 0) limit now s.table) h;
  sending_valid = λ i s h. set_status-IsKeyed c (s.moments 0) i _ _ _ _ s.table h;
  sent_valid = λ i s h. set_status-IsKeyed c (s.moments 0) i _ _ _ _ s.table h;
  failed_valid = λ i error retry_at s h. set_status-IsKeyed c (s.moments 0) i _ _ _ _ s.table h;
  dead_valid = λ i error s h. set_status-IsKeyed c (s.moments 0) i _ _ _ _ s.table h;
  fetched = λ limit now s batch h e j. fetched_view c k limit now s batch h e j;
  view = λ s j. row_view c s.table j;
  enqueue_view = λ m j d s known. row_view-enqueue c (s.moments 0) m j d s.table known;
  fetch_view = λ limit now s j. rw (fetch_due-same c (s.moments 0) limit now s.table) refl;
  sending_view = λ i j s.
      row_view-set_status c k (s.moments 0) i j _ _ _ _ _ s.table
        (λ r. ground (arith, written_status sending));
  sent_view = λ i j s.
      row_view-set_status c k (s.moments 0) i j _ _ _ _ _ s.table
        (λ r. ground (arith, written_status sent));
  failed_view = λ i j error retry_at s.
      row_view-set_status c k (s.moments 0) i j _ _ _ _ _ s.table
        (λ r. rw (written_status failed) refl);
  dead_view = λ i j error s.
      row_view-set_status c k (s.moments 0) i j _ _ _ _ _ s.table
        (λ r. rw (written_status dead) refl);
  stale_view = λ t j s.
      row_view-requeue_where c k (s.moments 0) (is_stale c t) (λ r h. stale_sending c t r h) j
        s.table;
  recover_view =
      λ j s. row_view-requeue_where c k (s.moments 0) (is_sending c) (λ r h. h) j s.table;
}

pub view-sqlite_laws :
    (c : Codec) (k : IsCodec c) (s : State Row) (j : MailId)
    → (sqlite_laws c k).view s j ≡ row_view c s.table j
unfolding sqlite_laws
view-sqlite_laws c k s j = refl

pub valid-sqlite_laws :
    (c : Codec) (k : IsCodec c) (s : State Row) → IsKeyed c s.table → (sqlite_laws c k).valid s
unfolding sqlite_laws
valid-sqlite_laws c k s h = h
