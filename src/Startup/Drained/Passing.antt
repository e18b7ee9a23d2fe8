-- ===== src/Startup/Drained/Passing.antt =====
-- What is known of a table of crates/queue-sqlite in which one mail waits and others are sent.
use mathlib.Core.Option
use oxid_relay.Prelude.{
  ℕ, ◌≤◌, ◌≡◌, ap, true, some, Option, List, count, length, All, All-weaken, ◌==◌,
}
use oxid_relay.Prelude.Text.{Text}
use oxid_relay.Message.{Mail, MailId, sent}
use oxid_relay.Queue.Laws.{Delivery, is_waiting}
use oxid_relay.Queue.Row.{Codec, Row}
use oxid_relay.Queue.Instance.{State, sqlite_queue}
use oxid_relay.Queue.Instance.Rows.View.{row_delivery, row_view, row_view-enqueue}
use oxid_relay.Startup.Advances.{Settled}

module _ (c : Codec) where
  -- The table shows the mail under the id as sent, with no error.
  abbrev pub Through : State Row → MailId → Type 0
  Through s i =
      (d : Delivery Text) × (row_view c s.table i ≡ some d)
      × (d.status ≡ sent)
      × (d.last_error ≡ Option.none)

  abbrev pub Waits : Mail → State Row → Type 0
  Waits m s =
      (d : Delivery Text) × (row_view c s.table m.id ≡ some d)
      × (is_waiting d.status ≡ true)
      × (d.next_attempt_at ≡ c.to_rfc3339 m.next_attempt_at)

  -- The mail waits, and that many other mails are sent.
  pub record Passed (m : Mail) (many : ℕ) (s : State Row) : Type 0 where
    pub waits : Waits m s
    pub ids : List MailId
    pub enough : length ids ≡ many
    pub once : (i : MailId) → count (λ n. n == i) ids ≤ 1
    pub through : All (Through s) ids

  pub Settled-Through : (m : Mail) (s : State Row) → Settled c s m → Through s m.id
  Settled-Through m s (r, found, (shown, fine)) =
      (row_delivery r, ap (Option.map row_delivery) found, shown, fine)

  pub Through-enqueue :
      (x : Mail) (s : State Row) (i : MailId)
      → Through s i
      → Through ((sqlite_queue c).enqueue x s).1 i
  Through-enqueue x s i (d, known, shown, fine) =
      (d, row_view-enqueue c (s.moments 0) x i d s.table known, shown, fine)

  pub Passed-enqueue :
      (m x : Mail) (many : ℕ) (s : State Row)
      → Passed m many s
      → Passed m many ((sqlite_queue c).enqueue x s).1
  Passed-enqueue m x many s p =
      let (d, known, waiting, time) = p.waits in
      record {
        waits = (d, row_view-enqueue c (s.moments 0) x m.id d s.table known, waiting, time);
        ids = p.ids;
        enough = p.enough;
        once = p.once;
        through =
            All-weaken (Through s) (Through ((sqlite_queue c).enqueue x s).1) (Through-enqueue x s)
              p.ids p.through;
      }
