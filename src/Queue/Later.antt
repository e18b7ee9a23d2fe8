-- ===== src/Queue/Later.antt =====
-- What a queue may come to by calls of its operations, from any clients and in any order.
use oxid_relay.Prelude.{ℕ}
use oxid_relay.Prelude.Text.{Text}
use oxid_relay.Message.{Mail, MailId, Time}
use oxid_relay.Queue.{Queue}
use oxid_relay.Queue.Laws.{Preserves}

module _ {S : Type 0} (q : Queue S) where
  pub data Later (s : S) : S → Type 0 where
    now : Later s s
    enqueued : {t : S} (m : Mail) → Later s t → Later s (q.enqueue m t).1
    fetched : {t : S} (limit : ℕ) (at : Time) → Later s t → Later s (q.fetch_due limit at t).1
    claimed : {t : S} (i : MailId) → Later s t → Later s (q.mark_sending i t).1
    completed : {t : S} (i : MailId) → Later s t → Later s (q.mark_sent i t).1
    rescheduled :
        {t : S} (i : MailId) (error : Text) (retry_at : Time)
        → Later s t
        → Later s (q.mark_failed i error retry_at t).1
    buried : {t : S} (i : MailId) (error : Text) → Later s t → Later s (q.mark_dead i error t).1
    recovered : {t : S} → Later s t → Later s (q.requeue_sending t).1
    reclaimed :
        {t : S} (older_than : Time) → Later s t → Later s (q.requeue_stale_sending older_than t).1

  pub Later-Preserves : (P : S → Type 0) → Preserves q P → {s t : S} → P s → Later s t → P t
  Later-Preserves P keeps p now = p
  Later-Preserves P keeps p (enqueued m l) = keeps.enqueue m _ (Later-Preserves P keeps p l)
  Later-Preserves P keeps p (fetched limit at l) =
      keeps.fetch limit at _ (Later-Preserves P keeps p l)
  Later-Preserves P keeps p (claimed i l) = keeps.sending i _ (Later-Preserves P keeps p l)
  Later-Preserves P keeps p (completed i l) = keeps.sent i _ (Later-Preserves P keeps p l)
  Later-Preserves P keeps p (rescheduled i error retry_at l) =
      keeps.failed i error retry_at _ (Later-Preserves P keeps p l)
  Later-Preserves P keeps p (buried i error l) = keeps.dead i error _ (Later-Preserves P keeps p l)
  Later-Preserves P keeps p (recovered l) = keeps.recover _ (Later-Preserves P keeps p l)
  Later-Preserves P keeps p (reclaimed older_than l) =
      keeps.stale older_than _ (Later-Preserves P keeps p l)
