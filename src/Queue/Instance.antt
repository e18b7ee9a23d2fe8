-- ===== src/Queue/Instance.antt =====
-- The two queues: the table of crates/queue-sqlite and the specification. A queue's state is its
-- table and the moments that its calls will meet, one each.
pub mod Lawful
pub mod Enqueues
pub mod Rows
use oxid_relay.Prelude.{ℕ, suc, List}
use oxid_relay.Prelude.Result.{Result}
use oxid_relay.Message.{CoreError, Mail}
use oxid_relay.Queue.{Queue, Op}
use oxid_relay.Queue.Row.{Codec, Row}
use oxid_relay.Queue.Sqlite
use oxid_relay.Queue.Sqlite.{Moment}
use oxid_relay.Queue.Model
use oxid_relay.Queue.Model.{in_flight, is_stale}
use oxid_relay.Message.{sending, sent, failed, dead}
use oxid_relay.Prelude.{none, some, true, false}

pub record State (A : Type 0) : Type 0 where
  pub table : List A
  pub moments : ℕ → Moment

abbrev pub call : {A B : Type 0} → (Moment → List A → Result B CoreError × List A) → Op (State A) B
call f s = (
  (f (s.moments 0) s.table).0,
  record { table = (f (s.moments 0) s.table).1; moments = λ n. s.moments (suc n) },
)

abbrev pub sqlite_queue : Codec → Queue (State Row)
sqlite_queue c = record {
  enqueue = λ m. call (λ e. Sqlite.enqueue c e m);
  fetch_due = λ limit now. call (λ e. Sqlite.fetch_due c e limit now);
  mark_sending = λ i. call (λ e. Sqlite.mark_sending c e i);
  mark_sent = λ i. call (λ e. Sqlite.mark_sent c e i);
  mark_failed = λ i error retry_at. call (λ e. Sqlite.mark_failed c e i error retry_at);
  mark_dead = λ i error. call (λ e. Sqlite.mark_dead c e i error);
  requeue_sending = call (λ e. Sqlite.requeue_sending c e);
  requeue_stale_sending = λ t. call (λ e. Sqlite.requeue_stale_sending c e t);
  get = λ i. call (λ e. Sqlite.get c e i);
}

abbrev pub model_queue : Codec → Queue (State Mail)
model_queue c = record {
  enqueue = λ m. call (λ e. Model.enqueue c e m);
  fetch_due = λ limit now. call (λ e. Model.fetch_due e limit now);
  mark_sending = λ i. call (λ e. Model.set_status c e i sending none false none);
  mark_sent = λ i. call (λ e. Model.set_status c e i sent none false none);
  mark_failed = λ i error retry_at.
      call (λ e. Model.set_status c e i failed (some error) true (some retry_at));
  mark_dead = λ i error. call (λ e. Model.set_status c e i dead (some error) true none);
  requeue_sending = call (λ e. Model.requeue_where e (λ (m : Mail). in_flight m.status));
  requeue_stale_sending = λ t. call (λ e. Model.requeue_where e (is_stale t));
  get = λ i. call (λ e. Model.get c e i);
}
