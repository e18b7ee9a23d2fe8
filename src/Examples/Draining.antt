-- ===== src/Examples/Draining.antt =====
-- Two ticks with a batch of one, over a table with two mails whose time has come.
use mathlib.Core.List.{Memᴰ}
use oxid_relay.Prelude.{◌≡◌, refl, subst, none, some, [], ◌∷◌, arith, length}
use oxid_relay.Prelude.Text.{text_eq, text_ltb}
use oxid_relay.Message.{Mail, Time, sent}
use oxid_relay.Queue.Order.{order_by, insert_by}
use oxid_relay.Queue.Row.{Row, mail_to_row, row_to_mail, status_to_str, status_from_str}
use oxid_relay.Queue.Sqlite.{
  find_row, set_row, no_later, fetch_due, is_due, requeue_stale_sending, mark_sending, mark_sent,
  set_status,
}
use oxid_relay.Queue.Instance.{State}
use oxid_relay.Dispatcher.Deliver.{record_outcome, transport_for}
use oxid_relay.Dispatcher.Tick.{IsDone, Tick, Shared}
use oxid_relay.Dispatcher.Tick.Begin.{begin}
use oxid_relay.Examples.OneMail.{delivered_tick, one_run}
use oxid_relay.Startup.{dispatcher}
use oxid_relay.Startup.Advances.{Serves}
use oxid_relay.Startup.Delivered.{IsSent}
use oxid_relay.Startup.Drained.{Ticks, starts, ticks, Ticks-sends}
use oxid_relay.Examples.Advancing.{
  config, relay, late_mail, two_mails, stored, done_tick, run, finished, serves, due_served,
  late_served,
}
use oxid_relay.Examples.Delivering.{host}
use oxid_relay.Examples.Formats.{codec, codec-IsCodec}
use oxid_relay.Examples.Sending.{accepting, new_smtp}
use oxid_relay.Examples.Storage.{due_mail, row}

abbrev sent_mail : Mail
sent_mail = record due_mail { status = sent; updated_at = 1000 }

-- What the first tick leaves.
abbrev half : State Row
half = record {
  table = row late_mail ∷ row sent_mail ∷ [];
  moments = λ n. record { now = 1000; fault = none };
}

halfway : done_tick.queue ≡ half
unfolding begin dispatcher fetch_due order_by insert_by requeue_stale_sending is_due no_later
    text_eq status_to_str text_ltb row_to_mail status_from_str mark_sending mark_sent set_status
    set_row record_outcome
halfway = refl

abbrev first : Tick (State Row) Time
first = begin host relay (half, 2000)

abbrev last_tick : Tick (State Row) Time
last_tick = delivered_tick host relay first late_mail accepting

last_finished : IsDone last_tick
unfolding begin
last_finished = record { todo = refl; claimed = refl; running = refl }

last_run : Shared host relay first last_tick
unfolding begin dispatcher fetch_due order_by insert_by requeue_stale_sending is_due no_later
    text_eq status_to_str text_ltb row_to_mail status_from_str mark_sending set_status
last_run = one_run host relay first late_mail accepting refl refl refl (omega arith) late_served

sent_served : transport_for host relay sent_mail ≡ some accepting
unfolding transport_for
sent_served = unfold transport_for in due_served

last_serves :
    Serves host new_smtp config [] codec codec-IsCodec half 2000 (late_mail ∷ sent_mail ∷ [])
unfolding text_eq mail_to_row
last_serves = record {
  keyed = ((refl, (refl, tt)), ((9, refl), ((7, refl), tt)));
  calm = λ n. refl;
  held = (refl, (refl, tt));
  in_range = omega arith;
  clock = omega arith;
  soon = omega arith;
  served = ((accepting, late_served, λ x v. refl), ((accepting, sent_served, λ x v. refl), tt));
}

one : Ticks host new_smtp config [] codec codec-IsCodec late_mail stored 1 half
one =
    subst (Ticks host new_smtp config [] codec codec-IsCodec late_mail stored 1) halfway
      (ticks 1000 two_mails done_tick starts serves (omega arith) run finished)

two : Ticks host new_smtp config [] codec codec-IsCodec late_mail stored 2 last_tick.queue
two =
    ticks 2000 (late_mail ∷ sent_mail ∷ []) last_tick one last_serves (omega arith) last_run
      last_finished

size : length last_tick.queue.table ≡ 2
unfolding begin dispatcher fetch_due order_by insert_by requeue_stale_sending is_due no_later
    text_eq status_to_str text_ltb row_to_mail status_from_str mark_sending mark_sent set_status
    record_outcome
size = refl

Ticks-sends_example : (r : Row) × (find_row codec 9 last_tick.queue.table ≡ some r) × IsSent r
Ticks-sends_example =
    Ticks-sends host new_smtp config [] codec codec-IsCodec late_mail stored two_mails serves.keyed
      serves.held (Memᴰ.head refl) (omega arith) refl two (omega (arith, size))
