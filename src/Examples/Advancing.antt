-- ===== src/Examples/Advancing.antt =====
-- A tick with a batch of one, over a table with two mails whose time has come.
use mathlib.Core.List.{Memᴰ}
use oxid_relay.Prelude.{◌≤◌, ◌≡◌, ◌⊎◌, refl, none, some, List, [], ◌∷◌, All, count, arith}
use oxid_relay.Prelude.Assoc.{get, insert}
use oxid_relay.Prelude.Text.{text_eq, text_ltb}
use oxid_relay.Prelude.Result.{ok}
use oxid_relay.Message.{Mail, MailId, Time}
use oxid_relay.Config.{Config}
use oxid_relay.Queue.Order.{order_by, insert_by}
use oxid_relay.Queue.Model.{is_mail}
use oxid_relay.Queue.Model.Choice.{Before}
use oxid_relay.Queue.Row.{Row, mail_to_row, row_to_mail, status_to_str, status_from_str}
use oxid_relay.Queue.Sqlite.{
  no_later, fetch_due, is_due, requeue_stale_sending, mark_sending, set_status,
}
use oxid_relay.Queue.Instance.{State, sqlite_queue}
use oxid_relay.Queue.Instance.Rows.View.{row_view}
use oxid_relay.Dispatcher.{Inner}
use oxid_relay.Dispatcher.Deliver.{transport_for}
use oxid_relay.Dispatcher.Tick.{IsDone, Tick, Shared}
use oxid_relay.Dispatcher.Tick.Begin.{begin, fetch}
use oxid_relay.Examples.OneMail.{delivered_tick, one_run}
use oxid_relay.Startup.{dispatcher}
use oxid_relay.Startup.Advances.{Serves, Settled, tick-Advances}
use oxid_relay.Examples.Delivering.{host}
use oxid_relay.Examples.Formats.{codec, codec-IsCodec}
use oxid_relay.Examples.Sending.{accepting, new_smtp}
use oxid_relay.Examples.Starting
use oxid_relay.Examples.Storage.{due_mail, row}

abbrev pub config : Config
config = record Starting.config {
  dispatcher = record Starting.config.dispatcher { batch_size = 1 };
}

abbrev pub relay : Inner (State Row) Time
relay = dispatcher new_smtp config (sqlite_queue codec) []

abbrev pub late_mail : Mail
late_mail = record due_mail { id = 9; next_attempt_at = 200 }

abbrev pub two_mails : List Mail
two_mails = late_mail ∷ due_mail ∷ []

abbrev pub stored : State Row
stored = record {
  table = row late_mail ∷ row due_mail ∷ [];
  moments = λ n. record { now = 1000; fault = none };
}

abbrev first : Tick (State Row) Time
first = begin host relay (stored, 1000)

abbrev pub done_tick : Tick (State Row) Time
done_tick = delivered_tick host relay first due_mail accepting

pub due_served : transport_for host relay due_mail ≡ some accepting
unfolding transport_for dispatcher get insert
due_served = refl

pub late_served : transport_for host relay late_mail ≡ some accepting
unfolding transport_for dispatcher get insert
late_served = refl

pub finished : IsDone done_tick
unfolding begin
finished = record { todo = refl; claimed = refl; running = refl }

pub run : Shared host relay first done_tick
unfolding begin dispatcher fetch_due order_by insert_by requeue_stale_sending is_due no_later
    text_eq status_to_str text_ltb row_to_mail status_from_str mark_sending set_status
run = one_run host relay first due_mail accepting refl refl refl (omega arith) due_served

pub serves : Serves host new_smtp config [] codec codec-IsCodec stored 1000 two_mails
unfolding text_eq mail_to_row
serves = record {
  keyed = ((refl, (refl, tt)), ((9, refl), ((7, refl), tt)));
  calm = λ n. refl;
  held = (refl, (refl, tt));
  in_range = omega arith;
  clock = omega arith;
  soon = omega arith;
  served = ((accepting, late_served, λ x v. refl), ((accepting, due_served, λ x v. refl), tt));
}

tick-Advances_example :
    Settled codec done_tick.queue late_mail
    ⊎ ((row_view codec done_tick.queue.table 9 ≡ row_view codec stored.table 9)
        × (sent_now : List Mail) × ((fetch host relay (stored, 1000)).0 ≡ ok sent_now)
        × Before 1 late_mail sent_now
        × ((j : MailId) → count (is_mail j) sent_now ≤ 1)
        × All (Settled codec done_tick.queue) sent_now)
tick-Advances_example =
    tick-Advances host new_smtp config [] codec codec-IsCodec stored 1000 two_mails late_mail
      (Memᴰ.head refl) refl serves run finished
