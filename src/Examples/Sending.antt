-- ===== src/Examples/Sending.antt =====
-- A tick of the daemon's dispatcher over the table, with a transport that accepts what it gets.
use mathlib.Core.List.{Memᴰ}
use oxid_relay.Prelude.{◌+◌, ◌≡◌, refl, true, none, some, List, [], ◌∷◌, arith}
use oxid_relay.Prelude.Assoc.{get, insert}
use oxid_relay.Prelude.Text.{Text, codes, text_eq, text_ltb}
use oxid_relay.Prelude.Result.{Result, ok}
use oxid_relay.Message.{CoreError, Mail, Time}
use oxid_relay.Config.{SmtpConfig}
use oxid_relay.Queue.Laws.{QueueLaws, Preserves, Reliable, Delivery, is_waiting, Recovered, claimed}
use oxid_relay.Queue.Order.{order_by}
use oxid_relay.Queue.Row.{Row, mail_to_row, row_to_mail, status_to_str, status_from_str}
use oxid_relay.Queue.Sqlite.{
  find_row, fetch_due, is_due, requeue_stale_sending, mark_sending, set_status,
}
use oxid_relay.Queue.Instance.{State, sqlite_queue}
use oxid_relay.Queue.Instance.Rows.Reliable.{IsCalm, calm-Preserves, sqlite-Reliable}
use oxid_relay.Dispatcher.{Inner, Transport}
use oxid_relay.Dispatcher.Deliver.{transport_for}
use oxid_relay.Dispatcher.Tick.{IsDone, Tick, Shared}
use oxid_relay.Dispatcher.Tick.Begin.{begin, fetch}
use oxid_relay.Queue.Instance.Rows.{sqlite_laws, valid-sqlite_laws}
use oxid_relay.Dispatcher.Tick.Delivers.{tick-Delivers}
use oxid_relay.Dispatcher.Tick.Delivers.Stages.{Closed}
use oxid_relay.Dispatcher.Tick.Origin.{Gave}
use oxid_relay.Examples.OneMail.{delivered_tick, one_run}
use oxid_relay.Startup.{dispatcher}
use oxid_relay.Startup.Delivered.{Awaits, IsSent, tick-sends}
use oxid_relay.Examples.Delivering.{host}
use oxid_relay.Examples.Formats.{codec, codec-IsCodec}
use oxid_relay.Examples.Starting.{config}
use oxid_relay.Examples.Storage.{due_mail, row}

abbrev pub accepting : Transport Time
accepting = record { name = codes "smtp"; send = λ m w. (ok tt, w + 10) }

abbrev pub new_smtp : SmtpConfig → Result (Transport Time) CoreError
new_smtp smtp = ok accepting

abbrev stored : State Row
stored = record { table = row due_mail ∷ []; moments = λ n. record { now = 1000; fault = none } }

abbrev pub relay : Inner (State Row) Time
relay = dispatcher new_smtp config (sqlite_queue codec) []

abbrev first : Tick (State Row) Time
first = begin host relay (stored, 1000)

abbrev done_tick : Tick (State Row) Time
done_tick = delivered_tick host relay first due_mail accepting

smtp_found : transport_for host relay due_mail ≡ some accepting
unfolding transport_for dispatcher get insert
smtp_found = refl

finished : IsDone done_tick
unfolding begin
finished = record { todo = refl; claimed = refl; running = refl }

run : Shared host relay first done_tick
unfolding begin dispatcher fetch_due order_by requeue_stale_sending is_due text_eq status_to_str
    text_ltb row_to_mail status_from_str mark_sending set_status
run = one_run host relay first due_mail accepting refl refl refl (omega arith) smtp_found

awaits : Awaits host new_smtp config [] codec codec-IsCodec stored 1000 (due_mail ∷ []) due_mail
unfolding text_eq mail_to_row
awaits = record {
  keyed = ((refl, tt), ((7, refl), tt));
  calm = λ n. refl;
  held = (refl, tt);
  in_range = omega arith;
  clock = omega arith;
  soon = omega arith;
  room = omega arith;
  here = Memᴰ.head refl;
  due = refl;
}

tick-sends_example :
    (batch : List Mail) × ((fetch host relay (stored, 1000)).0 ≡ ok batch)
    × Gave host relay run due_mail (ok tt)
    × (r : Row) × (find_row codec 7 done_tick.queue.table ≡ some r)
    × IsSent r
tick-sends_example =
    tick-sends host new_smtp config [] codec codec-IsCodec stored 1000 (due_mail ∷ []) due_mail
      accepting awaits smtp_found (λ v. refl) run finished

relay_laws : QueueLaws Text relay.queue
unfolding dispatcher
relay_laws = sqlite_laws codec codec-IsCodec

relay_preserves : Preserves relay.queue IsCalm
unfolding dispatcher
relay_preserves = calm-Preserves codec

relay_reliable : Reliable relay_laws IsCalm 7
unfolding dispatcher relay_laws
relay_reliable = sqlite-Reliable codec codec-IsCodec 7

stored_valid : relay_laws.valid stored
unfolding relay_laws text_eq
stored_valid = valid-sqlite_laws codec codec-IsCodec stored ((refl, tt), ((7, refl), tt))

handed : (fetch host relay (stored, 1000)).0 ≡ ok (due_mail ∷ [])
unfolding fetch dispatcher fetch_due order_by requeue_stale_sending is_due text_eq status_to_str
    text_ltb row_to_mail status_from_str
handed = refl

tick-Delivers_example :
    (d : Delivery Text) × (is_waiting d.status ≡ true)
    × Recovered (relay_laws.view stored 7) (some d)
    × Closed host relay relay_laws due_mail run (claimed d) (relay_laws.view done_tick.queue 7)
tick-Delivers_example =
    tick-Delivers host relay relay_laws due_mail IsCalm relay_preserves relay_reliable stored 1000
      (due_mail ∷ []) stored_valid (λ n. refl) handed (Memᴰ.head refl) run finished
