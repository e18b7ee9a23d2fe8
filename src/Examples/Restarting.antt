-- ===== src/Examples/Restarting.antt =====
-- The daemon started on a table with a mail that the process before had in flight.
use mathlib.Core.List.Memᴰ
use oxid_relay.Prelude.{◌≡◌, refl, none, some, List, [], ◌∷◌, arith}
use oxid_relay.Prelude.Assoc.{get, insert}
use oxid_relay.Prelude.Text.{text_eq, text_ltb}
use oxid_relay.Prelude.Result.{ok}
use oxid_relay.Message.{Mail, Time, pending}
use oxid_relay.Queue.Order.{order_by}
use oxid_relay.Queue.Row.{Row, mail_to_row, row_to_mail, status_to_str, status_from_str}
use oxid_relay.Queue.Sqlite.{
  find_row, fetch_due, is_due, requeue_stale_sending, requeue_sending, mark_sending, set_status,
}
use oxid_relay.Queue.Instance.{State}
use oxid_relay.Dispatcher.Deliver.{transport_for}
use oxid_relay.Dispatcher.Tick.{IsDone, Tick, Shared}
use oxid_relay.Dispatcher.Tick.Begin.{begin, fetch, recover}
use oxid_relay.Dispatcher.Tick.Origin.{Gave}
use oxid_relay.Examples.OneMail.{delivered_tick, one_run}
use oxid_relay.Startup.{dispatcher}
use oxid_relay.Startup.Delivered.{IsSent}
use oxid_relay.Startup.Restarted.{Remains, restart-sends}
use oxid_relay.Examples.Delivering.{host}
use oxid_relay.Examples.Formats.{codec, codec-IsCodec}
use oxid_relay.Examples.Sending.{accepting, new_smtp, relay}
use oxid_relay.Examples.Starting.{config}
use oxid_relay.Examples.Storage.{flying_mail, row}

abbrev left : State Row
left = record { table = row flying_mail ∷ []; moments = λ n. record { now = 1000; fault = none } }

-- The mail as the first tick gets it.
abbrev again : Mail
again = record flying_mail { status = pending; updated_at = 1000 }

abbrev first : Tick (State Row) Time
first = begin host relay ((recover host relay (left, 0)).0, 2000)

abbrev done_tick : Tick (State Row) Time
done_tick = delivered_tick host relay first again accepting

smtp_found : transport_for host relay again ≡ some accepting
unfolding transport_for dispatcher get insert
smtp_found = refl

finished : IsDone done_tick
unfolding begin
finished = record { todo = refl; claimed = refl; running = refl }

run : Shared host relay first done_tick
unfolding begin recover dispatcher fetch_due order_by requeue_stale_sending requeue_sending is_due
    text_eq status_to_str text_ltb row_to_mail status_from_str mark_sending set_status
run = one_run host relay first again accepting refl refl refl (omega arith) smtp_found

remains :
    Remains host new_smtp config [] codec codec-IsCodec left 2000 (flying_mail ∷ []) flying_mail
unfolding text_eq mail_to_row
remains = record {
  keyed = ((refl, tt), ((8, refl), tt));
  calm = λ n. refl;
  held = (refl, tt);
  in_range = omega arith;
  clock = omega arith;
  clock_later = omega arith;
  soon = omega arith;
  room = omega arith;
  here = Memᴰ.head refl;
  live = refl;
  time = omega arith;
}

restart-sends_example :
    (batch : List Mail) × ((fetch host relay ((recover host relay (left, 0)).0, 2000)).0 ≡ ok batch)
    × Gave host relay run again (ok tt)
    × (r : Row) × (find_row codec 8 done_tick.queue.table ≡ some r)
    × IsSent r
restart-sends_example =
    restart-sends host new_smtp config [] codec codec-IsCodec left 2000 (flying_mail ∷ [])
      flying_mail 0 accepting remains smtp_found (λ v. refl) run finished
