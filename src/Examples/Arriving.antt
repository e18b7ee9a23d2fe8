-- ===== src/Examples/Arriving.antt =====
-- A message that the ingress accepts into an empty table, and the tick that sends its mail.
use oxid_relay.Prelude.{
  ◌≤◌, ◌++◌, ◌≡◌, refl, none, some, List, [], ◌∷◌, All, is_empty, false, arith, count, inl, inr,
  Bool-cases, subst,
}
use oxid_relay.Prelude.Assoc.{get, insert}
use oxid_relay.Prelude.Text.{Text, codes, eq_ignore_ascii_case, trim, text_eq, text_ltb}
use oxid_relay.Prelude.Result.{ok}
use oxid_relay.Message.{Mail, Time, pending, validate, new_address, from_new}
use oxid_relay.Config.Routing.{is_active, resolve, is_reject, recipient_override}
use oxid_relay.Ingress.{Response, strip_brackets}
use oxid_relay.Ingress.Accept.{
  data_end, build_new_mail, fan_out, route, enqueue_targets, enqueue_target,
}
use oxid_relay.Queue.Order.{order_by}
use oxid_relay.Queue.Model.Room.{is_open}
use oxid_relay.Queue.Refine.Holds.{Holds}
use oxid_relay.Queue.Row.{Row, mail_to_row, row_to_mail, status_to_str, status_from_str}
use oxid_relay.Queue.Sqlite.{
  enqueue, fetch_due, is_due, requeue_stale_sending, mark_sending, set_status,
}
use oxid_relay.Queue.Instance.{State, sqlite_queue}
use oxid_relay.Dispatcher.Deliver.{transport_for}
use oxid_relay.Dispatcher.Tick.{IsDone, Tick, Shared}
use oxid_relay.Dispatcher.Tick.Begin.{begin}
use oxid_relay.Examples.OneMail.{delivered_tick, one_run}
use oxid_relay.Startup.{dispatcher}
use oxid_relay.Startup.Arrived.{Holding, Fits, Sent, data_end-Sent}
use oxid_relay.Examples.Delivering.{host}
use oxid_relay.Examples.Formats.{codec, codec-IsCodec, put_address, put_addresses}
use oxid_relay.Examples.Receiving.{outside, ctx, used}
use oxid_relay.Examples.Sending.{accepting, new_smtp, relay}
use oxid_relay.Examples.Starting.{config}

abbrev empty : State Row
empty = record { table = []; moments = λ n. record { now = 1000; fault = none } }

abbrev entered : State Row
entered = (data_end outside ctx (sqlite_queue codec) used (empty, 1000)).1

accepted : (data_end outside ctx (sqlite_queue codec) used (empty, 1000)).0 ≡ Response.ok
unfolding data_end build_new_mail fan_out route enqueue_targets enqueue_target is_active resolve get
    is_reject eq_ignore_ascii_case validate trim new_address strip_brackets recipient_override
    enqueue mail_to_row from_new
accepted = refl

abbrev arrived : Mail
arrived = record {
  id = 1000;
  from = record { email = codes "old@example.com"; name = none };
  to = record { email = codes "nobody@example.com"; name = none } ∷ [];
  subject = codes "old";
  body = codes "old";
  transport = some (codes "smtp");
  status = pending;
  attempts = 0;
  last_error = none;
  created_at = 1000;
  updated_at = 1000;
  next_attempt_at = 1000;
}

abbrev first : Tick (State Row) Time
first = begin host relay (entered, 2000)

abbrev done_tick : Tick (State Row) Time
done_tick = delivered_tick host relay first arrived accepting

smtp_found :
    (m : Mail) → m.transport ≡ some (codes "smtp") → transport_for host relay m ≡ some accepting
unfolding transport_for dispatcher get insert
smtp_found m e = rw e refl

finished : IsDone done_tick
unfolding begin
finished = record { todo = refl; claimed = refl; running = refl }

run : Shared host relay first done_tick
unfolding begin dispatcher fetch_due order_by requeue_stale_sending is_due text_eq status_to_str
    text_ltb row_to_mail status_from_str mark_sending set_status data_end build_new_mail fan_out
    route enqueue_targets enqueue_target is_active resolve get is_reject eq_ignore_ascii_case
    validate trim new_address strip_brackets recipient_override enqueue mail_to_row from_new
run =
    one_run host relay first arrived accepting refl refl refl (omega arith)
      (smtp_found arrived refl)

holding : Holding codec empty []
holding = record {
  keyed = (tt, tt);
  calm = λ n. refl;
  clocks = λ n. omega arith;
  held = tt;
  in_range = tt;
}

one_open : (m : Mail) → count is_open (m ∷ []) ≤ 64
one_open m = elim (Bool-cases (is_open m)) [ inl e ↦ ground arith | inr e ↦ ground arith ]

stored_row : Row
stored_row = record {
  id = 1000 ∷ [];
  sender = put_address arrived.from [];
  recipients = 1 ∷ put_addresses arrived.to;
  subject = arrived.subject;
  body = arrived.body;
  transport = arrived.transport;
  status = codes "pending";
  attempts = 0;
  last_error = none;
  created_at = 1000 ∷ [];
  updated_at = 1000 ∷ [];
  next_attempt_at = 1000 ∷ [];
}

entered_table : entered.table ≡ stored_row ∷ []
unfolding stored_row data_end build_new_mail fan_out route enqueue_targets enqueue_target is_active
    resolve get is_reject eq_ignore_ascii_case validate trim new_address strip_brackets
    recipient_override enqueue mail_to_row from_new status_to_str
entered_table = refl

row_created : (m : Mail) → mail_to_row codec m ≡ ok stored_row → m.created_at ≡ 1000
unfolding stored_row mail_to_row
row_created m h = ground arith

row_transport : (m : Mail) → mail_to_row codec m ≡ ok stored_row → m.transport ≡ some (codes "smtp")
unfolding stored_row mail_to_row
row_transport m h = ground arith

Fits-row :
    (sender : Text) (ns : List Mail)
    → Holds codec (stored_row ∷ []) ns
    → Fits outside ctx host new_smtp config [] codec codec-IsCodec sender 2000 ns
Fits-row sender [] h = absurd h
Fits-row sender (m ∷ n ∷ ns) h = absurd h.1
Fits-row sender (m ∷ []) h = record {
  early = (rw (row_created m h.0) (omega arith), tt);
  room = one_open m;
  accepted = (λ fresh. (accepting, smtp_found m (row_transport m h.0), λ u. refl), tt);
}

data_end-Sent_example :
    (added : List Row) × (entered.table ≡ [] ++ added)
    × (is_empty added ≡ false)
    × All
        (Sent outside ctx host new_smtp config [] codec codec-IsCodec
          (strip_brackets used.envelope_from)
          done_tick.queue)
        added
data_end-Sent_example =
    data_end-Sent outside ctx host new_smtp config [] codec codec-IsCodec used empty 1000 2000 []
      holding accepted (omega arith)
      (λ ns h.
        Fits-row (strip_brackets used.envelope_from) ns
          (subst (λ (rows : List Row). Holds codec rows ns) entered_table h))
      run finished
