-- ===== src/Examples/Durable.antt =====
-- The daemon's dispatcher on a table with a dead mail and one that is to be tried again later.
use oxid_relay.Prelude.{All, ◌++◌, ◌≡◌, refl, none, [], ◌∷◌, map, List}
use oxid_relay.Prelude.Text.{text_eq, text_ltb}
use oxid_relay.Message.{Time, failed, dead}
use oxid_relay.Queue.Instance.{State, sqlite_queue}
use oxid_relay.Queue.Instance.Rows.Keys.{IsKeyed}
use oxid_relay.Queue.Instance.Rows.Payload.{Payload, payload}
use oxid_relay.Queue.Order.{order_by, insert_by}
use oxid_relay.Queue.Row.{Row, status_to_str}
use oxid_relay.Queue.Sqlite.{
  fetch_due, execute, is_due, decode_all, requeue_sending, requeue_stale_sending, requeue_where,
  is_stale, reset_row,
}
use oxid_relay.Queue.Table.{update_where}
use oxid_relay.Dispatcher.{Inner}
use oxid_relay.Dispatcher.Tick.{Tick, starts, IsDone}
use oxid_relay.Dispatcher.Tick.Begin.{recover, begin, fetch, reclaimed, lease}
use oxid_relay.Dispatcher.Run.{Run, recovered, ticks, arrives}
use oxid_relay.Startup.{dispatcher, dispatcher_config}
use oxid_relay.Startup.Durable.{Run-durable, Settled}
use oxid_relay.Examples.Formats.{codec, codec-IsCodec}
use oxid_relay.Examples.Delivering.{host}
use oxid_relay.Examples.Storage.{due_mail, row}
use oxid_relay.Examples.Starting.{config, new_smtp, plugins}

abbrev buried : Row
buried = row (record due_mail { id = 9; status = dead; attempts = 5 })

abbrev delayed : Row
delayed = row (record due_mail { id = 7; status = failed; attempts = 1; next_attempt_at = 90_000 })

abbrev table : State Row
table = record { table = buried ∷ delayed ∷ []; moments = λ n. record { now = 1000; fault = none } }

abbrev relay : Inner (State Row) Time
relay = dispatcher new_smtp config (sqlite_queue codec) plugins

table-IsKeyed : IsKeyed codec table.table
unfolding text_eq
table-IsKeyed = ((refl, (refl, tt)), ((9, refl), ((7, refl), tt)))

abbrev tick : Tick (State Row) Time
tick = begin host relay ((recover host relay (table, 1000)).0, (recover host relay (table, 1000)).1)

tick-IsDone : IsDone tick
unfolding begin fetch reclaimed lease recover dispatcher dispatcher_config fetch_due execute is_due
    decode_all requeue_sending requeue_stale_sending requeue_where is_stale reset_row update_where
    order_by insert_by text_eq text_ltb status_to_str
tick-IsDone = record { todo = refl; claimed = refl; running = refl }

-- Then a mail arrives.
abbrev after : State Row
after = (relay.queue.enqueue (record due_mail { id = 3 }) tick.queue).1

relay-Run : Run host relay table 1000 after tick.world
relay-Run = arrives (record due_mail { id = 3 }) (ticks tick recovered starts tick-IsDone)

Run-durable_example :
    (more : List Payload) × (map payload after.table ≡ map payload table.table ++ more)
    × All (Settled host new_smtp config plugins codec codec-IsCodec after) table.table
Run-durable_example =
    Run-durable host new_smtp config plugins codec codec-IsCodec table 1000 table-IsKeyed relay-Run
