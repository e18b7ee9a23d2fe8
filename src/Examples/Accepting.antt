-- ===== src/Examples/Accepting.antt =====
-- A message that the ingress accepts into the table, and calls of the queue that come later.
use oxid_relay.Prelude.{◌≡◌, ◌++◌, refl, false, List, is_empty, All, map}
use oxid_relay.Prelude.Assoc.{get}
use oxid_relay.Prelude.Text.{eq_ignore_ascii_case, trim}
use oxid_relay.Message.{validate, new_address, from_new}
use oxid_relay.Config.Routing.{is_active, resolve, is_reject, recipient_override}
use oxid_relay.Ingress.{Response, strip_brackets}
use oxid_relay.Ingress.Accept.{
  data_end, build_new_mail, fan_out, route, enqueue_targets, enqueue_target,
}
use oxid_relay.Ingress.Stored.{Entry}
use oxid_relay.Queue.Row.{Row, mail_to_row}
use oxid_relay.Queue.Instance.{State, sqlite_queue}
use oxid_relay.Queue.Instance.Enqueues.{sqlite_enqueue_laws}
use oxid_relay.Queue.Instance.Rows.Payload.{Payload, payload}
use oxid_relay.Queue.Later.{Later, now, claimed, recovered}
use oxid_relay.Queue.Sqlite.{enqueue}
use oxid_relay.Startup.Accepted.{data_end-durable}
use oxid_relay.Examples.Formats.{codec}
use oxid_relay.Examples.Receiving.{outside, ctx, used, row_state}

abbrev entered : State Row
entered = (data_end outside ctx (sqlite_queue codec) used (row_state, 1000)).1

accepted : (data_end outside ctx (sqlite_queue codec) used (row_state, 1000)).0 ≡ Response.ok
unfolding data_end build_new_mail fan_out route enqueue_targets enqueue_target is_active resolve get
    is_reject eq_ignore_ascii_case validate trim new_address strip_brackets recipient_override
    enqueue mail_to_row from_new
accepted = refl

-- The process stops while the new mail is claimed, and the next one recovers it.
abbrev restarted : State Row
restarted =
    ((sqlite_queue codec).requeue_sending ((sqlite_queue codec).mark_sending 1000 entered).1).1

restarted-Later : Later (sqlite_queue codec) entered restarted
restarted-Later = recovered (claimed 1000 now)

data_end-durable_example :
    (added : List Row) × (more : List Payload) × (map payload restarted.table
      ≡ map payload row_state.table ++ map payload added ++ more)
    × (is_empty added ≡ false)
    × All
        (Entry outside ctx
          (sqlite_queue codec)
          (sqlite_enqueue_laws codec)
          (strip_brackets used.envelope_from))
        added
data_end-durable_example =
    data_end-durable outside ctx codec used row_state 1000 accepted restarted-Later
