-- ===== src/Examples/Ticking.antt =====
-- A whole tick over a queue with one due mail, whose transport refuses it.
use oxid_relay.Prelude.{◌⊎◌, ◌+◌, ◌≤◌, refl, Option, none, some, [], ◌∷◌, length, arith}
use oxid_relay.Prelude.Assoc.{get}
use oxid_relay.Prelude.Text.{codes, text_eq}
use oxid_relay.Prelude.Result.{Result, err}
use oxid_relay.Message.{CoreError, Mail, Time, dead}
use oxid_relay.Queue.Model.{fetch_due, due_mails, requeue_where, set_status}
use oxid_relay.Queue.Order.{order_by, insert_by}
use oxid_relay.Queue.Table.{update_where}
use oxid_relay.Queue.Laws.{Delivery, Recovered}
use oxid_relay.Queue.Sqlite.{execute}
use oxid_relay.Queue.Instance.{State}
use oxid_relay.Queue.Instance.Lawful.{valid-model_laws}
use oxid_relay.Queue.Model.Keys.{Distinct}
use oxid_relay.Dispatcher.Deliver.{transport_for, record_outcome}
use oxid_relay.Dispatcher.Tick.{
  Tick, started, answered, Step, claim, spawn, send, settle, Reach, here, next, start, IsDone,
  starts,
}
use oxid_relay.Dispatcher.Tick.Begin.{recover, begin, fetch, reclaimed, lease}
use oxid_relay.Dispatcher.Tick.Limits.{Reach-concurrency}
use oxid_relay.Dispatcher.Tick.Progress.Stages.{Progress}
use oxid_relay.Dispatcher.Tick.Finish.{steps, tick-finishes}
use oxid_relay.Dispatcher.Run.{Run, recovered, ticks, Kept, Run-keeps}
use oxid_relay.Dispatcher.Tick.Final.{tick-Progress}
use oxid_relay.Examples.Formats.{codec}
use oxid_relay.Examples.Storage.{due_mail, flying_mail}
use oxid_relay.Examples.Delivering.{host, inner, laws, stored, refusing}

-- A mail that is dead, next to the due one and the one in flight.
abbrev buried_mail : Mail
buried_mail = record due_mail { id = 9; status = dead; attempts = 5 }

abbrev relay : State Mail
relay = record stored { table = due_mail ∷ flying_mail ∷ buried_mail ∷ [] }

relay-Distinct : Distinct relay.table
relay-Distinct = (refl, (refl, (refl, tt)))

abbrev first : Tick (State Mail) Time
first = begin host inner (relay, 1000)

abbrev claimed_tick : Tick (State Mail) Time
claimed_tick = record first {
  queue = (inner.queue.mark_sending due_mail.id first.queue).1;
  todo = [];
  claimed = some due_mail;
}

abbrev spawned_tick : Tick (State Mail) Time
spawned_tick = record claimed_tick {
  claimed = none;
  running = started due_mail ∷ [];
  handles = due_mail ∷ [];
}

abbrev answer : Result (Unit {0}) CoreError
answer = err (CoreError.transport (codes "mailbox full"))

abbrev sent_tick : Tick (State Mail) Time
sent_tick = record spawned_tick {
  world = spawned_tick.world + 10;
  running = answered due_mail answer ∷ [];
}

abbrev done_tick : Tick (State Mail) Time
done_tick = record sent_tick {
  queue = (record_outcome host inner due_mail answer (sent_tick.queue, sent_tick.world)).0;
  world = (record_outcome host inner due_mail answer (sent_tick.queue, sent_tick.world)).1;
  running = [];
}

claims : Step host inner first claimed_tick
unfolding begin fetch reclaimed lease fetch_due due_mails requeue_where execute update_where
    order_by insert_by set_status
claims = claim due_mail [] refl refl refl

spawns : Step host inner claimed_tick spawned_tick
unfolding begin
spawns = spawn due_mail refl (omega arith)

sends : Step host inner spawned_tick sent_tick
unfolding transport_for get text_eq
sends = send [] [] due_mail refusing refl refl

settles : Step host inner sent_tick done_tick
settles = settle [] [] due_mail answer refl

run_sent : Reach host inner first sent_tick
run_sent = next (next (next here claims) spawns) sends

run : Reach host inner first done_tick
run = next run_sent settles

run-IsDone : IsDone done_tick
run-IsDone = record { todo = refl; claimed = refl; running = refl }

relay_valid : laws.valid relay
relay_valid = valid-model_laws codec relay relay-Distinct

tick-Progress_example :
    (now : Option (Delivery Time)) × Recovered (laws.view relay 7) now
    × Progress now (laws.view done_tick.queue 7)
tick-Progress_example = tick-Progress host inner laws 7 relay 1000 relay_valid run run-IsDone

-- The first steps of the run, from the loop's start.
half_run : Reach host inner (start first.queue 1001 (due_mail ∷ [])) sent_tick
unfolding begin fetch reclaimed lease fetch_due due_mails requeue_where execute update_where
    order_by insert_by
half_run = run_sent

Reach-concurrency_example : length sent_tick.running ≤ 8
Reach-concurrency_example = Reach-concurrency host inner first.queue 1001 (due_mail ∷ []) half_run

tick-finishes_example :
    (steps host inner half_run ≤ 4)
    × (IsDone sent_tick ⊎ ((u : Tick (State Mail) Time) × Step host inner sent_tick u))
tick-finishes_example =
    tick-finishes host inner first.queue 1001 (due_mail ∷ []) (omega arith) half_run

-- A queue with nothing left to do, through the recovery and one tick.
abbrev quiet : State Mail
quiet = record stored { table = buried_mail ∷ [] }

abbrev quiet_tick : Tick (State Mail) Time
quiet_tick =
    begin host inner ((recover host inner (quiet, 1000)).0, (recover host inner (quiet, 1000)).1)

quiet-IsDone : IsDone quiet_tick
unfolding begin fetch reclaimed lease fetch_due due_mails requeue_where execute update_where
    order_by insert_by recover
quiet-IsDone = record { todo = refl; claimed = refl; running = refl }

quiet-Run : Run host inner quiet 1000 quiet_tick.queue quiet_tick.world
quiet-Run = ticks quiet_tick recovered starts quiet-IsDone

Run-keeps_example :
    laws.valid quiet_tick.queue
    × Kept host inner laws 9 (laws.view quiet 9) (laws.view quiet_tick.queue 9)
Run-keeps_example =
    Run-keeps host inner laws 9 quiet 1000 (valid-model_laws codec quiet (refl, tt)) quiet-Run
