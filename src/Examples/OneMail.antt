-- ===== src/Examples/OneMail.antt =====
-- A tick that has one mail to send, from its head to its end.
use oxid_relay.Prelude.{◌<◌, ◌≡◌, refl, true, none, some, [], ◌∷◌, ◌++◌, length}
use oxid_relay.Prelude.Result.{is_ok}
use oxid_relay.Message.{Mail}
use oxid_relay.Dispatcher.{Inner, Transport, Host}
use oxid_relay.Dispatcher.Deliver.{transport_for, record_outcome}
use oxid_relay.Dispatcher.Tick.{Tick, Shared, answered, claim, spawn, send, settle, starts, steps}

module _ {S W : Type 0} (host : Host W) (inner : Inner S W) (first : Tick S W) (m : Mail)
    (via : Transport W) where
  abbrev answered_tick : Tick S W
  answered_tick = record first {
    queue = (inner.queue.mark_sending m.id first.queue).1;
    todo = [];
    claimed = none;
    world = (via.send m first.world).1;
    running = answered m (via.send m first.world).0 ∷ first.running;
    handles = first.handles ++ m ∷ [];
  }

  -- After the mail was claimed, spawned, sent and settled.
  abbrev pub delivered_tick : Tick S W
  delivered_tick =
      let (queue, world) =
        record_outcome host inner m (via.send m first.world).0
          (answered_tick.queue, answered_tick.world) in
      record answered_tick { queue = queue; world = world; running = first.running }

  pub one_run :
      first.todo ≡ m ∷ []
      → first.claimed ≡ none
      → is_ok (inner.queue.mark_sending m.id first.queue).0 ≡ true
      → length first.running < inner.config.concurrency
      → transport_for host inner m ≡ some via
      → Shared host inner first delivered_tick
  one_run only free marked room known =
      steps
        (steps (steps (steps starts (claim m [] only free marked)) (spawn m refl room))
          (send [] first.running m via refl known))
        (settle [] first.running m (via.send m first.world).0 refl)
