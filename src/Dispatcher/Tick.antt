-- ===== src/Dispatcher/Tick.antt =====
-- `tick` of crates/dispatcher/src/lib.rs. The loop over the batch and the delivery tasks that it
-- spawns run at the same time; each call of the queue and of a transport is one step of one of them.
pub mod Begin
pub mod Limits
pub mod Progress
pub mod Final
pub mod Finish
pub mod Preserved
pub mod Sharing
pub mod Origin
pub mod Delivers
use oxid_relay.Prelude.{◌<◌, ◌≡◌, true, false, Option, none, some, List, [], ◌∷◌, ◌++◌, length}
use oxid_relay.Prelude.Result.{Result, is_ok}
use oxid_relay.Message.{CoreError, Mail}
use oxid_relay.Dispatcher.{Inner, Transport, Host}
use oxid_relay.Dispatcher.Deliver.{transport_for, no_transport, record_outcome}

-- A delivery task: before its call of the transport, and with the answer that it still has to record.
pub data Task : Type 0 where
  started : Mail → Task
  answered : Mail → Result (Unit {0}) CoreError → Task

-- `todo` is what is left of the batch; `claimed` the mail that the loop has marked and for which it
-- waits for a permit; `running` the tasks that hold one; `handles` every mail that got a task.
pub record Tick (S W : Type 0) : Type 0 where
  pub queue : S
  pub world : W
  pub todo : List Mail
  pub claimed : Option Mail
  pub running : List Task
  pub handles : List Mail

abbrev pub start : {S W : Type 0} → S → W → List Mail → Tick S W
start s w due = record {
  queue = s;
  world = w;
  todo = due;
  claimed = none;
  running = [];
  handles = [];
}

module _ {S W : Type 0} (host : Host W) (inner : Inner S W) where
  pub data Step (t : Tick S W) : Tick S W → Type 0 where
    -- `mark_sending` failed: `continue`.
    skip :
        (m : Mail) (rest : List Mail)
        → t.todo ≡ m ∷ rest
        → t.claimed ≡ none
        → is_ok (inner.queue.mark_sending m.id t.queue).0 ≡ false
        → Step t (record t { queue = (inner.queue.mark_sending m.id t.queue).1; todo = rest })
    claim :
        (m : Mail) (rest : List Mail)
        → t.todo ≡ m ∷ rest
        → t.claimed ≡ none
        → is_ok (inner.queue.mark_sending m.id t.queue).0 ≡ true
        → Step t (record t {
          queue = (inner.queue.mark_sending m.id t.queue).1;
          todo = rest;
          claimed = some m;
        })
    -- `acquire_owned` gives a permit while fewer than `concurrency` are held.
    spawn :
        (m : Mail)
        → t.claimed ≡ some m
        → length t.running < inner.config.concurrency
        → Step t (record t {
          claimed = none;
          running = started m ∷ t.running;
          handles = t.handles ++ m ∷ [];
        })
    -- A task without a transport buries its mail and ends.
    bury :
        (before after : List Task) (m : Mail)
        → t.running ≡ before ++ started m ∷ after
        → transport_for host inner m ≡ none
        → Step t (record t {
          queue = (inner.queue.mark_dead m.id (no_transport host inner m) t.queue).1;
          running = before ++ after;
        })
    send :
        (before after : List Task) (m : Mail) (transport : Transport W)
        → t.running ≡ before ++ started m ∷ after
        → transport_for host inner m ≡ some transport
        → Step t (record t {
          world = (transport.send m t.world).1;
          running = before ++ answered m (transport.send m t.world).0 ∷ after;
        })
    -- A task records its outcome and drops its permit.
    settle :
        (before after : List Task) (m : Mail) (r : Result (Unit {0}) CoreError)
        → t.running ≡ before ++ answered m r ∷ after
        → Step t (record t {
          queue = (record_outcome host inner m r (t.queue, t.world)).0;
          world = (record_outcome host inner m r (t.queue, t.world)).1;
          running = before ++ after;
        })

  -- What the tick may have come to.
  pub data Reach (t : Tick S W) : Tick S W → Type 0 where
    here : Reach t t
    next : {u v : Tick S W} → Reach t u → Step u v → Reach t v

  -- The same with mails that arrive between the steps, which other clients enqueue.
  pub data Shared (t : Tick S W) : Tick S W → Type 0 where
    starts : Shared t t
    steps : {u v : Tick S W} → Shared t u → Step u v → Shared t v
    arrives :
        {u : Tick S W} (m : Mail)
        → Shared t u
        → Shared t (record u { queue = (inner.queue.enqueue m u.queue).1 })

-- The loop is through the batch and every task has been joined.
pub record IsDone {S W : Type 0} (t : Tick S W) : Type 0 where
  pub todo : t.todo ≡ []
  pub claimed : t.claimed ≡ none
  pub running : t.running ≡ []
