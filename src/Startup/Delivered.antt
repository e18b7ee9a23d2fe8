-- ===== src/Startup/Delivered.antt =====
-- The daemon's dispatcher on the table of crates/queue-sqlite: what becomes of a mail whose time has
-- come.
use mathlib.Core.Option
use mathlib.Core.List.{Memᴰ}
use oxid_relay.Prelude.{
  ◌<◌, ◌≤◌, ◌≡◌, refl, sym, ap, ◌∙◌, Option, none, some, List, count, true, All, arith, ◌-◌,
}
use oxid_relay.Prelude.Text.{Text}
use oxid_relay.Prelude.Result.{Result, ok}
use oxid_relay.Message.{CoreError, Mail, sent}
use oxid_relay.Config.{Config, SmtpConfig}
use oxid_relay.Queue.Laws.{Delivery, completed, claimed}
use oxid_relay.Queue.Model.{is_due}
use oxid_relay.Queue.Model.Room.{is_open}
use oxid_relay.Queue.Row.{Codec, Row}
use oxid_relay.Queue.Row.RoundTrip.{IsCodec, InRange, horizon}
use oxid_relay.Queue.Refine.Holds.{Holds}
use oxid_relay.Queue.Sqlite.{find_row}
use oxid_relay.Queue.Instance.{State, sqlite_queue}
use oxid_relay.Queue.Instance.Rows.{sqlite_laws, view-sqlite_laws, valid-sqlite_laws}
use oxid_relay.Queue.Instance.Rows.Keys.{IsKeyed}
use oxid_relay.Queue.Instance.Rows.Reliable.{IsCalm, calm-Preserves, sqlite-Reliable}
use oxid_relay.Queue.Instance.Rows.Room.{fetch-Mem}
use oxid_relay.Queue.Instance.Rows.View.{row_delivery, status_of}
use oxid_relay.Dispatcher.{Inner, Transport, Host}
use oxid_relay.Dispatcher.Deliver.{transport_for}
use oxid_relay.Dispatcher.Tick.{Tick, Shared, IsDone}
use oxid_relay.Dispatcher.Tick.Begin.{begin, fetch, reclaimed, lease}
use oxid_relay.Dispatcher.Tick.Delivers.{tick-Delivers}
use oxid_relay.Dispatcher.Tick.Delivers.Stages.{Delivered-completed}
use oxid_relay.Dispatcher.Tick.Origin.{Gave}
use oxid_relay.Startup.{dispatcher, dispatcher_config}

pub found_row :
    (o : Option Row) (d : Delivery Text)
    → Option.map row_delivery o ≡ some d
    → (r : Row) × (o ≡ some r) × (row_delivery r ≡ d)
found_row none d h = absurd (cc)
found_row (some r) d h = (r, refl, cc)

abbrev pub IsSent : Row → Type 0
IsSent r = (status_of r.status ≡ sent) × (r.last_error ≡ none)

completed_row :
    (r : Row) (d : Delivery Text) (f : Delivery Text → Delivery Text)
    → f ≡ completed
    → row_delivery r ≡ f (claimed d)
    → IsSent r
completed_row r d f same shown =
    let final : row_delivery r ≡ completed (claimed d) = shown ∙ ap (λ g. g (claimed d)) same in
    (ap (λ (x : Delivery Text). x.status) final, ap (λ (x : Delivery Text). x.last_error) final)

module _ {W : Type 0} (host : Host W) (new_smtp : SmtpConfig → Result (Transport W) CoreError)
    (config : Config) (plugins : List (Text × Transport W)) (c : Codec) (k : IsCodec c) where
  abbrev relay : Inner (State Row) W
  relay = dispatcher new_smtp config (sqlite_queue c) plugins

  module _ (s : State Row) (w : W) (ms : List Mail) (m : Mail) where
    -- What is in the table and what the clocks show: mails in range, of which those that are still
    -- to be delivered fit one batch, with `m` among them, and its time has come.
    pub record Awaits : Type 0 where
      pub keyed : IsKeyed c s.table
      pub calm : IsCalm s
      pub held : Holds c s.table ms
      pub in_range : All InRange ms
      pub clock : (s.moments 0).now < horizon
      pub soon : (host.now w).0 < horizon
      pub room : count is_open ms ≤ config.dispatcher.batch_size
      pub here : Memᴰ m ms
      pub due : is_due (host.now w).0 m ≡ true

    handed : Awaits → (batch : List Mail) × ((fetch host relay (s, w)).0 ≡ ok batch) × Memᴰ m batch
    unfolding dispatcher dispatcher_config fetch reclaimed
    handed a =
        fetch-Mem c k s ms config.dispatcher.batch_size ((host.now w).0 - lease host relay)
          (host.now w).0 m a.calm a.held a.in_range (omega (arith, a.soon)) a.clock a.soon a.room
          a.due a.here

    -- A mail that the fetch hands out is sent, where its transport accepts it.
    pub handed-IsSent :
        (batch : List Mail) (via : Transport W) {t : Tick (State Row) W}
        → IsKeyed c s.table
        → IsCalm s
        → (fetch host relay (s, w)).0 ≡ ok batch
        → Memᴰ m batch
        → transport_for host relay m ≡ some via
        → ((v : W) → (via.send m v).0 ≡ ok tt)
        → (run : Shared host relay (begin host relay (s, w)) t) → IsDone t
        → Gave host relay run m (ok tt)
          × (r : Row) × (find_row c m.id t.queue.table ≡ some r)
          × IsSent r
    unfolding dispatcher
    handed-IsSent batch via {t} keyed calm fetched ours known accepts run done =
        let (d, waits, back, (f, answer, view)) =
          tick-Delivers host relay (sqlite_laws c k) m IsCalm (calm-Preserves c)
            (sqlite-Reliable c k m.id) s w batch (valid-sqlite_laws c k s keyed) calm fetched ours
            run done in
        let (same, gave) =
          Delivered-completed host relay (sqlite_laws c k) m run via known accepts answer in
        let (r, there, shown) =
          found_row (find_row c m.id t.queue.table) _
            (sym (view-sqlite_laws c k t.queue m.id) ∙ view) in
        (gave, r, there, completed_row r d f same shown)

    -- A mail in the table whose time has come is sent by the next tick. While the database does not
    -- fail, the open mails fit one batch, and the mail's transport accepts the mail whenever it is
    -- asked: once the tick is done, whatever else runs in it and arrives meanwhile, a step of the
    -- tick has given the mail to the transport, which accepted it, and the mail's row is there with
    -- the status `sent` and no error.
    pub tick-sends :
        (via : Transport W) {t : Tick (State Row) W}
        → Awaits
        → transport_for host relay m ≡ some via
        → ((v : W) → (via.send m v).0 ≡ ok tt)
        → (run : Shared host relay (begin host relay (s, w)) t) → IsDone t
        → (batch : List Mail) × ((fetch host relay (s, w)).0 ≡ ok batch)
          × Gave host relay run m (ok tt)
          × (r : Row) × (find_row c m.id t.queue.table ≡ some r)
          × IsSent r
    tick-sends via a known accepts run done =
        let (batch, fetched, ours) = handed a in
        let (gave, r, there, final) =
          handed-IsSent batch via a.keyed a.calm fetched ours known accepts run done in
        (batch, fetched, gave, r, there, final)
