-- ===== src/Startup/Restarted.antt =====
-- The daemon's dispatcher started on the table of crates/queue-sqlite: what becomes of the mails that
-- the process before left, also those in flight.
use mathlib.Core.List.{Memᴰ}
use oxid_relay.Prelude.{
  ◌<◌, ◌≤◌, ◌≡◌, ap, ◌∙◌, some, List, count, true, All, arith, suc, subst, Bool,
}
use oxid_relay.Prelude.Text.{Text}
use oxid_relay.Prelude.Result.{Result, ok}
use oxid_relay.Message.{CoreError, Mail}
use oxid_relay.Config.{Config, SmtpConfig}
use oxid_relay.Queue.Model.{is_due, in_flight, reset_mail}
use oxid_relay.Queue.Table.{update_where}
use oxid_relay.Queue.Model.Room.{is_open, after_reset, count-reset, reset-Mem, reset-InRange}
use oxid_relay.Queue.Refine.Writes.{requeue_sending-Refines}
use oxid_relay.Queue.Row.{Codec, Row}
use oxid_relay.Queue.Row.RoundTrip.{IsCodec, InRange, horizon}
use oxid_relay.Queue.Refine.Holds.{Holds}
use oxid_relay.Queue.Sqlite.{find_row, requeue_sending, is_sending}
use oxid_relay.Queue.Instance.{State, sqlite_queue}
use oxid_relay.Queue.Instance.Rows.Keys.{IsKeyed, requeue_where-IsKeyed}
use oxid_relay.Queue.Instance.Rows.Reliable.{IsCalm}
use oxid_relay.Queue.Instance.Rows.Room.{requeued}
use oxid_relay.Dispatcher.{Inner, Transport, Host}
use oxid_relay.Dispatcher.Deliver.{transport_for}
use oxid_relay.Dispatcher.Tick.{Tick, Shared, IsDone}
use oxid_relay.Dispatcher.Tick.Begin.{begin, recover, fetch}
use oxid_relay.Dispatcher.Tick.Origin.{Gave}
use oxid_relay.Startup.{dispatcher}
use oxid_relay.Startup.Delivered.{Awaits, IsSent, tick-sends}

module _ {W : Type 0} (host : Host W) (new_smtp : SmtpConfig → Result (Transport W) CoreError)
    (config : Config) (plugins : List (Text × Transport W)) (c : Codec) (k : IsCodec c) where
  abbrev relay : Inner (State Row) W
  relay = dispatcher new_smtp config (sqlite_queue c) plugins

  -- What the table holds: as for a tick, but the mail may be in flight, from the process before.
  module _ (s : State Row) (w : W) (ms : List Mail) (m : Mail) where
    pub record Remains : Type 0 where
      pub keyed : IsKeyed c s.table
      pub calm : IsCalm s
      pub held : Holds c s.table ms
      pub in_range : All InRange ms
      pub clock : (s.moments 0).now < horizon
      pub clock_later : (s.moments 1).now < horizon
      pub soon : (host.now w).0 < horizon
      pub room : count is_open ms ≤ config.dispatcher.batch_size
      pub here : Memᴰ m ms
      pub live : is_open m ≡ true
      pub time : m.next_attempt_at ≤ (host.now w).0

    abbrev flying : Mail → Bool
    flying x = in_flight x.status

    -- The mail after the recovery.
    abbrev pub back : Mail
    back = after_reset flying (s.moments 0).now m

    same_id : m.id ≡ back.id
    same_id = ground arith

    back_due :
        is_open m ≡ true → m.next_attempt_at ≤ (host.now w).0 → is_due (host.now w).0 back ≡ true
    back_due live time = ground arith

    recovered-Awaits :
        (w' : W)
        → Remains
        → Awaits host new_smtp config plugins c k
            (recover host relay (s, w')).0
            w
            (update_where flying (reset_mail (s.moments 0).now) ms)
            back
    unfolding recover dispatcher requeue_sending
    recovered-Awaits w' a = record {
      keyed = requeue_where-IsKeyed c (s.moments 0) (is_sending c) s.table a.keyed;
      calm = λ n. a.calm (suc n);
      held =
          subst (Holds c ((sqlite_queue c).requeue_sending s).1.table)
            (requeued (s.moments 0) flying ms (a.calm 0))
            (requeue_sending-Refines c k s.table ms a.held (s.moments 0)).1;
      in_range = reset-InRange flying (s.moments 0).now a.clock ms a.in_range;
      clock = a.clock_later;
      soon = a.soon;
      room = omega (
        arith,
        a.room,
        count-reset flying (s.moments 0).now (λ (x : Mail) (h : in_flight x.status ≡ true). h) ms,
      );
      here = reset-Mem flying (s.moments 0).now ms m a.here;
      due = back_due a.live a.time;
    }

    -- After a restart a mail that is still to be delivered is sent by the first tick, also one that
    -- the process before had in flight. While the database does not fail, the open mails fit one
    -- batch, the mail's time has come, and its transport accepts it whenever it is asked: after the
    -- recovery and that tick, whatever else runs in it and arrives meanwhile, a step of the tick has
    -- given the mail to the transport, which accepted it, and the mail's row is there with the
    -- status `sent` and no error.
    pub restart-sends :
        (w' : W) (via : Transport W) {t : Tick (State Row) W}
        → Remains
        → transport_for host relay back ≡ some via
        → ((v : W) → (via.send back v).0 ≡ ok tt)
        → (run : Shared host relay (begin host relay ((recover host relay (s, w')).0, w)) t)
        → IsDone t
        → (batch : List Mail) × ((fetch host relay ((recover host relay (s, w')).0, w)).0
            ≡ ok batch)
          × Gave host relay run back (ok tt)
          × (r : Row) × (find_row c m.id t.queue.table ≡ some r)
          × IsSent r
    restart-sends w' via {t} a known accepts run done =
        let (batch, fetched, gave, r, there, final) =
          tick-sends host new_smtp config plugins c k _ w _ back via (recovered-Awaits w' a) known
            accepts run done in
        (batch, fetched, gave, r, ap (λ i. find_row c i t.queue.table) same_id ∙ there, final)
