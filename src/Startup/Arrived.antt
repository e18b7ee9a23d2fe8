-- ===== src/Startup/Arrived.antt =====
-- From the end of a message, in the ingress of crates/ingress-smtp, to the next tick of the daemon's
-- dispatcher, over the table of crates/queue-sqlite.
pub mod Mails
use mathlib.Core.List.{Memᴰ}
use mathlib.Core.List.Memᴰ
use oxid_relay.Prelude.{
  ℕ, ◌<◌, ◌≤◌, ◌≡◌, sym, ap, subst, ◌∙◌, false, some, List, ◌++◌, is_empty, count, All, All-append,
  suc, All-weaken, All-at, All-split,
}
use oxid_relay.Prelude.Text.{Text}
use oxid_relay.Prelude.Result.{Result, ok}
use oxid_relay.Message.{CoreError, Mail}
use oxid_relay.Config.{Config, SmtpConfig}
use oxid_relay.Ingress.{Outside, Context, RelayHandler, Response, strip_brackets}
use oxid_relay.Ingress.Accept.{data_end}
use oxid_relay.Ingress.Stored.{data_end-Stored, Entry, IsFresh}
use oxid_relay.Ingress.Preserved.{data_end-Preserves}
use oxid_relay.Queue.Model.Room.{is_open}
use oxid_relay.Queue.Row.{Codec, Row, mail_to_row}
use oxid_relay.Queue.Row.RoundTrip.{IsCodec, InRange, horizon}
use oxid_relay.Queue.Refine.Holds.{Holds}
use oxid_relay.Queue.Sqlite.{find_row}
use oxid_relay.Queue.Instance.{State, sqlite_queue}
use oxid_relay.Queue.Instance.Enqueues.{
  sqlite_enqueue_laws, contents-sqlite_enqueue_laws, stores-sqlite_enqueue_laws,
}
use oxid_relay.Queue.Instance.Rows.Keys.{IsKeyed, enqueue-IsKeyed}
use oxid_relay.Queue.Instance.Rows.Reliable.{IsCalm}
use oxid_relay.Dispatcher.{Inner, Transport, Host}
use oxid_relay.Dispatcher.Deliver.{transport_for}
use oxid_relay.Dispatcher.Tick.{Tick, Shared, IsDone}
use oxid_relay.Dispatcher.Tick.Begin.{begin}
use oxid_relay.Startup.{dispatcher}
use oxid_relay.Startup.Delivered.{Awaits, IsSent, tick-sends}
use oxid_relay.Startup.Arrived.Mails.{
  Holds-append_all, append-Mem, Arrival, mails_of, mails-Holds, mails-each, IsEarly, fresh-is_due,
  mails-InRange,
}

-- What the queue is before the message, and in all its moments: its table holds mails in range under
-- ids that differ, the database does not fail, and its clock is before the year 10000.
pub record Holding (c : Codec) (s : State Row) (ms : List Mail) : Type 0 where
  pub keyed : IsKeyed c s.table
  pub calm : IsCalm s
  pub clocks : (n : ℕ) → (s.moments n).now < horizon
  pub held : Holds c s.table ms
  pub in_range : All InRange ms

abbrev Working : Codec → State Row → Type 0
Working c s = IsKeyed c s.table × IsCalm s × ((n : ℕ) → (s.moments n).now < horizon)

enqueue-Working :
    (c : Codec) (m : Mail) (s : State Row)
    → Working c s
    → Working c ((sqlite_queue c).enqueue m s).1
enqueue-Working c m s (keyed, calm, clocks) =
    (enqueue-IsKeyed c (s.moments 0) m s.table keyed, λ n. calm (suc n), λ n. clocks (suc n))

module _ {Ip Net Regex V W : Type 0} (o : Outside Ip Net Regex V) (ctx : Context Net Regex)
    (host : Host W) (new_smtp : SmtpConfig → Result (Transport W) CoreError) (config : Config)
    (plugins : List (Text × Transport W)) (c : Codec) (k : IsCodec c) where
  abbrev relay : Inner (State Row) W
  relay = dispatcher new_smtp config (sqlite_queue c) plugins

  -- The row of a fresh mail from the sender, which the table of `t` shows as sent.
  abbrev pub Sent : Text → State Row → Row → Type 0
  Sent sender t r =
      (m : Mail) × (mail_to_row c m ≡ ok r)
      × IsFresh sender m
      × (r' : Row) × (find_row c m.id t.table ≡ some r')
      × IsSent r'

  -- The mail has a transport, which accepts it whenever it is asked.
  abbrev pub IsAccepted : Mail → Type 0
  IsAccepted m =
      (via : Transport W) × (transport_for host relay m ≡ some via)
      × ((u : W) → (via.send m u).0 ≡ ok tt)

  -- The mails of a table at the tick: none is created after its time, the open ones fit one batch, and
  -- the fresh ones of the sender are accepted.
  pub record Fits (sender : Text) (w : W) (ns : List Mail) : Type 0 where
    pub early : All (IsEarly c sender (host.now w).0) ns
    pub room : count is_open ns ≤ config.dispatcher.batch_size
    pub accepted : All (λ m. IsFresh sender m → IsAccepted m) ns

  module _ (s : State Row) (w : W) (ms : List Mail) (sender : Text) {t : Tick (State Row) W}
      (working : Working c s) (held : Holds c s.table ms) (in_range : All InRange ms)
      (soon : (host.now w).0 < horizon) (fits : Fits sender w ms)
      (run : Shared host relay (begin host relay (s, w)) t) (done : IsDone t) where
    Arrival-Sent : (r : Row) (a : Arrival c sender r) → Memᴰ a.0 ms → Sent sender t.queue r
    Arrival-Sent r (m, stored, fresh) here =
        let (via, known, accepts) = All-at _ ms fits.accepted here fresh in
        let awaits : Awaits host new_smtp config plugins c k s w ms m = record {
          keyed = working.0;
          calm = working.1;
          held = held;
          in_range = in_range;
          clock = working.2 0;
          soon = soon;
          room = fits.room;
          here = here;
          due =
              fresh-is_due c sender (host.now w).0 r (m, stored, fresh)
                (All-at _ ms fits.early here);
        } in
        let (batch, fetched, gave, r', there, final) =
          tick-sends host new_smtp config plugins c k s w ms m via awaits known accepts run done in
        (m, stored, fresh, r', there, final)

  Entry-Arrival :
      (sender : Text) (r : Row)
      → Entry o ctx (sqlite_queue c) (sqlite_enqueue_laws c) sender r
      → Arrival c sender r
  Entry-Arrival sender r (m, v, stored, created, fresh) =
      (m, stores-sqlite_enqueue_laws c m r stored, fresh)

  -- A message that was answered with OK is sent by the next tick. The rows of its mails, at least
  -- one, each fresh from the sender of the transaction, stand behind the rows that were there; and
  -- after a tick that starts then, whatever else runs in it and arrives meanwhile, the row of each
  -- of them shows the mail as sent, with no error. This is so while the database does not fail, on a
  -- table of mails in range under different ids, of which then none is created after the tick's time,
  -- the open ones fit one batch, and the fresh ones of the sender have transports that accept them
  -- whenever they are asked.
  pub data_end-Sent :
      (h : RelayHandler) (s : State Row) (v : V) (w : W) (ms : List Mail) {t : Tick (State Row) W}
      → Holding c s ms
      → (data_end o ctx (sqlite_queue c) h (s, v)).0 ≡ Response.ok
      → (host.now w).0 < horizon
      → ((ns : List Mail)
          → Holds c (data_end o ctx (sqlite_queue c) h (s, v)).1.table ns
          → Fits (strip_brackets h.envelope_from) w ns)
      → Shared host relay (begin host relay ((data_end o ctx (sqlite_queue c) h (s, v)).1, w)) t
      → IsDone t
      → (added : List Row) × ((data_end o ctx (sqlite_queue c) h (s, v)).1.table ≡ s.table ++ added)
        × (is_empty added ≡ false)
        × All (Sent (strip_brackets h.envelope_from) t.queue) added
  data_end-Sent h s v w ms {t} before answer soon fits run done =
      let sender = strip_brackets h.envelope_from in
      let later = (data_end o ctx (sqlite_queue c) h (s, v)).1 in
      let (added, stored, answered, entries) =
        data_end-Stored o ctx (sqlite_queue c) (sqlite_enqueue_laws c) h s v in
      let table : later.table ≡ s.table ++ added =
        (sym (contents-sqlite_enqueue_laws c later) ∙ stored)
        ∙ ap (λ rows. rows ++ added) (contents-sqlite_enqueue_laws c s) in
      let arrivals = All-weaken _ (Arrival c sender) (Entry-Arrival sender) added entries in
      let ns = mails_of c sender added arrivals in
      let held : Holds c later.table (ms ++ ns) =
        subst (λ (rows : List Row). Holds c rows (ms ++ ns)) (sym table)
          (Holds-append_all c s.table ms added ns before.held
            (mails-Holds c sender added arrivals)) in
      let working =
        data_end-Preserves o ctx (sqlite_queue c) (Working c) (enqueue-Working c) h s v
          (before.keyed, before.calm, before.clocks) in
      let ready = fits (ms ++ ns) held in
      let in_range = All-append InRange ms ns before.in_range (
        mails-InRange c sender (host.now w).0 soon added arrivals
          (All-split (IsEarly c sender (host.now w).0) ms ns ready.early).1) in
      (
        added,
        table,
        answered.0 answer,
        mails-each c sender (Sent sender t.queue) added arrivals (λ r a here.
            Arrival-Sent later w (ms ++ ns) sender working held in_range soon ready run done r a
              (append-Mem ms ns here)),
      )
