-- ===== src/Startup/Advances.antt =====
-- The daemon's dispatcher on the table of crates/queue-sqlite: what a tick does where more mails are
-- due than fit one batch.
use mathlib.Core.Option
use mathlib.Core.List.{Memᴰ}
use oxid_relay.Prelude.{
  ◌<◌, ◌≤◌, ◌≡◌, sym, ap, subst, ◌∙◌, ◌⊎◌, inl, inr, true, some, List, count, All, All-at, All-self,
  All-weaken, arith, ◌-◌, Option,
}
use oxid_relay.Prelude.Text.{Text}
use oxid_relay.Prelude.Result.{Result, ok}
use oxid_relay.Message.{CoreError, Mail, MailId, Time}
use oxid_relay.Config.{Config, SmtpConfig}
use oxid_relay.Queue.Laws.{Delivery, is_waiting, Recovered}
use oxid_relay.Queue.Model.{is_mail, is_due, is_stale, due_mails, reset_mail}
use oxid_relay.Queue.Model.Room.{reset-All, reset-count_mail}
use oxid_relay.Queue.Model.Choice.{Before, due_mails-All, due_mails-Before}
use oxid_relay.Queue.Refine.Holds.{Holds, columns}
use oxid_relay.Queue.Row.{Codec, Row}
use oxid_relay.Queue.Row.RoundTrip.{IsCodec, InRange, horizon}
use oxid_relay.Queue.Sqlite.{find_row}
use oxid_relay.Queue.Instance.{State, sqlite_queue}
use oxid_relay.Queue.Instance.Rows.{sqlite_laws, valid-sqlite_laws, view-sqlite_laws}
use oxid_relay.Queue.Instance.Rows.Held.{held_once, held_row}
use oxid_relay.Queue.Instance.Rows.Keys.{IsKeyed}
use oxid_relay.Queue.Instance.Rows.Reliable.{IsCalm}
use oxid_relay.Queue.Instance.Rows.Room.{recovered, fetched_due, due_recovered}
use oxid_relay.Queue.Instance.Rows.View.{row_delivery, row_view, status_of, written_status}
use oxid_relay.Dispatcher.{Inner, Transport, Host}
use oxid_relay.Dispatcher.Deliver.{transport_for}
use oxid_relay.Dispatcher.Tick.{Tick, Shared, IsDone}
use oxid_relay.Dispatcher.Tick.Begin.{begin, fetch, reclaimed, lease, batch_or_empty}
use oxid_relay.Dispatcher.Tick.Final.{batch_facts, fetch_view, reclaimed-Recovered}
use oxid_relay.Dispatcher.Tick.Sharing.{Shared-Apart}
use oxid_relay.Startup.{dispatcher, dispatcher_config}
use oxid_relay.Startup.Delivered.{IsSent, handed-IsSent}

-- The row of the mail in the table is that of a mail that is sent.
abbrev pub Settled : Codec → State Row → Mail → Type 0
Settled c t m = (r : Row) × (find_row c m.id t.table ≡ some r) × IsSent r

module _ {W : Type 0} (host : Host W) (new_smtp : SmtpConfig → Result (Transport W) CoreError)
    (config : Config) (plugins : List (Text × Transport W)) (c : Codec) (k : IsCodec c) where
  abbrev relay : Inner (State Row) W
  relay = dispatcher new_smtp config (sqlite_queue c) plugins

  -- The mail has a transport, and that transport accepts every mail.
  abbrev pub IsServed : Mail → Type 0
  IsServed m =
      (via : Transport W) × (transport_for host relay m ≡ some via)
      × ((x : Mail) (v : W) → (via.send x v).0 ≡ ok tt)

  reset-IsServed : (now : Time) (m : Mail) → IsServed m → IsServed (reset_mail now m)
  unfolding transport_for
  reset-IsServed now m served = served

  module _ (s : State Row) (w : W) (ms : List Mail) where
    -- What is in the table and what the clocks show: mails in range, each with a transport that
    -- accepts every mail.
    pub record Serves : Type 0 where
      pub keyed : IsKeyed c s.table
      pub calm : IsCalm s
      pub held : Holds c s.table ms
      pub in_range : All InRange ms
      pub clock : (s.moments 0).now < horizon
      pub soon : (host.now w).0 < horizon
      pub served : All IsServed ms

    abbrev older_than : Time
    older_than = (host.now w).0 - lease host relay

    abbrev left : List Mail
    left = recovered c k s ms config.dispatcher.batch_size older_than (host.now w).0

    abbrev batch : List Mail
    batch = due_mails config.dispatcher.batch_size (host.now w).0 left

    handed : Serves → (fetch host relay (s, w)).0 ≡ ok batch
    unfolding dispatcher dispatcher_config fetch reclaimed
    handed a =
        fetched_due c k s ms config.dispatcher.batch_size older_than (host.now w).0 a.calm a.held
          a.in_range (omega (arith, a.soon)) a.clock a.soon

    batch-IsServed : Serves → All IsServed batch
    batch-IsServed a = due_mails-All config.dispatcher.batch_size (host.now w).0 left IsServed (
        reset-All (is_stale older_than) (s.moments 0).now IsServed
          (reset-IsServed (s.moments 0).now) ms a.served)

    batch-Settled :
        {t : Tick (State Row) W}
        → Serves
        → Shared host relay (begin host relay (s, w)) t
        → IsDone t
        → All (Settled c t.queue) batch
    batch-Settled {t} a run done =
        All-weaken (λ (x : Mail). Memᴰ x batch) (Settled c t.queue)
          (λ x here.
            let (via, known, accepts) = All-at IsServed batch (batch-IsServed a) here in
            let (gave, r, there, final) =
              handed-IsSent host new_smtp config plugins c k s w ms x batch via a.keyed a.calm
                (handed a) here known (accepts x) run done in
            (r, there, final))
          batch (All-self batch)

    batch_once : Serves → (j : MailId) → count (is_mail j) batch ≤ 1
    unfolding dispatcher
    batch_once a j =
        subst (λ (x : Result (List Mail) CoreError). count (is_mail j) (batch_or_empty x) ≤ 1)
          (handed a)
          (batch_facts host relay (sqlite_laws c k) j s w (valid-sqlite_laws c k s a.keyed)).0

    module _ (m : Mail) (here : Memᴰ m ms) (due : is_due (host.now w).0 m ≡ true) where
      -- What the table shows of the mail before the tick.
      waits :
          Serves
          → (d : Delivery Text) × (row_view c s.table m.id ≡ some d) × (is_waiting d.status ≡ true)
      waits a =
          let (r, found, stored) =
            held_row c k m s.table ms (held_once c k m.id s.table ms a.keyed a.held) a.held here in
          let shown : status_of r.status ≡ m.status =
            ap status_of (columns c m r stored).status ∙ written_status m.status in
          (row_delivery r, ap (Option.map row_delivery) found, rw shown (ground arith))

      same_view :
          {before after : Option (Delivery Text)} (d : Delivery Text)
          → before ≡ some d
          → is_waiting d.status ≡ true
          → Recovered before after
          → after ≡ some d
      same_view d e waiting (inl same) = same ∙ e
      same_view d e waiting (inr (d', e', flying, back)) = absurd (ground arith)

      left_alone :
          {t : Tick (State Row) W}
          → Serves
          → count (is_mail m.id) batch ≡ 0
          → Shared host relay (begin host relay (s, w)) t
          → row_view c t.queue.table m.id ≡ row_view c s.table m.id
      unfolding begin dispatcher
      left_alone {t} a apart run =
          let laws = sqlite_laws c k in
          let (d, known, waiting) = waits a in
          let before : laws.view (fetch host relay (s, w)).1 m.id ≡ some d =
            fetch_view host relay laws m.id s w
            ∙ same_view d (view-sqlite_laws c k s m.id ∙ known) waiting
                (reclaimed-Recovered host relay laws m.id s w) in
          let missing : count (is_mail m.id) (batch_or_empty (fetch host relay (s, w)).0) ≡ 0 =
            ap (λ (x : Result (List Mail) CoreError). count (is_mail m.id) (batch_or_empty x))
              (handed a)
            ∙ apart in
          sym (view-sqlite_laws c k t.queue m.id)
          ∙ (Shared-Apart host relay laws m.id d _ _ _ missing before run).2
          ∙ sym known

      -- A tick sends a whole batch, the earliest due first. While the database does not fail and each
      -- mail has a transport that accepts every mail, for a mail whose time has come: once the tick
      -- is done, whatever else arrives meanwhile, either it is sent; or its row shows it as before,
      -- and as many mails as fit a batch are sent, all different, each due no later than it.
      pub tick-Advances :
          {t : Tick (State Row) W}
          → Serves
          → Shared host relay (begin host relay (s, w)) t
          → IsDone t
          → Settled c t.queue m
            ⊎ ((row_view c t.queue.table m.id ≡ row_view c s.table m.id)
                × (sent_now : List Mail) × ((fetch host relay (s, w)).0 ≡ ok sent_now)
                × Before config.dispatcher.batch_size m sent_now
                × ((j : MailId) → count (is_mail j) sent_now ≤ 1)
                × All (Settled c t.queue) sent_now)
      tick-Advances {t} a run done =
          let settled = batch-Settled a run done in
          let once : count (is_mail m.id) left ≤ 1 = omega (
            arith,
            held_once c k m.id s.table ms a.keyed a.held,
            reset-count_mail (is_stale older_than) (s.moments 0).now m.id ms,
          ) in
          elim (due_mails-Before config.dispatcher.batch_size (host.now w).0 left m once due (
            due_recovered c k s ms config.dispatcher.batch_size older_than (host.now w).0 m due
              here)) [
                | inl taken ↦ inl (All-at (Settled c t.queue) batch settled taken)
                | inr (before, apart) ↦
                    inr (left_alone a apart run, batch, handed a, before, batch_once a, settled)
              ]
