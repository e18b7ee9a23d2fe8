-- ===== src/Queue/Instance/Rows/Room.antt =====
-- The mails that the table of crates/queue-sqlite hands out after a recovery of stale ones.
use mathlib.Core.List.{Memᴰ}
use oxid_relay.Prelude.{ℕ, ◌<◌, ◌≤◌, ◌≡◌, subst, ◌∙◌, Bool, none, List, true, count, All, arith}
use oxid_relay.Prelude.Result.{ok}
use oxid_relay.Message.{Mail, Time}
use oxid_relay.Queue.Table.{update_where}
use oxid_relay.Queue.Row.{Codec, Row}
use oxid_relay.Queue.Row.RoundTrip.{IsCodec, InRange, horizon}
use oxid_relay.Queue.Sqlite.{Moment, execute}
use oxid_relay.Queue.Model
use oxid_relay.Queue.Model.{is_due, is_stale, due_mails, reset_mail}
use oxid_relay.Queue.Model.Room.{
  is_open, due_mails-Mem, count-reset, reset-Mem, reset-InRange, stale_flying, waiting-not_stale,
}
use oxid_relay.Queue.Refine.Holds.{Holds}
use oxid_relay.Queue.Refine.Reads.{fetch_due-Refines}
use oxid_relay.Queue.Refine.Writes.{requeue_stale_sending-Refines}
use oxid_relay.Queue.Instance.{State, sqlite_queue}
use oxid_relay.Queue.Instance.Rows.Reliable.{IsCalm}

pub requeued :
    (e : Moment) (p : Mail → Bool) (ms : List Mail)
    → e.fault ≡ none
    → (Model.requeue_where e p ms).1 ≡ update_where p (reset_mail e.now) ms
unfolding Model.requeue_where execute
requeued e p ms fine = ground arith

fetched :
    (e : Moment) (limit : ℕ) (now : Time) (ms : List Mail)
    → e.fault ≡ none
    → (Model.fetch_due e limit now ms).0 ≡ ok (due_mails limit now ms)
unfolding Model.fetch_due execute
fetched e limit now ms fine = ground arith

module _ (c : Codec) (k : IsCodec c) (s : State Row) (ms : List Mail) (limit : ℕ)
    (older_than now : Time) where
  abbrev pub recovered : List Mail
  recovered = update_where (is_stale older_than) (reset_mail (s.moments 0).now) ms

  -- The table after the recovery holds the recovered mails.
  recovered-Holds :
      IsCalm s
      → Holds c s.table ms
      → All InRange ms
      → older_than < horizon
      → Holds c ((sqlite_queue c).requeue_stale_sending older_than s).1.table recovered
  recovered-Holds calm held a soon =
      subst (Holds c ((sqlite_queue c).requeue_stale_sending older_than s).1.table)
        (requeued (s.moments 0) (is_stale older_than) ms (calm 0))
        (requeue_stale_sending-Refines c k s.table ms held (s.moments 0) older_than soon a).1

  -- What a fetch after the recovery answers with.
  pub fetched_due :
      IsCalm s
      → Holds c s.table ms
      → All InRange ms
      → older_than < horizon
      → (s.moments 0).now < horizon
      → now < horizon
      → ((sqlite_queue c).fetch_due limit now
          ((sqlite_queue c).requeue_stale_sending older_than s).1).0
        ≡ ok (due_mails limit now recovered)
  fetched_due calm held a older clock soon =
      (fetch_due-Refines c k _ recovered (recovered-Holds calm held a older) (s.moments 1) limit now
        soon (reset-InRange (is_stale older_than) (s.moments 0).now clock ms a)).0
      ∙ fetched (s.moments 1) limit now recovered (calm 1)

  -- A mail that is due is still there after the recovery.
  pub due_recovered : (m : Mail) → is_due now m ≡ true → Memᴰ m ms → Memᴰ m recovered
  due_recovered m due here =
      subst (λ (x : Mail). Memᴰ x recovered)
        (waiting-not_stale older_than (s.moments 0).now m (ground arith))
        (reset-Mem (is_stale older_than) (s.moments 0).now ms m here)

  -- A due mail is handed out where the batch has room for all mails that are open.
  pub fetch-Mem :
      (m : Mail)
      → IsCalm s
      → Holds c s.table ms
      → All InRange ms
      → older_than < horizon
      → (s.moments 0).now < horizon
      → now < horizon
      → count is_open ms ≤ limit
      → is_due now m ≡ true
      → Memᴰ m ms
      → (batch : List Mail) × (((sqlite_queue c).fetch_due limit now
            ((sqlite_queue c).requeue_stale_sending older_than s).1).0
          ≡ ok batch)
        × Memᴰ m batch
  fetch-Mem m calm held a older clock soon room due here = (
    due_mails limit now recovered,
    fetched_due calm held a older clock soon,
    due_mails-Mem limit now recovered m
        (omega
          (arith, count-reset (is_stale older_than) (s.moments 0).now (stale_flying older_than) ms))
        due (due_recovered m due here),
  )
