-- ===== src/Startup/Drained.antt =====
-- The daemon's dispatcher on the table of crates/queue-sqlite over several ticks, where more mails are
-- due than fit one batch.
pub mod Passing
pub mod Steps
pub mod Counting
use mathlib.Core.Option
use mathlib.Core.List.{Memᴰ}
use oxid_relay.Prelude.{
  ℕ, suc, ◌*◌, ◌≤◌, ◌≡◌, ap, subst, ◌∙◌, ◌⊎◌, inl, inr, true, some, Option, List, [], length, arith,
}
use oxid_relay.Prelude.Text.{Text}
use oxid_relay.Prelude.Result.{Result}
use oxid_relay.Message.{CoreError, Mail}
use oxid_relay.Config.{Config, SmtpConfig}
use oxid_relay.Queue.Laws.{Delivery, is_waiting}
use oxid_relay.Queue.Refine.Holds.{Holds}
use oxid_relay.Queue.Row.{Codec, Row}
use oxid_relay.Queue.Row.RoundTrip.{IsCodec, InRange}
use oxid_relay.Queue.Sqlite.{find_row}
use oxid_relay.Queue.Instance.{State, sqlite_queue}
use oxid_relay.Queue.Instance.Rows.Keys.{IsKeyed}
use oxid_relay.Dispatcher.{Inner, Transport, Host}
use oxid_relay.Dispatcher.Tick.{Tick, Shared, IsDone}
use oxid_relay.Dispatcher.Tick.Begin.{begin}
use oxid_relay.Startup.{dispatcher}
use oxid_relay.Startup.Delivered.{IsSent, found_row}
use oxid_relay.Startup.Advances.{Serves}
use oxid_relay.Startup.Drained.Passing.{Through, Waits, Passed, Through-enqueue, Passed-enqueue}
use oxid_relay.Startup.Drained.Steps.{Through-tick, Passed-tick}
use oxid_relay.Startup.Drained.Counting.{Passed-length, held-Waits}

module _ {W : Type 0} (host : Host W) (new_smtp : SmtpConfig → Result (Transport W) CoreError)
    (config : Config) (plugins : List (Text × Transport W)) (c : Codec) (k : IsCodec c) where
  abbrev relay : Inner (State Row) W
  relay = dispatcher new_smtp config (sqlite_queue c) plugins

  -- The states that `n` ticks lead to, each of which starts when the time of `m` has come, at any
  -- reading of the clock, with the queue and the transports at work. Mails arrive as they do.
  pub data Ticks (m : Mail) (s : State Row) : ℕ → State Row → Type 0 where
    starts : Ticks m s 0 s
    arrives :
        {n : ℕ} {s' : State Row} (x : Mail)
        → Ticks m s n s'
        → Ticks m s n ((sqlite_queue c).enqueue x s').1
    ticks :
        {n : ℕ} {s' : State Row} (w : W) (ms : List Mail) (t : Tick (State Row) W)
        → Ticks m s n s'
        → Serves host new_smtp config plugins c k s' w ms
        → m.next_attempt_at ≤ (host.now w).0
        → Shared host relay (begin host relay (s', w)) t
        → IsDone t
        → Ticks m s (suc n) t.queue

  Ticks-Passed :
      (m : Mail) (s : State Row) {n : ℕ} {s' : State Row}
      → InRange m
      → Waits c m s
      → Ticks m s n s'
      → Through c s' m.id ⊎ Passed c m (n * config.dispatcher.batch_size) s'
  Ticks-Passed m s within waits starts = inr (record {
    waits = waits;
    ids = [];
    enough = omega arith;
    once = λ i. omega arith;
    through = tt;
  })
  Ticks-Passed m s within waits (arrives {s' = s'} x r) = elim (Ticks-Passed m s within waits r) [
    | inl through ↦ inl (Through-enqueue c x s' m.id through)
    | inr passed ↦ inr (Passed-enqueue c m x _ s' passed)
  ]
  Ticks-Passed m s within waits (ticks {n = n} {s' = s'} w ms t r serves come run done) =
      elim (Ticks-Passed m s within waits r) [
        | inl through ↦
            inl (Through-tick host new_smtp config plugins c k s' w ms serves run m.id through)
        | inr passed ↦
            elim (Passed-tick host new_smtp config plugins c k s' w ms serves run m _ within come
              done passed) [
                | inl through ↦ inl through
                | inr more ↦ inr (subst (λ (many : ℕ). Passed c m many t.queue) (ground arith) more)
              ]
      ]

  -- A mail that waits is passed over in so many ticks only. Take a table of mails under ids that
  -- differ, and `n` ticks that start when the mail's time has come and before the year 10000, in
  -- which the database does not fail, and the table has mails in range, each with a transport that
  -- accepts every mail. If `n` batches hold as many mails as the table has in the end, the mail is
  -- then sent, with no error. This is so however many mails were due before it, and whatever has
  -- arrived since.
  pub Ticks-sends :
      (m : Mail) (s : State Row) (ms : List Mail) {n : ℕ} {s' : State Row}
      → IsKeyed c s.table
      → Holds c s.table ms
      → Memᴰ m ms
      → InRange m
      → is_waiting m.status ≡ true
      → Ticks m s n s'
      → length s'.table ≤ n * config.dispatcher.batch_size
      → (r : Row) × (find_row c m.id s'.table ≡ some r) × IsSent r
  Ticks-sends m s ms {s' = s'} keyed held here within waiting run few =
      elim (Ticks-Passed m s within (held-Waits c k m s ms keyed held here waiting) run) [
        | inl (d, known, shown, fine) ↦
            let (r, found, same) = found_row (find_row c m.id s'.table) d known in
            (
              r,
              found,
              (
                ap (λ (z : Delivery Text). z.status) same ∙ shown,
                ap (λ (z : Delivery Text). z.last_error) same ∙ fine,
              ),
            )
        | inr passed ↦ absurd (omega (arith, Passed-length c k m _ s' passed, few))
      ]
