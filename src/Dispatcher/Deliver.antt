-- ===== src/Dispatcher/Deliver.antt =====
-- `deliver` of crates/dispatcher/src/lib.rs: one mail, from the choice of its transport to the
-- record of the outcome in the queue.
pub mod Outcome
pub mod Budget
pub mod GivesUp
pub mod Recorded
use mathlib.Core.Option.{get_or}
use oxid_relay.Prelude.{ℕ, ◌+◌, ◌%◌, ◌^◌, Option, none, some, ◌++◌, if◌then◌else◌}
use oxid_relay.Prelude.Text.{Text, codes}
use oxid_relay.Prelude.Assoc.{get}
use oxid_relay.Prelude.Result.{Result, ok, err}
use oxid_relay.Message.{CoreError, Mail, Time, error_text}
use oxid_relay.Dispatcher.{Inner, Transport, Host}
use oxid_relay.Dispatcher.Retry.{backoff, is_exhausted, from_secs}

module _ {S W : Type 0} (host : Host W) (inner : Inner S W) where
  -- `mail.transport.clone().or_else(|| inner.default_transport.clone())`
  abbrev pub transport_name : Mail → Option Text
  transport_name mail = elim mail.transport [
    | none ↦ inner.default_transport
    | some name ↦ some name
  ]

  unfoldable pub transport_for : Mail → Option (Transport W)
  transport_for mail = elim (transport_name mail) [
    | none ↦ none
    | some name ↦ get inner.transports name
  ]

  unfoldable pub no_transport : Mail → Text
  no_transport mail =
      codes "no transport available (requested "
      ++ host.debug mail.transport
      ++ codes ", default "
      ++ host.debug inner.default_transport
      ++ codes ")"

  -- `mail.attempts + 1` on a `u32`.
  abbrev pub next_attempts : Mail → ℕ
  next_attempts mail = (mail.attempts + 1) % 2 ^ 32

  unfoldable pub retry_at : Mail → Time → Time
  retry_at mail now =
      now + get_or (host.from_std (backoff inner.config.retry (next_attempts mail))) (from_secs 60)

  -- The `Err` arm: bury the mail, or read the clock and reschedule it. A failure to record the
  -- outcome is dropped.
  unfoldable pub record_failure : Mail → Text → S × W → S × W
  record_failure mail message (s, w) =
      if is_exhausted inner.config.retry (next_attempts mail)
      then ((inner.queue.mark_dead mail.id message s).1, w)
      else (
        (inner.queue.mark_failed mail.id message (retry_at mail (host.now w).0) s).1,
        (host.now w).1,
      )

  unfoldable pub record_outcome : Mail → Result (Unit {0}) CoreError → S × W → S × W
  unfolding record_failure
  record_outcome mail (ok _) (s, w) = ((inner.queue.mark_sent mail.id s).1, w)
  record_outcome mail (err x) (s, w) = record_failure mail (error_text x) (s, w)

  unfoldable pub deliver : Mail → S × W → S × W
  unfolding record_outcome transport_for
  deliver mail (s, w) = elim (transport_for mail) [
    | none ↦ ((inner.queue.mark_dead mail.id (no_transport mail) s).1, w)
    | some transport ↦ record_outcome mail (transport.send mail w).0 (s, (transport.send mail w).1)
  ]
