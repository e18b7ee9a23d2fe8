-- ===== src/Dispatcher/Tick/Begin.antt =====
-- The head of `tick` in crates/dispatcher/src/lib.rs, before its loop, and `recover`.
use mathlib.Core.Option.{get_or}
use oxid_relay.Prelude.{◌-◌, List, []}
use oxid_relay.Prelude.Result.{Result, ok, err}
use oxid_relay.Message.{CoreError, Mail}
use oxid_relay.Dispatcher.{Inner, Host}
use oxid_relay.Dispatcher.Retry.{Duration, from_secs}
use oxid_relay.Dispatcher.Tick.{Tick, start}

-- A failed fetch ends the tick with nothing processed, as an empty batch does.
abbrev pub batch_or_empty : Result (List Mail) CoreError → List Mail
batch_or_empty (ok due) = due
batch_or_empty (err e) = []

module _ {S W : Type 0} (host : Host W) (inner : Inner S W) where
  -- `chrono::Duration::from_std(...).unwrap_or_else(|_| chrono::Duration::seconds(120))`
  unfoldable pub lease : Duration
  lease = get_or (host.from_std inner.config.sending_lease) (from_secs 120)

  -- The queue after the reclaim of stale mails. Its error is only logged. A time before the epoch
  -- is taken for the epoch, and no mail was updated before either.
  unfoldable pub reclaimed : S × W → S
  unfolding lease
  reclaimed (s, w) = (inner.queue.requeue_stale_sending ((host.now w).0 - lease) s).1

  unfoldable pub fetch : S × W → Result (List Mail) CoreError × S
  unfolding reclaimed
  fetch (s, w) = inner.queue.fetch_due inner.config.batch_size (host.now w).0 (reclaimed (s, w))

  -- The state in which the loop starts.
  unfoldable pub begin : S × W → Tick S W
  unfolding fetch
  begin (s, w) = start (fetch (s, w)).1 (host.now w).1 (batch_or_empty (fetch (s, w)).0)

  -- `recover`, once at startup. An error is only logged.
  unfoldable pub recover : S × W → S × W
  recover (s, w) = ((inner.queue.requeue_sending s).1, w)
