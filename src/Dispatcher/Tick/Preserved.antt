-- ===== src/Dispatcher/Tick/Preserved.antt =====
-- What the steps of a tick keep true of the queue: what every operation of the queue keeps true.
use oxid_relay.Prelude.{inl, inr, Bool-cases}
use oxid_relay.Prelude.Text.{Text}
use oxid_relay.Prelude.Result.{Result, ok, err}
use oxid_relay.Message.{CoreError, Mail}
use oxid_relay.Queue.Laws.{Preserves}
use oxid_relay.Dispatcher.{Inner, Host}
use oxid_relay.Dispatcher.Retry.{is_exhausted}
use oxid_relay.Dispatcher.Deliver.{next_attempts, record_failure, record_outcome}
use oxid_relay.Dispatcher.Tick.{
  Tick, Step, skip, claim, spawn, bury, send, settle, Shared, starts, steps, arrives,
}
use oxid_relay.Dispatcher.Tick.Begin.{begin, fetch, reclaimed}

module _ {S W : Type 0} (host : Host W) (inner : Inner S W) (P : S → Type 0)
    (keeps : Preserves inner.queue P) where
  failure-Preserves :
      (m : Mail) (e : Text) (s : S) (w : W) → P s → P (record_failure host inner m e (s, w)).0
  unfolding record_failure
  failure-Preserves m e s w v =
      elim (Bool-cases (is_exhausted inner.config.retry (next_attempts host inner m))) [
        | inl x ↦ rw (x, record_failure) (keeps.dead m.id e s v)
        | inr x ↦ rw (x, record_failure) (keeps.failed m.id e _ s v)
      ]

  outcome-Preserves :
      (m : Mail) (r : Result (Unit {0}) CoreError) (s : S) (w : W)
      → P s
      → P (record_outcome host inner m r (s, w)).0
  unfolding record_outcome
  outcome-Preserves m (ok _) s w v = keeps.sent m.id s v
  outcome-Preserves m (err x) s w v = failure-Preserves m _ s w v

  Step-Preserves : {t u : Tick S W} → Step host inner t u → P t.queue → P u.queue
  Step-Preserves {t = t} (skip m rest e c f) v = keeps.sending m.id t.queue v
  Step-Preserves {t = t} (claim m rest e c f) v = keeps.sending m.id t.queue v
  Step-Preserves (spawn m c room) v = v
  Step-Preserves {t = t} (bury front back m e n) v = keeps.dead m.id _ t.queue v
  Step-Preserves (send front back m via e n) v = v
  Step-Preserves {t = t} (settle front back m r e) v = outcome-Preserves m r t.queue t.world v

  pub Shared-Preserves : {t u : Tick S W} → Shared host inner t u → P t.queue → P u.queue
  Shared-Preserves starts v = v
  Shared-Preserves (steps r st) v = Step-Preserves st (Shared-Preserves r v)
  Shared-Preserves (arrives m r) v = keeps.enqueue m _ (Shared-Preserves r v)

  pub begin-Preserves : (s : S) (w : W) → P s → P (begin host inner (s, w)).queue
  unfolding begin fetch reclaimed
  begin-Preserves s w v = keeps.fetch _ _ _ (keeps.stale _ s v)
