-- ===== src/Dispatcher/Tick/Delivers.antt =====
-- What a tick of crates/dispatcher/src/lib.rs does for a mail of its batch while the queue works.
pub mod Stages
pub mod Steps
use mathlib.Core.Option
use mathlib.Core.List.{Memᴰ}
use oxid_relay.Prelude.{◌≡◌, subst, sym, ◌∙◌, inl, inr, true, Option, some, List, arith, ==_refl}
use oxid_relay.Prelude.Result.{Result, ok}
use oxid_relay.Message.{CoreError, Mail}
use oxid_relay.Queue.Model.{is_mail}
use oxid_relay.Queue.Laws.{QueueLaws, Delivery, Preserves, Reliable, claimed, is_waiting, Recovered}
use oxid_relay.Dispatcher.{Inner, Host}
use oxid_relay.Dispatcher.Tick.{Tick, Shared, IsDone}
use oxid_relay.Dispatcher.Tick.Begin.{begin, fetch, batch_or_empty}
use oxid_relay.Dispatcher.Tick.Final.{batch_facts, fetch_view, reclaimed-Recovered}
use oxid_relay.Queue.Counts.{count-member}
use oxid_relay.Dispatcher.Tick.Origin.{whole}
use oxid_relay.Dispatcher.Tick.Delivers.Stages.{Closed}
use oxid_relay.Dispatcher.Tick.Preserved.{begin-Preserves}
use oxid_relay.Dispatcher.Tick.Delivers.Steps.{Shared-Stage, Stage-done}

module _ {S W T : Type 0} (host : Host W) (inner : Inner S W) (laws : QueueLaws T inner.queue)
    (mail : Mail) where
  module _ (P : S → Type 0) (keeps : Preserves inner.queue P)
      (works : Reliable laws P mail.id) where
    -- A mail of the batch gets its delivery. On a queue that keeps the laws, is valid at first, and
    -- carries out the transitions of the mail in all states that its operations keep: once the tick
    -- is done, the delivery, which the fetch found waiting, has been claimed and then closed. A step
    -- of the tick called the mail's transport, and another recorded its answer: the delivery is
    -- completed, buried with the attempts used up, or rescheduled after the backoff; or, without a
    -- transport, a step buried it at once. This is so however the deliveries interleave, whatever
    -- becomes of the others, and whatever mails arrive.
    pub tick-Delivers :
        (s : S) (w : W) (batch : List Mail) {t : Tick S W}
        → laws.valid s
        → P s
        → (fetch host inner (s, w)).0 ≡ ok batch
        → Memᴰ mail batch
        → (run : Shared host inner (begin host inner (s, w)) t) → IsDone t
        → (d : Delivery T) × (is_waiting d.status ≡ true)
          × Recovered (laws.view s mail.id) (some d)
          × Closed host inner laws mail run (claimed d) (laws.view t.queue mail.id)
    unfolding begin
    tick-Delivers s w batch {t} v p e listed run done =
        let due = batch_or_empty (fetch host inner (s, w)).0 in
        let ours : Memᴰ mail due =
          subst (λ (x : Result (List Mail) CoreError). Memᴰ mail (batch_or_empty x)) (sym e)
            listed in
        let (once, there) = batch_facts host inner laws mail.id s w v in
        elim there [
          | inl missing ↦ absurd (
              omega
                (arith, missing, count-member (is_mail mail.id) due mail ours (==_refl mail.id)))
          | inr (d, known, waits) ↦ (
            d,
            waits,
            subst (Recovered (laws.view s mail.id)) known
                (reclaimed-Recovered host inner laws mail.id s w),
            Stage-done host inner laws mail P keeps works _ _ due run d ours once t done (
                Shared-Stage host inner laws mail P keeps works _ _ due run d ours once run whole
                  (begin-Preserves host inner P keeps s w p)
                  (fetch_view host inner laws mail.id s w ∙ known)),
          )
        ]
