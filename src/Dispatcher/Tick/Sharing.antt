-- ===== src/Dispatcher/Tick/Sharing.antt =====
-- A tick during which other clients enqueue mails, and the delivery under one id.
use oxid_relay.Prelude.{◌≡◌, refl, ◌∙◌, ◌⊎◌, inl, inr, some, List, count, arith}
use oxid_relay.Message.{Mail, MailId, sent, dead}
use oxid_relay.Queue.Model.{is_mail}
use oxid_relay.Queue.Laws.{QueueLaws, Delivery}
use oxid_relay.Dispatcher.{Inner, Host}
use oxid_relay.Dispatcher.Tick.{Tick, Shared, starts, steps, arrives, start}
use oxid_relay.Dispatcher.Tick.Begin.{begin, reclaimed}
use oxid_relay.Dispatcher.Tick.Final.{
  Step-Apart, batch_facts, fetch_view, reclaimed-Recovered, kept,
}
use oxid_relay.Dispatcher.Tick.Progress.{Apart}

module _ {S W T : Type 0} (host : Host W) (inner : Inner S W) (laws : QueueLaws T inner.queue)
    (j : MailId) (d : Delivery T) where
  pub Shared-Apart :
      (s : S) (w : W) (due : List Mail) {t : Tick S W}
      → count (is_mail j) due ≡ 0
      → laws.view s j ≡ some d
      → Shared host inner (start s w due) t
      → Apart host inner laws j (some d) t
  Shared-Apart s w due h e starts = (h, refl, e)
  Shared-Apart s w due h e (steps r st) =
      Step-Apart host inner laws j (some d) st (Shared-Apart s w due h e r)
  Shared-Apart s w due h e (arrives {u = u} m r) =
      let (todo, busy, same) = Shared-Apart s w due h e r in
      (todo, busy, laws.enqueue_view m j d u.queue same)

  -- A mail that is sent or dead is so at every moment of a tick, whatever arrives.
  pub Shared-keeps :
      (s : S) (w : W) {t : Tick S W}
      → laws.valid s
      → laws.view s j ≡ some d
      → (d.status ≡ sent) ⊎ (d.status ≡ dead)
      → Shared host inner (begin host inner (s, w)) t
      → laws.view t.queue j ≡ some d
  unfolding begin
  Shared-keeps s w v e final r =
      let same : laws.view (reclaimed host inner (s, w)) j ≡ some d =
        kept host inner laws j d e final (reclaimed-Recovered host inner laws j s w) in
      elim (batch_facts host inner laws j s w v).1 [
        | inl apart ↦ (Shared-Apart _ _ _ apart (fetch_view host inner laws j s w ∙ same) r).2
        | inr (d', e', waiting) ↦ absurd (ground (arith, same))
      ]
