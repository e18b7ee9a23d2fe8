-- ===== src/Dispatcher/Tick/Final.antt =====
-- What a whole tick, from the clock's reading to the last task, does to the delivery under an id.
use oxid_relay.Prelude.{
  ◌≤◌, ◌≡◌, refl, subst, ap, ◌∙◌, ◌⊎◌, inl, inr, true, false, Option, some, List, count, arith,
}
use oxid_relay.Prelude.Result.{Result-cases}
use oxid_relay.Message.{Mail, MailId, sent, dead}
use oxid_relay.Queue.Model.{is_mail}
use oxid_relay.Queue.Laws.{QueueLaws, Delivery, is_waiting, Recovered}
use oxid_relay.Dispatcher.{Inner, Host}
use oxid_relay.Dispatcher.Deliver.{no_transport}
use oxid_relay.Dispatcher.Deliver.Outcome.{record_outcome-Records}
use oxid_relay.Dispatcher.Tick.{
  Tick, started, answered, Step, skip, claim, spawn, bury, send, settle, Reach, here, next, start,
  IsDone,
}
use oxid_relay.Dispatcher.Tick.Begin.{begin, fetch, reclaimed, batch_or_empty}
use oxid_relay.Dispatcher.Tick.Limits.{task_mail, in_claim}
use oxid_relay.Dispatcher.Tick.Progress.{
  Apart, close-Apart, count_parts, view_refused, view_claimed, Reach-Progress,
}
use oxid_relay.Dispatcher.Tick.Progress.Stages.{Progress}

module _ {S W T : Type 0} (host : Host W) (inner : Inner S W) (laws : QueueLaws T inner.queue)
    (j : MailId) where
  pub Step-Apart :
      (before : Option (Delivery T)) {t u : Tick S W}
      → Step host inner t u
      → Apart host inner laws j before t
      → Apart host inner laws j before u
  Step-Apart before {t = t} (skip m rest e c f) (todo, busy, same) =
      (omega (arith, ap (count (is_mail j)) e), busy, view_refused host inner laws j t m f ∙ same)
  Step-Apart before {t = t} (claim m rest e c f) (todo, busy, same) =
      let miss : is_mail j m ≡ false = ground (arith, ap (count (is_mail j)) e) in
      (
        omega (arith, ap (count (is_mail j)) e),
        ground (arith, ap (in_claim (is_mail j)) c),
        (rw miss at (view_claimed host inner laws j t m f)) ∙ same,
      )
  Step-Apart before (spawn m c room) (todo, busy, same) =
      (todo, omega (arith, ap (in_claim (is_mail j)) c), same)
  Step-Apart before {t = t} (bury front back m e n) (todo, busy, same) =
      let (busy', same') =
        close-Apart host inner laws j before t.queue _ m _ _ _
          (λ i. laws.dead_view m.id i (no_transport host inner m) t.queue)
          (omega (
            arith,
            count_parts host inner laws j front back (started m),
            ap (count (λ x. is_mail j (task_mail x))) e,
          ))
          same in
      (todo, busy', same')
  Step-Apart before {t = t} (send front back m via e n) (todo, busy, same) = (
    todo,
    omega (
      arith,
      count_parts host inner laws j front back (started m),
      count_parts host inner laws j front back (answered m (via.send m t.world).0),
      ap (count (λ x. is_mail j (task_mail x))) e,
    ),
    same,
  )
  Step-Apart before {t = t} (settle front back m r e) (todo, busy, same) =
      let (f, closes, (write, kind, left)) =
        record_outcome-Records host inner laws m r t.queue t.world in
      let (busy', same') =
        close-Apart host inner laws j before t.queue _ m f _ _ left
          (omega (
            arith,
            count_parts host inner laws j front back (answered m r),
            ap (count (λ x. is_mail j (task_mail x))) e,
          ))
          same in
      (todo, busy', same')

  Reach-Apart :
      (s : S) (w : W) (due : List Mail) {t : Tick S W}
      → count (is_mail j) due ≡ 0
      → Reach host inner (start s w due) t
      → Apart host inner laws j (laws.view s j) t
  Reach-Apart s w due h here = (h, refl, refl)
  Reach-Apart s w due h (next r st) = Step-Apart (laws.view s j) st (Reach-Apart s w due h r)

  -- What the fetch hands to the loop.
  pub batch_facts :
      (s : S) (w : W)
      → laws.valid s
      → (count (is_mail j) (batch_or_empty (fetch host inner (s, w)).0) ≤ 1)
        × ((count (is_mail j) (batch_or_empty (fetch host inner (s, w)).0) ≡ 0)
            ⊎ ((d : Delivery T) × (laws.view (reclaimed host inner (s, w)) j ≡ some d)
                × (is_waiting d.status ≡ true)))
  unfolding fetch reclaimed
  batch_facts s w v = elim (Result-cases (fetch host inner (s, w)).0) [
    | inl (due, e) ↦ rw e (laws.fetched _ _ _ due (laws.stale_valid _ s v) e j)
    | inr (x, e) ↦ rw e (omega arith, inl refl)
  ]

  pub fetch_view :
      (s : S) (w : W)
      → laws.view (fetch host inner (s, w)).1 j ≡ laws.view (reclaimed host inner (s, w)) j
  unfolding fetch
  fetch_view s w = laws.fetch_view _ _ _ j

  pub reclaimed-Recovered :
      (s : S) (w : W) → Recovered (laws.view s j) (laws.view (reclaimed host inner (s, w)) j)
  unfolding reclaimed
  reclaimed-Recovered s w = laws.stale_view _ j s

  -- On a queue that keeps the laws and is valid at first, a whole tick, run to its end, does to the
  -- delivery under each id at most this: take it from in flight back to pending, claim it, and then
  -- close it once, as completed, buried or rescheduled; in whatever order the deliveries run, and
  -- whatever fails.
  pub tick-Progress :
      (s : S) (w : W) {t : Tick S W}
      → laws.valid s
      → Reach host inner (begin host inner (s, w)) t
      → IsDone t
      → (now : Option (Delivery T)) × Recovered (laws.view s j) now
        × Progress now (laws.view t.queue j)
  unfolding begin
  tick-Progress s w {t = t} v r done = (
    laws.view (reclaimed host inner (s, w)) j,
    reclaimed-Recovered s w,
    subst (λ (o : Option (Delivery T)). Progress o (laws.view t.queue j)) (fetch_view s w)
        (Reach-Progress host inner laws j _ _ _ (batch_facts s w v).0 r done),
  )

  pub kept :
      {before after : Option (Delivery T)} (d : Delivery T)
      → before ≡ some d
      → (d.status ≡ sent) ⊎ (d.status ≡ dead)
      → Recovered before after
      → after ≡ some d
  kept d e final (inl same) = same ∙ e
  kept d e final (inr (d', e', flying, back)) = absurd (ground arith)

  -- On a queue that keeps the laws and is valid at first, a mail that is sent or dead stays as it
  -- is at every moment of a tick.
  pub tick_keeps_final :
      (s : S) (w : W) {t : Tick S W} (d : Delivery T)
      → laws.valid s
      → laws.view s j ≡ some d
      → (d.status ≡ sent) ⊎ (d.status ≡ dead)
      → Reach host inner (begin host inner (s, w)) t
      → laws.view t.queue j ≡ some d
  unfolding begin
  tick_keeps_final s w d v e final r =
      let same : laws.view (reclaimed host inner (s, w)) j ≡ some d =
        kept d e final (reclaimed-Recovered s w) in
      elim (batch_facts s w v).1 [
        | inl apart ↦ (Reach-Apart _ _ _ apart r).2 ∙ fetch_view s w ∙ same
        | inr (d', e', waiting) ↦ absurd (ground (arith, same))
      ]
