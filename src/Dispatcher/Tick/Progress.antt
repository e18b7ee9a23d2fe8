-- ===== src/Dispatcher/Tick/Progress.antt =====
-- What a tick does to the delivery under one id.
pub mod Stages
use mathlib.Core.Option
use oxid_relay.Prelude.{
  ℕ, ◌+◌, ◌≤◌, ◌≡◌, refl, ap, ◌∙◌, ◌⊎◌, inl, inr, Bool, true, false, Option, List, [], ◌∷◌, ◌++◌,
  count, count-append, arith, Bool-cases, if◌then◌else◌,
}
use oxid_relay.Prelude.Result.{is_ok}
use oxid_relay.Message.{Mail, MailId}
use oxid_relay.Queue.Model.{is_mail}
use oxid_relay.Queue.Laws.{QueueLaws, Delivery, claimed, written}
use oxid_relay.Dispatcher.{Inner, Host}
use oxid_relay.Dispatcher.Deliver.{no_transport}
use oxid_relay.Dispatcher.Deliver.Outcome.{record_outcome-Records}
use oxid_relay.Dispatcher.Tick.{
  Tick, Task, started, answered, Step, skip, claim, spawn, bury, send, settle, Reach, here, next,
  start, IsDone,
}
use oxid_relay.Dispatcher.Tick.Limits.{task_mail, in_claim}
use oxid_relay.Dispatcher.Tick.Progress.Stages.{
  Stage, Progress, Closing, buries, untouched, Closes-Closing, Stage-done, Stage-same, Stage-skip,
  Stage-claim, Stage-close,
}

due_cases : (n : ℕ) → n ≤ 1 → (n ≡ 1) ⊎ (n ≡ 0)
due_cases n h = omega arith

module _ {S W T : Type 0} (host : Host W) (inner : Inner S W) (laws : QueueLaws T inner.queue)
    (j : MailId) where
  abbrev pub waiting : Tick S W → ℕ
  waiting t = count (is_mail j) t.todo

  abbrev pub busy : Tick S W → ℕ
  busy t = in_claim (is_mail j) t.claimed + count (λ x. is_mail j (task_mail x)) t.running

  abbrev StageOf : Option (Delivery T) → Tick S W → Type 0
  StageOf before t = Stage before (laws.view t.queue j) (waiting t) (busy t)

  -- A write for the mail `m`, at the id `j`.
  view_hit :
      (f : Delivery T → Delivery T) (done : Bool) (m : Mail) (s s' : S)
      → is_mail j m ≡ true
      → laws.view s' j ≡ written done m.id f (laws.view s) j
      → (laws.view s' j ≡ Option.map f (laws.view s j)) ⊎ (laws.view s' j ≡ laws.view s j)
  view_hit f true m s s' hit e = inl (rw hit at e)
  view_hit f false m s s' hit e = inr e

  pub view_miss :
      (f : Delivery T → Delivery T) (done : Bool) (m : Mail) (s s' : S)
      → is_mail j m ≡ false
      → laws.view s' j ≡ written done m.id f (laws.view s) j
      → laws.view s' j ≡ laws.view s j
  view_miss f true m s s' miss e = rw miss at e
  view_miss f false m s s' miss e = e

  pub count_parts :
      (front back : List Task) (x : Task)
      → count (λ y. is_mail j (task_mail y)) (front ++ x ∷ back)
        ≡ count (is_mail j) (task_mail x ∷ [])
          + count (λ y. is_mail j (task_mail y)) (front ++ back)
  count_parts front back x = omega (
    arith,
    count-append {0} (λ y. is_mail j (task_mail y)) front (x ∷ back),
    count-append {0} (λ y. is_mail j (task_mail y)) front back,
  )

  pub view_refused :
      (t : Tick S W) (m : Mail)
      → is_ok (inner.queue.mark_sending m.id t.queue).0 ≡ false
      → laws.view (inner.queue.mark_sending m.id t.queue).1 j ≡ laws.view t.queue j
  view_refused t m f = rw f at (laws.sending_view m.id j t.queue)

  pub view_claimed :
      (t : Tick S W) (m : Mail)
      → is_ok (inner.queue.mark_sending m.id t.queue).0 ≡ true
      → laws.view (inner.queue.mark_sending m.id t.queue).1 j
        ≡ (if is_mail j m then Option.map claimed (laws.view t.queue j) else laws.view t.queue j)
  view_claimed t m f = rw f at (laws.sending_view m.id j t.queue)

  -- The end of a task for `m`: its outcome is recorded, or the queue refused to.
  close-Stage :
      (before : Option (Delivery T)) (now later : S) (m : Mail) (f : Delivery T → Delivery T)
      (done : Bool) (todo busy busy' : ℕ)
      → Closing f
      → ((i : MailId) → laws.view later i ≡ written done m.id f (laws.view now) i)
      → busy ≡ count (is_mail j) (m ∷ []) + busy'
      → Stage before (laws.view now j) todo busy
      → Stage before (laws.view later j) todo busy'
  close-Stage before now later m f done todo busy busy' k left b h =
      elim (Bool-cases (is_mail j m)) [
        | inl hit ↦
            Stage-close before _ _ todo busy todo busy' f k refl (ground arith)
              (view_hit f done m now later hit (left j)) h
        | inr miss ↦
            Stage-same before _ _ todo busy todo busy' refl (ground arith)
              (view_miss f done m now later miss (left j)) h
      ]

  Step-Stage :
      (before : Option (Delivery T)) {t u : Tick S W}
      → Step host inner t u
      → StageOf before t
      → StageOf before u
  Step-Stage before {t = t} (skip m rest e c f) h = elim (Bool-cases (is_mail j m)) [
    | inl hit ↦
        Stage-skip before _ _ (waiting t) (busy t) _ (busy t)
          (ground (arith, ap (count (is_mail j)) e)) refl (view_refused t m f) h
    | inr miss ↦
        Stage-same before _ _ (waiting t) (busy t) _ (busy t)
          (ground (arith, ap (count (is_mail j)) e)) refl (view_refused t m f) h
  ]
  Step-Stage before {t = t} (claim m rest e c f) h = elim (Bool-cases (is_mail j m)) [
    | inl hit ↦
        Stage-claim before _ _ (waiting t) (busy t) _ _ (ground (arith, ap (count (is_mail j)) e))
          (ground (arith, ap (in_claim (is_mail j)) c)) (rw hit at (view_claimed t m f)) h
    | inr miss ↦
        Stage-same before _ _ (waiting t) (busy t) _ _ (ground (arith, ap (count (is_mail j)) e))
          (ground (arith, ap (in_claim (is_mail j)) c)) (rw miss at (view_claimed t m f)) h
  ]
  Step-Stage before {t = t} (spawn m c room) h =
      Stage-same before _ _ (waiting t) (busy t) _ _ refl
        (omega (arith, ap (in_claim (is_mail j)) c)) refl h
  Step-Stage before {t = t} (bury front back m e n) h =
      close-Stage before t.queue _ m _ _ (waiting t) (busy t) _ (buries (no_transport host inner m))
        (λ i. laws.dead_view m.id i (no_transport host inner m) t.queue)
        (omega
          (arith, count_parts front back (started m), ap (count (λ x. is_mail j (task_mail x))) e))
        h
  Step-Stage before {t = t} (send front back m tr e n) h =
      Stage-same before _ _ (waiting t) (busy t) _ _ refl
        (omega (
          arith,
          count_parts front back (started m),
          count_parts front back (answered m (tr.send m t.world).0),
          ap (count (λ x. is_mail j (task_mail x))) e,
        ))
        refl h
  Step-Stage before {t = t} (settle front back m r e) h =
      let (f, closes, (write, kind, left)) =
        record_outcome-Records host inner laws m r t.queue t.world in
      close-Stage before t.queue _ m f _ (waiting t) (busy t) _
        (Closes-Closing host inner laws.stamp m t.world closes) left
        (omega (
          arith,
          count_parts front back (answered m r),
          ap (count (λ x. is_mail j (task_mail x))) e,
        ))
        h

  Reach-Stage :
      (s : S) (w : W) (due : List Mail) {t : Tick S W}
      → count (is_mail j) due ≤ 1
      → Reach host inner (start s w due) t
      → StageOf (laws.view s j) t
  Reach-Stage s w due once here = elim (due_cases (count (is_mail j) due) once) [
    | inl one ↦ inl (one, refl, refl)
    | inr none_left ↦ inr (inr (none_left, refl, untouched))
  ]
  Reach-Stage s w due once (next r st) = Step-Stage (laws.view s j) st (Reach-Stage s w due once r)

  -- However the deliveries of a batch with distinct ids interleave, and whatever the queue and the
  -- transports answer: once the tick is done, the delivery under each id is as it was before, or
  -- claimed, or claimed and then closed once, as completed, buried or rescheduled.
  pub Reach-Progress :
      (s : S) (w : W) (due : List Mail) {t : Tick S W}
      → count (is_mail j) due ≤ 1
      → Reach host inner (start s w due) t
      → IsDone t
      → Progress (laws.view s j) (laws.view t.queue j)
  Reach-Progress s w due {t = t} once r done =
      Stage-done (laws.view s j) (laws.view t.queue j) (waiting t) (busy t)
        (ap (count (is_mail j)) done.todo)
        (omega (
          arith,
          ap (in_claim (is_mail j)) done.claimed,
          ap (count (λ x. is_mail j (task_mail x))) done.running,
        ))
        (Reach-Stage s w due once r)

  -- Nothing of the mail `j` is in the batch.
  abbrev pub Apart : Option (Delivery T) → Tick S W → Type 0
  Apart before t = (waiting t ≡ 0) × (busy t ≡ 0) × (laws.view t.queue j ≡ before)

  pub close-Apart :
      (before : Option (Delivery T)) (now later : S) (m : Mail) (f : Delivery T → Delivery T)
      (done : Bool) (busy' : ℕ)
      → ((i : MailId) → laws.view later i ≡ written done m.id f (laws.view now) i)
      → count (is_mail j) (m ∷ []) + busy' ≡ 0
      → laws.view now j ≡ before
      → (busy' ≡ 0) × (laws.view later j ≡ before)
  close-Apart before now later m f done busy' left b h = elim (Bool-cases (is_mail j m)) [
    | inl hit ↦ absurd (ground arith)
    | inr miss ↦ (ground arith, view_miss f done m now later miss (left j) ∙ h)
  ]
