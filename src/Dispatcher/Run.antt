-- ===== src/Dispatcher/Run.antt =====
-- `Dispatcher::run` of crates/dispatcher/src/lib.rs: the recovery, and then one tick after another
-- until the shutdown, which is looked at between ticks.
use oxid_relay.Prelude.{
  ◌≡◌, ◌⊎◌, ◌∙◌, sym, refl, inl, inr, none, some, Option, Option-cases, Bool, true, false,
  Bool-cases, ◌&&◌, ◌==◌,
}
use oxid_relay.Message.{Mail, MailId, MailStatus, pending, sending, sent, failed, dead}
use oxid_relay.Queue.Laws.{
  QueueLaws, Delivery, Preserves, valid-Preserves, written, Recovered, claimed, completed,
  rescheduled, buried,
}
use oxid_relay.Dispatcher.Tick.Preserved.{Shared-Preserves, begin-Preserves}
use oxid_relay.Dispatcher.{Inner, Host}
use oxid_relay.Dispatcher.Tick.{Tick, Shared, IsDone}
use oxid_relay.Dispatcher.Tick.Begin.{begin, recover}
use oxid_relay.Dispatcher.Tick.Final.{kept}
use oxid_relay.Dispatcher.Tick.Sharing.{Shared-keeps}

abbrev pub is_final : MailStatus → Bool
is_final sent = true
is_final dead = true
is_final _ = false

pub is_final-cases : (x : MailStatus) → ((x ≡ sent) ⊎ (x ≡ dead)) ⊎ (is_final x ≡ false)
is_final-cases pending = inr refl
is_final-cases sending = inr refl
is_final-cases sent = inl (inl refl)
is_final-cases failed = inr refl
is_final-cases dead = inl (inr refl)

module _ {S W : Type 0} (host : Host W) (inner : Inner S W) where
  -- The queue and the world that the loop may have come to between two ticks. From one tick to the
  -- next the world, with its clock, may change in any way, and mails arrive, as they do during a
  -- tick, from its loop on; what arrives before the fetch is told as before the tick.
  pub data Run (s : S) (w : W) : S → W → Type 0 where
    recovered : Run s w (recover host inner (s, w)).0 (recover host inner (s, w)).1
    waits : {s' : S} {w' : W} (later : W) → Run s w s' w' → Run s w s' later
    arrives : {s' : S} {w' : W} (m : Mail) → Run s w s' w' → Run s w (inner.queue.enqueue m s').1 w'
    ticks :
        {s' : S} {w' : W} (t : Tick S W)
        → Run s w s' w'
        → Shared host inner (begin host inner (s', w')) t
        → IsDone t
        → Run s w t.queue t.world

  -- What the operations of the queue keep true is true between any two ticks of a run.
  pub Run-Preserves :
      (P : S → Type 0)
      → Preserves inner.queue P
      → (s : S) (w : W) {s' : S} {w' : W} → P s
      → Run s w s' w'
      → P s'
  unfolding recover
  Run-Preserves P keeps s w v recovered = keeps.recover s v
  Run-Preserves P keeps s w v (waits later r) = Run-Preserves P keeps s w v r
  Run-Preserves P keeps s w v (arrives m r) = keeps.enqueue m _ (Run-Preserves P keeps s w v r)
  Run-Preserves P keeps s w v (ticks t r reach done) =
      Shared-Preserves host inner P keeps reach
        (begin-Preserves host inner P keeps _ _ (Run-Preserves P keeps s w v r))

  module _ {T : Type 0} (laws : QueueLaws T inner.queue) where
    -- A delivery that is final stays as it is, at first and in every state of the run.
    pub Run-keeps_final :
        (s : S) (w : W) {s' : S} {w' : W} (j : MailId) (d : Delivery T)
        → laws.valid s
        → laws.view s j ≡ some d
        → (d.status ≡ sent) ⊎ (d.status ≡ dead)
        → Run s w s' w'
        → laws.valid s' × (laws.view s' j ≡ some d)
    unfolding recover
    Run-keeps_final s w j d v e final recovered =
        (laws.recover_valid s v, kept host inner laws j d e final (laws.recover_view j s))
    Run-keeps_final s w j d v e final (waits later r) = Run-keeps_final s w j d v e final r
    Run-keeps_final s w j d v e final (arrives m r) =
        let (v', e') = Run-keeps_final s w j d v e final r in
        (laws.enqueue_valid m _ v', laws.enqueue_view m j d _ e')
    Run-keeps_final s w j d v e final (ticks t r reach done) =
        let (v', e') = Run-keeps_final s w j d v e final r in
        (
          Shared-Preserves host inner laws.valid (valid-Preserves laws) reach
              (begin-Preserves host inner laws.valid (valid-Preserves laws) _ _ v'),
          Shared-keeps host inner laws j d _ _ v' e' final reach,
        )

    module _ (j : MailId) where
      abbrev Known : S → Type 0
      Known s = (d : Delivery T) × (laws.view s j ≡ some d)

      written-Known :
          (done : Bool) (i : MailId) (f : Delivery T → Delivery T) (s s' : S)
          → laws.view s' j ≡ written done i f (laws.view s) j
          → Known s
          → Known s'
      written-Known done i f s s' e (d, known) = elim (Bool-cases (done && i == j)) [
        | inl hit ↦ (f d, e ∙ rw (hit, known) refl)
        | inr miss ↦ (d, e ∙ rw miss known)
      ]

      Recovered-Known : (s s' : S) → Recovered (laws.view s j) (laws.view s' j) → Known s → Known s'
      Recovered-Known s s' (inl same) (d, known) = (d, same ∙ known)
      Recovered-Known s s' (inr (d', e, flying, back)) (d, known) = (_, back)

      Known-Preserves : Preserves inner.queue Known
      Known-Preserves = record {
        enqueue = λ m s (d, known). (d, laws.enqueue_view m j d s known);
        stale = λ t s. Recovered-Known s _ (laws.stale_view t j s);
        recover = λ s. Recovered-Known s _ (laws.recover_view j s);
        fetch = λ limit now s (d, known). (d, laws.fetch_view limit now s j ∙ known);
        sending = λ i s. written-Known _ i claimed s _ (laws.sending_view i j s);
        sent = λ i s. written-Known _ i completed s _ (laws.sent_view i j s);
        failed = λ i error at s.
            written-Known _ i (rescheduled error (laws.stamp at)) s _
              (laws.failed_view i j error at s);
        dead = λ i error s. written-Known _ i (buried error) s _ (laws.dead_view i j error s);
      }

      -- What may have become of a delivery: of one that is not there anything, one that is not final
      -- is still there, and a final one is as it was.
      abbrev pub Kept : Option (Delivery T) → Option (Delivery T) → Type 0
      Kept before after =
          (before ≡ none)
          ⊎ ((d : Delivery T) × (before ≡ some d)
              × (is_final d.status ≡ false)
              × (d' : Delivery T) × (after ≡ some d'))
          ⊎ (after ≡ before)

      -- On a queue that keeps the laws and is valid at first, the queue is valid between any two
      -- ticks of the dispatcher's run, whenever mails arrive; and the delivery under each id that is
      -- there at first is still there, and just as it was if it was sent or dead.
      pub Run-keeps :
          (s : S) (w : W) {s' : S} {w' : W}
          → laws.valid s
          → Run s w s' w'
          → laws.valid s' × Kept (laws.view s j) (laws.view s' j)
      Run-keeps s w {s'} v r = (
        Run-Preserves laws.valid (valid-Preserves laws) s w v r,
        elim (Option-cases (laws.view s j)) [
          | inl missing ↦ inl missing
          | inr (d, known) ↦ elim (is_final-cases d.status) [
            | inl final ↦ inr (inr ((Run-keeps_final s w j d v known final r).1 ∙ sym known))
            | inr unsettled ↦
                let (d', there) = Run-Preserves Known Known-Preserves s w (d, known) r in
                inr (inl (d, known, unsettled, d', there))
          ]
        ],
      )
