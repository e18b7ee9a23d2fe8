-- ===== src/Dispatcher/Tick/Delivers/Steps.antt =====
-- How the steps of a tick move a mail of its batch from stage to stage.
use oxid_relay.Prelude.{
  ℕ, ◌+◌, ◌≤◌, ◌≡◌, refl, sym, ap, subst, ◌∙◌, inl, inr, Bool, true, none, some, List, [], ◌∷◌,
  count, arith, ==_refl, Bool-cases,
}
use oxid_relay.Prelude.Result.{Result}
use oxid_relay.Message.{CoreError, Mail, MailId}
use oxid_relay.Queue.Model.{is_mail}
use oxid_relay.Queue.Laws.{QueueLaws, Delivery, Preserves, Reliable, written, claimed, buried}
use oxid_relay.Dispatcher.{Inner, Host}
use oxid_relay.Dispatcher.Deliver.{transport_for, no_transport, record_outcome}
use oxid_relay.Dispatcher.Deliver.Recorded.{recorded}
use oxid_relay.Dispatcher.Deliver.Outcome.{record_outcome-Records}
use oxid_relay.Dispatcher.Deliver.GivesUp.{written_there}
use oxid_relay.Dispatcher.Tick.{
  Tick, started, answered, Step, skip, claim, spawn, bury, send, settle, Shared, starts, steps,
  arrives, start, IsDone,
}
use oxid_relay.Dispatcher.Tick.Limits.{task_mail, in_claim}
use oxid_relay.Dispatcher.Tick.Progress.{
  waiting, busy, count_parts, view_claimed, view_refused, view_miss,
}
use oxid_relay.Queue.Counts.{once-same, count-member}
use oxid_relay.Dispatcher.Tick.Origin.{
  InBatch, Gave, Recorded, Buried, Prefix, whole, stepped, arrived, Prefix_trans, parts,
  Shared-Known,
}
use oxid_relay.Dispatcher.Tick.Delivers.Stages.{
  unroutable, answered_by, Stage, Stage-same, Stage-known, Stage-claim, Stage-close, Closed,
}
use oxid_relay.Dispatcher.Tick.Preserved.{Shared-Preserves}

module _ {S W T : Type 0} (host : Host W) (inner : Inner S W) (laws : QueueLaws T inner.queue)
    (mail : Mail) where
  module _ (P : S → Type 0) (keeps : Preserves inner.queue P)
      (works : Reliable laws P mail.id) where
    module _ (s : S) (w : W) (due : List Mail) {last : Tick S W}
        (run : Shared host inner (start s w due) last) (d : Delivery T) where
      abbrev pub StageOf : Tick S W → Type 0
      StageOf t =
          Stage host inner laws mail run d (laws.view t.queue mail.id)
            (waiting host inner laws mail.id t) (busy host inner laws mail.id t)

      module _ (ours : InBatch host inner s w due run mail)
          (once : count (is_mail mail.id) due ≤ 1) where
        is_ours :
            (m : Mail) → InBatch host inner s w due run m → is_mail mail.id m ≡ true → m ≡ mail
        is_ours m here hit =
            once-same (is_mail mail.id) due m mail once here ours hit (==_refl mail.id)

        -- The end of a task: that of the mail closes its delivery, that of another leaves it alone.
        end-Stage :
            (now later : S) (m : Mail) (f : Delivery T → Delivery T) (done : Bool)
            (todo live live' : ℕ)
            → ((i : MailId) → laws.view later i ≡ written done m.id f (laws.view now) i)
            → live ≡ count (is_mail mail.id) (m ∷ []) + live'
            → (is_mail mail.id m ≡ true
                → (x : Delivery T) → laws.view now mail.id ≡ some x
                → Closed host inner laws mail run x (laws.view later mail.id))
            → Stage host inner laws mail run d (laws.view now mail.id) todo live
            → Stage host inner laws mail run d (laws.view later mail.id) todo live'
        end-Stage now later m f done todo live live' left b close h =
            elim (Bool-cases (is_mail mail.id m)) [
              | inl hit ↦
                  Stage-close host inner laws mail run d _ _ todo live todo live' refl
                    (ground arith) (close hit) h
              | inr miss ↦
                  Stage-same host inner laws mail run d _ _ todo live todo live' refl (ground arith)
                    (view_miss host inner laws mail.id f done m now later miss (left mail.id)) h
            ]

        buries_ours :
            (t : Tick S W) (m : Mail)
            → InBatch host inner s w due run m
            → P t.queue
            → transport_for host inner m ≡ none
            → Buried host inner run m
            → is_mail mail.id m ≡ true
            → (x : Delivery T) → laws.view t.queue mail.id ≡ some x
            → Closed host inner laws mail run x (
                laws.view
                  (inner.queue.mark_dead m.id (no_transport host inner m) t.queue).1
                  mail.id)
        buries_ours t m here p n there hit x e =
            let same = is_ours m here hit in
            let message = no_transport host inner mail in
            subst
              (λ (o : Mail). Closed host inner laws mail run x (
                laws.view (inner.queue.mark_dead o.id (no_transport host inner o) t.queue).1
                  mail.id))
              (sym same)
              (
                buried message,
                unroutable (sym (ap (transport_for host inner) same) ∙ n)
                    (subst (Buried host inner run) same there),
                laws.dead_view mail.id mail.id message t.queue
                    ∙ written_there host inner laws _ mail.id (buried message) t.queue x
                        (works.dead message t.queue x p e) e,
              )

        settles_ours :
            (t : Tick S W) (m : Mail) (r : Result (Unit {0}) CoreError)
            → InBatch host inner s w due run m × Gave host inner run m r
            → Recorded host inner run m r t
            → P t.queue
            → is_mail mail.id m ≡ true
            → (x : Delivery T) → laws.view t.queue mail.id ≡ some x
            → Closed host inner laws mail run x
                (laws.view (record_outcome host inner m r (t.queue, t.world)).0 mail.id)
        settles_ours t m r (here, gave) there p hit x e =
            let same = is_ours m here hit in
            let (f, closes, recorded_there) =
              recorded host inner laws mail P works r t.queue t.world x p e in
            subst
              (λ (o : Mail).
                Closed host inner laws mail run x
                  (laws.view (record_outcome host inner o r (t.queue, t.world)).0 mail.id))
              (sym same)
              (
                f,
                answered_by r t (subst (λ (o : Mail). Gave host inner run o r) same gave)
                    (subst (λ (o : Mail). Recorded host inner run o r t) same there) closes,
                recorded_there,
              )

        before :
            {t u : Tick S W} (r : Shared host inner (start s w due) t) (st : Step host inner t u)
            → Prefix host inner (steps r st) last run
            → Prefix host inner r last run
        before r st on = Prefix_trans host inner (stepped st whole) on

        Step-Stage :
            {t u : Tick S W} (r : Shared host inner (start s w due) t) (st : Step host inner t u)
            → Prefix host inner (steps r st) last run
            → P t.queue
            → StageOf t
            → StageOf u
        Step-Stage {t = t} r (skip m rest e c f) on p h = elim (Bool-cases (is_mail mail.id m)) [
          | inl hit ↦
              let (x, known) = Stage-known host inner laws mail run d _ _ _ h in
              absurd (ground (arith, works.sending t.queue x p known))
          | inr miss ↦
              Stage-same host inner laws mail run d _ _ _ _ _ _
                (ground (arith, ap (count (is_mail mail.id)) e)) refl
                (view_refused host inner laws mail.id t m f) h
        ]
        Step-Stage {t = t} r (claim m rest e c f) on p h = elim (Bool-cases (is_mail mail.id m)) [
          | inl hit ↦
              Stage-claim host inner laws mail run d _ _ _ _ _ _
                (ground (arith, ap (count (is_mail mail.id)) e))
                (ground (arith, ap (in_claim (is_mail mail.id)) c))
                (rw hit at (view_claimed host inner laws mail.id t m f)) h
          | inr miss ↦
              Stage-same host inner laws mail run d _ _ _ _ _ _
                (ground (arith, ap (count (is_mail mail.id)) e))
                (ground (arith, ap (in_claim (is_mail mail.id)) c))
                (rw miss at (view_claimed host inner laws mail.id t m f)) h
        ]
        Step-Stage {t = t} r (spawn m c room) on p h =
            Stage-same host inner laws mail run d _ _ _ _ _ _ refl
              (omega (arith, ap (in_claim (is_mail mail.id)) c)) refl h
        Step-Stage {t = t} r (bury front back m e n) on p h =
            end-Stage t.queue _ m _ _ _ _ _
              (λ i. laws.dead_view m.id i (no_transport host inner m) t.queue)
              (omega (
                arith,
                count_parts host inner laws mail.id front back (started m),
                ap (count (λ x. is_mail mail.id (task_mail x))) e,
              ))
              (buries_ours t m
                (parts host inner s w due run front back (started m) t e
                  (Shared-Known host inner s w due run r (before r _ on))).0
                p n (t, r, front, back, e, n, on))
              h
        Step-Stage {t = t} r (send front back m via e n) on p h =
            Stage-same host inner laws mail run d _ _ _ _ _ _ refl
              (omega (
                arith,
                count_parts host inner laws mail.id front back (started m),
                count_parts host inner laws mail.id front back (answered m (via.send m t.world).0),
                ap (count (λ x. is_mail mail.id (task_mail x))) e,
              ))
              refl h
        Step-Stage {t = t} r (settle front back m x e) on p h =
            let (f, closes, (write, kind, left)) =
              record_outcome-Records host inner laws m x t.queue t.world in
            end-Stage t.queue _ m f _ _ _ _ left
              (omega (
                arith,
                count_parts host inner laws mail.id front back (answered m x),
                ap (count (λ x. is_mail mail.id (task_mail x))) e,
              ))
              (settles_ours t m x
                (parts host inner s w due run front back (answered m x) t e
                  (Shared-Known host inner s w due run r (before r _ on))).0
                (r, front, back, e, on) p)
              h

        pub Shared-Stage :
            {t : Tick S W} (r : Shared host inner (start s w due) t)
            → Prefix host inner r last run
            → P s
            → laws.view s mail.id ≡ some d
            → StageOf t
        Shared-Stage starts on p e =
            inl (
              omega (arith, count-member (is_mail mail.id) due mail ours (==_refl mail.id)),
              refl,
              e,
            )
        Shared-Stage (steps r st) on p e =
            Step-Stage r st on (Shared-Preserves host inner P keeps r p)
              (Shared-Stage r (before r st on) p e)
        Shared-Stage (arrives {u = u} m r) on p e =
            let h = Shared-Stage r (Prefix_trans host inner (arrived m whole) on) p e in
            let (x, known) = Stage-known host inner laws mail run d _ _ _ h in
            Stage-same host inner laws mail run d _ _ _ _ _ _ refl refl
              (laws.enqueue_view m mail.id x u.queue known ∙ sym known) h

        pub Stage-done :
            (t : Tick S W)
            → IsDone t
            → StageOf t
            → Closed host inner laws mail run (claimed d) (laws.view t.queue mail.id)
        Stage-done t done (inl (one, _, _)) =
            absurd (omega (arith, ap (count (is_mail mail.id)) done.todo))
        Stage-done t done (inr (inl (_, one, _))) = absurd (
            omega (
              arith,
              ap (in_claim (is_mail mail.id)) done.claimed,
              ap (count (λ x. is_mail mail.id (task_mail x))) done.running,
            ))
        Stage-done t done (inr (inr (_, _, closed))) = closed
