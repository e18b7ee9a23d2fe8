-- ===== src/Dispatcher/Tick/Limits.antt =====
-- How many deliveries of a tick run at once, and how often a mail is spawned.
use oxid_relay.Prelude.{
  ℕ, ◌+◌, ◌≤◌, ap, Bool, Option, none, some, List, [], ◌∷◌, length, length-append, count,
  count-append, arith,
}
use oxid_relay.Message.{Mail}
use oxid_relay.Dispatcher.{Inner, Host}
use oxid_relay.Dispatcher.Tick.{
  Tick, Task, started, answered, Step, skip, claim, spawn, bury, send, settle, Reach, here, next,
  start,
}

abbrev pub task_mail : Task → Mail
task_mail (started m) = m
task_mail (answered m r) = m

abbrev pub in_claim : (Mail → Bool) → Option Mail → ℕ
in_claim p none = 0
in_claim p (some m) = count p (m ∷ [])

module _ {S W : Type 0} (host : Host W) (inner : Inner S W) where
  Step-concurrency :
      {t u : Tick S W}
      → Step host inner t u
      → length t.running ≤ inner.config.concurrency
      → length u.running ≤ inner.config.concurrency
  Step-concurrency (skip m rest e c f) h = h
  Step-concurrency (claim m rest e c f) h = h
  Step-concurrency (spawn m c room) h = room
  Step-concurrency (bury before after m e n) h = omega (
    arith,
    ap length e,
    length-append {0} before (started m ∷ after),
    length-append {0} before after,
  )
  Step-concurrency {t = now} (send before after m t e n) h = omega (
    arith,
    ap length e,
    length-append {0} before (started m ∷ after),
    length-append {0} before (answered m (t.send m now.world).0 ∷ after),
  )
  Step-concurrency (settle before after m r e) h = omega (
    arith,
    ap length e,
    length-append {0} before (answered m r ∷ after),
    length-append {0} before after,
  )

  -- At no moment of a tick do more deliveries run than the configured concurrency.
  pub Reach-concurrency :
      (s : S) (w : W) (due : List Mail) {t : Tick S W}
      → Reach host inner (start s w due) t
      → length t.running ≤ inner.config.concurrency
  Reach-concurrency s w due here = omega arith
  Reach-concurrency s w due (next r st) = Step-concurrency st (Reach-concurrency s w due r)

  -- Of the mails that pass `p`: each is waiting its turn, claimed, spawned or skipped, and only
  -- spawned ones run.
  record Counted (p : Mail → Bool) (due : List Mail) (t : Tick S W) : Type 0 where
    pub spawned : count p t.handles + in_claim p t.claimed + count p t.todo ≤ count p due
    pub live : count (λ x. p (task_mail x)) t.running ≤ count p t.handles

  Step-Counted :
      (p : Mail → Bool) (due : List Mail) {t u : Tick S W}
      → Step host inner t u
      → Counted p due t
      → Counted p due u
  Step-Counted p due (skip m rest e c f) h = omega (arith, ap (count p) e, ap (in_claim p) c)
  Step-Counted p due (claim m rest e c f) h = omega (arith, ap (count p) e, ap (in_claim p) c)
  Step-Counted p due {t = now} (spawn m c room) h =
      omega (arith, ap (in_claim p) c, count-append {0} p now.handles (m ∷ []))
  Step-Counted p due (bury before after m e n) h = omega (
    arith,
    ap (count (λ x. p (task_mail x))) e,
    count-append {0} (λ x. p (task_mail x)) before (started m ∷ after),
    count-append {0} (λ x. p (task_mail x)) before after,
  )
  Step-Counted p due {t = now} (send before after m t e n) h = omega (
    arith,
    ap (count (λ x. p (task_mail x))) e,
    count-append {0} (λ x. p (task_mail x)) before (started m ∷ after),
    count-append {0} (λ x. p (task_mail x)) before (answered m (t.send m now.world).0 ∷ after),
  )
  Step-Counted p due (settle before after m r e) h = omega (
    arith,
    ap (count (λ x. p (task_mail x))) e,
    count-append {0} (λ x. p (task_mail x)) before (answered m r ∷ after),
    count-append {0} (λ x. p (task_mail x)) before after,
  )

  -- However the loop and the tasks interleave, no mail of the batch is spawned more often than it
  -- stands in the batch, counting also those claimed or still to come; and only spawned mails run.
  Reach-Counted :
      (p : Mail → Bool) (s : S) (w : W) (due : List Mail) {t : Tick S W}
      → Reach host inner (start s w due) t
      → Counted p due t
  Reach-Counted p s w due here = omega arith
  Reach-Counted p s w due (next r st) = Step-Counted p due st (Reach-Counted p s w due r)
