-- ===== src/Dispatcher/Tick/Finish.antt =====
-- How far a tick of crates/dispatcher/src/lib.rs is from its end.
use oxid_relay.Prelude.{
  ℕ, suc, ◌+◌, ◌*◌, ◌<◌, ◌≤◌, ◌≡◌, ◌⊎◌, inl, inr, refl, ap, Bool-cases, Option, Option-cases, none,
  some, List, [], ◌∷◌, ◌++◌, length, arith,
}
use oxid_relay.Prelude.Result.{is_ok}
use oxid_relay.Message.{Mail}
use oxid_relay.Dispatcher.{Inner, Host}
use oxid_relay.Dispatcher.Deliver.{transport_for}
use oxid_relay.Dispatcher.Tick.{
  Tick, Task, started, answered, Step, skip, claim, spawn, bury, send, settle, Reach, here, next,
  start, IsDone,
}

-- The steps that a task has left.
abbrev task_work : Task → ℕ
task_work (started m) = 2
task_work (answered m r) = 1

abbrev running_work : List Task → ℕ
running_work [] = 0
running_work (x ∷ xs) = task_work x + running_work xs

abbrev claim_work : Option Mail → ℕ
claim_work none = 0
claim_work (some m) = 3

-- The most steps that a tick has left.
abbrev pub work : {S W : Type 0} → Tick S W → ℕ
work t = 4 * length t.todo + claim_work t.claimed + running_work t.running

running_work-append :
    (xs ys : List Task) → running_work (xs ++ ys) ≡ running_work xs + running_work ys
running_work-append [] ys = omega arith
running_work-append (x ∷ xs) ys = omega (arith, running_work-append xs ys)

List-cases : {A : Type 0} (xs : List A) → (xs ≡ []) ⊎ ((y : A) × (ys : List A) × (xs ≡ y ∷ ys))
List-cases [] = inl refl
List-cases (y ∷ ys) = inr (y, ys, refl)

module _ {S W : Type 0} (host : Host W) (inner : Inner S W) where
  Step-work : {t u : Tick S W} → Step host inner t u → work u < work t
  Step-work (skip m rest e c f) = omega (arith, ap length e)
  Step-work (claim m rest e c f) = omega (arith, ap length e, ap claim_work c)
  Step-work (spawn m c room) = omega (arith, ap claim_work c)
  Step-work (bury front back m e n) = omega (
    arith,
    ap running_work e,
    running_work-append front (started m ∷ back),
    running_work-append front back,
  )
  Step-work {t = t} (send front back m via e n) = omega (
    arith,
    ap running_work e,
    running_work-append front (started m ∷ back),
    running_work-append front (answered m (via.send m t.world).0 ∷ back),
  )
  Step-work (settle front back m r e) = omega (
    arith,
    ap running_work e,
    running_work-append front (answered m r ∷ back),
    running_work-append front back,
  )

  -- A running task can go on.
  task-Step :
      (t : Tick S W) (x : Task) (xs : List Task)
      → t.running ≡ x ∷ xs
      → (u : Tick S W) × Step host inner t u
  task-Step t (answered m r) xs e = (_, settle [] xs m r e)
  task-Step t (started m) xs e = elim (Option-cases (transport_for host inner m)) [
    | inl n ↦ (_, bury [] xs m e n)
    | inr (via, n) ↦ (_, send [] xs m via e n)
  ]

  -- The loop can go on while no task runs.
  loop-Step :
      (t : Tick S W)
      → 0 < inner.config.concurrency
      → t.running ≡ []
      → IsDone t ⊎ ((u : Tick S W) × Step host inner t u)
  loop-Step t room idle = elim (Option-cases t.claimed) [
    | inr (m, c) ↦ inr (_, spawn m c (omega (arith, ap length idle)))
    | inl c ↦ elim (List-cases t.todo) [
      | inl d ↦ inl (record { todo = d; claimed = c; running = idle })
      | inr (m, rest, d) ↦ elim (Bool-cases (is_ok (inner.queue.mark_sending m.id t.queue).0)) [
        | inl f ↦ inr (_, claim m rest d c f)
        | inr f ↦ inr (_, skip m rest d c f)
      ]
    ]
  ]

  -- The number of steps of a run.
  abbrev pub steps : {t u : Tick S W} → Reach host inner t u → ℕ
  steps here = 0
  steps (next r st) = suc (steps r)

  steps-work : {t u : Tick S W} (r : Reach host inner t u) → steps r + work u ≤ work t
  steps-work here = omega arith
  steps-work (next r st) = omega (arith, steps-work r, Step-work st)

  -- With a positive concurrency a tick always ends, whatever the transports and the queue answer:
  -- no run of it over a batch has more than four steps for each mail of the batch, and a run that
  -- has come to `t` is done or can take a further step.
  pub tick-finishes :
      (s : S) (w : W) (due : List Mail) {t : Tick S W}
      → 0 < inner.config.concurrency
      → (r : Reach host inner (start s w due) t)
      → (steps r ≤ 4 * length due) × (IsDone t ⊎ ((u : Tick S W) × Step host inner t u))
  tick-finishes s w due {t = t} room r = (
    omega (arith, steps-work r),
    elim (List-cases t.running) [
      | inl idle ↦ loop-Step t room idle
      | inr (x, xs, e) ↦ inr (task-Step t x xs e)
    ],
  )
