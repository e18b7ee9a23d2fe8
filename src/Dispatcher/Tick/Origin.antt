-- ===== src/Dispatcher/Tick/Origin.antt =====
-- Where the mails of a tick come from, and when the answers of its tasks were given.
use mathlib.Core.List.{Memᴰ}
use oxid_relay.Prelude.{
  ◌≡◌, refl, subst, none, some, List, ◌∷◌, ◌++◌, All, All-append, All-split, All-self,
}
use oxid_relay.Prelude.Result.{Result}
use oxid_relay.Message.{CoreError, Mail}
use oxid_relay.Dispatcher.{Inner, Transport, Host}
use oxid_relay.Dispatcher.Deliver.{transport_for}
use oxid_relay.Dispatcher.Tick.{
  Tick, Task, started, answered, Step, skip, claim, spawn, bury, send, settle, Shared, starts,
  steps, arrives, start,
}

module _ {S W : Type 0} (host : Host W) (inner : Inner S W) {first : Tick S W} where
  -- A run that has gone on from another.
  pub data Prefix {v : Tick S W} (p : Shared host inner first v)
      : (t : Tick S W) → Shared host inner first t → Type 0 where
    whole : Prefix p v p
    stepped :
        {t u : Tick S W} {r : Shared host inner first t} (st : Step host inner t u)
        → Prefix p t r
        → Prefix p u (steps r st)
    arrived :
        {t : Tick S W} {r : Shared host inner first t} (m : Mail)
        → Prefix p t r
        → Prefix p (record t { queue = (inner.queue.enqueue m t.queue).1 }) (arrives m r)

  pub Prefix_trans :
      {t u : Tick S W} {p : Shared host inner first t} {q : Shared host inner first u}
      {v : Tick S W} {r : Shared host inner first v}
      → Prefix p u q
      → Prefix q v r
      → Prefix p v r
  Prefix_trans a whole = a
  Prefix_trans a (stepped st b) = stepped st (Prefix_trans a b)
  Prefix_trans a (arrived m b) = arrived m (Prefix_trans a b)

  module _ {last : Tick S W} (run : Shared host inner first last) where
    -- In a step of the run the transport of the mail was called, and gave this answer.
    abbrev pub Gave : Mail → Result (Unit {0}) CoreError → Type 0
    Gave m r =
        (u : Tick S W) × (p : Shared host inner first u) × (via : Transport W) × (front : List Task)
        × (back : List Task) × (e : u.running ≡ front ++ started m ∷ back) × (known : transport_for
              host inner m
            ≡ some via)
        × Prefix (steps p (send front back m via e known)) _ run
        × ((via.send m u.world).0 ≡ r)

    -- In a step of the run, from `v`, the answer was recorded.
    abbrev pub Recorded : Mail → Result (Unit {0}) CoreError → Tick S W → Type 0
    Recorded m r v =
        (p : Shared host inner first v) × (front : List Task) × (back : List Task) × (e : v.running
          ≡ front ++ answered m r ∷ back)
        × Prefix (steps p (settle front back m r e)) _ run

    -- In a step of the run the mail was buried, as it has no transport.
    abbrev pub Buried : Mail → Type 0
    Buried m =
        (v : Tick S W) × (p : Shared host inner first v) × (front : List Task) × (back : List Task)
        × (e : v.running ≡ front ++ started m ∷ back) × (missing : transport_for host inner m
            ≡ none)
        × Prefix (steps p (bury front back m e missing)) _ run

module _ {S W : Type 0} (host : Host W) (inner : Inner S W) (s : S) (w : W) (due : List Mail)
    {last : Tick S W} (run : Shared host inner (start s w due) last) where
  abbrev pub InBatch : Mail → Type 0
  InBatch m = Memᴰ m due

  abbrev pub Traced : Task → Type 0
  Traced (started m) = InBatch m
  Traced (answered m r) = InBatch m × Gave host inner run m r

  pub record Known (t : Tick S W) : Type 0 where
    pub todo : All InBatch t.todo
    pub claimed : (m : Mail) → t.claimed ≡ some m → InBatch m
    pub running : All Traced t.running

  -- One running task of several: it, and the others.
  pub parts :
      (front back : List Task) (x : Task) (t : Tick S W)
      → t.running ≡ front ++ x ∷ back
      → Known t
      → Traced x × All Traced front × All Traced back
  parts front back x t e k =
      let (before, (at, after)) =
        All-split Traced front (x ∷ back) (subst (All Traced) e k.running) in
      (at, before, after)

  pub Step-Known :
      {t u : Tick S W} (r : Shared host inner (start s w due) t) (st : Step host inner t u)
      → Prefix host inner (steps r st) last run
      → Known t
      → Known u
  Step-Known {t = t} r (skip m rest e c f) on k = record {
    todo = (subst (All InBatch) e k.todo).1;
    claimed = k.claimed;
    running = k.running;
  }
  Step-Known {t = t} r (claim m rest e c f) on k = record {
    todo = (subst (All InBatch) e k.todo).1;
    claimed = λ m' same. subst InBatch (cc) (subst (All InBatch) e k.todo).0;
    running = k.running;
  }
  Step-Known {t = t} r (spawn m c room) on k = record {
    todo = k.todo;
    claimed = λ m' same. absurd (cc);
    running = (k.claimed m c, k.running);
  }
  Step-Known {t = t} r (bury front back m e n) on k =
      let (at, before, after) = parts front back (started m) t e k in
      record {
        todo = k.todo;
        claimed = k.claimed;
        running = All-append Traced front back before after;
      }
  Step-Known {t = t} r (send front back m via e n) on k =
      let (at, before, after) = parts front back (started m) t e k in
      record {
        todo = k.todo;
        claimed = k.claimed;
        running =
            All-append Traced front (answered m (via.send m t.world).0 ∷ back) before
              ((at, (t, r, via, front, back, e, n, on, refl)), after);
      }
  Step-Known {t = t} r (settle front back m x e) on k =
      let (at, before, after) = parts front back (answered m x) t e k in
      record {
        todo = k.todo;
        claimed = k.claimed;
        running = All-append Traced front back before after;
      }

  -- At every moment of a tick every mail that the loop or a task has is one of the batch, and every
  -- answer is one that its transport gave in the run.
  pub Shared-Known :
      {t : Tick S W} (r : Shared host inner (start s w due) t)
      → Prefix host inner r last run
      → Known t
  Shared-Known starts on = record {
    todo = All-self due;
    claimed = λ m e. absurd (cc);
    running = tt;
  }
  Shared-Known (steps r st) on =
      Step-Known r st on (Shared-Known r (Prefix_trans host inner (stepped st whole) on))
  Shared-Known (arrives m r) on =
      let k = Shared-Known r (Prefix_trans host inner (arrived m whole) on) in
      record { todo = k.todo; claimed = k.claimed; running = k.running }
