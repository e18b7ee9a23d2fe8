-- ===== src/Dispatcher/Tick/Delivers/Stages.antt =====
-- The stages of a mail of a batch whose transitions all succeed: to come, claimed, closed.
use mathlib.Core.Option
use oxid_relay.Prelude.{
  ℕ, suc, ◌≡◌, refl, sym, ap, subst, ◌∙◌, ◌⊎◌, inl, inr, Option, none, some, arith,
}
use oxid_relay.Prelude.Result.{Result, ok}
use oxid_relay.Message.{CoreError, Mail, Time}
use oxid_relay.Queue.Laws.{QueueLaws, Delivery, claimed, completed, buried}
use oxid_relay.Dispatcher.{Inner, Transport, Host}
use oxid_relay.Dispatcher.Deliver.{transport_for, no_transport}
use oxid_relay.Dispatcher.Deliver.Outcome.{Closes, succeeds, exhausts, retries}
use oxid_relay.Dispatcher.Tick.{Tick, Shared}
use oxid_relay.Dispatcher.Tick.Origin.{Gave, Recorded, Buried}

Closes-completed :
    {S W T : Type 0} {host : Host W} {inner : Inner S W} {stamp : Time → T} (mail : Mail) (w : W)
    {r : Result (Unit {0}) CoreError} {f : Delivery T → Delivery T}
    → r ≡ ok tt
    → Closes host inner stamp mail w r f
    → f ≡ completed
Closes-completed mail w e (succeeds u) = refl
Closes-completed mail w e (exhausts x h) = absurd (cc)
Closes-completed mail w e (retries x h) = absurd (cc)

module _ {S W T : Type 0} (host : Host W) (inner : Inner S W) (laws : QueueLaws T inner.queue)
    (mail : Mail) where
  module _ {first last : Tick S W} (run : Shared host inner first last) where
    -- What closes the delivery: that it has no transport, in the step that buries it; or an answer
    -- that its transport gave in a step of the run and that another step recorded.
    pub data Delivered : (Delivery T → Delivery T) → Type 0 where
      unroutable :
          transport_for host inner mail ≡ none
          → Buried host inner run mail
          → Delivered (buried (no_transport host inner mail))
      answered_by :
          {f : Delivery T → Delivery T} (r : Result (Unit {0}) CoreError) (v : Tick S W)
          → Gave host inner run mail r
          → Recorded host inner run mail r v
          → Closes host inner laws.stamp mail v.world r f
          → Delivered f

    -- The delivery `x` as it was closed.
    abbrev pub Closed : Delivery T → Option (Delivery T) → Type 0
    Closed x now = (f : Delivery T → Delivery T) × Delivered f × (now ≡ some (f x))

  module _ {first last : Tick S W} (run : Shared host inner first last) (d : Delivery T) where
    -- The mail is still to come, or claimed, or its delivery is closed.
    abbrev pub Stage : Option (Delivery T) → ℕ → ℕ → Type 0
    Stage now todo live =
        ((todo ≡ 1) × (live ≡ 0) × (now ≡ some d))
        ⊎ ((todo ≡ 0) × (live ≡ 1) × (now ≡ some (claimed d)))
        ⊎ ((todo ≡ 0) × (live ≡ 0) × Closed run (claimed d) now)

    pub Stage-same :
        (now later : Option (Delivery T)) (todo live todo' live' : ℕ)
        → todo' ≡ todo
        → live' ≡ live
        → later ≡ now
        → Stage now todo live
        → Stage later todo' live'
    Stage-same now later todo live todo' live' t b e h =
        subst (λ (x : Option (Delivery T)). Stage x todo' live') (sym e)
          (subst (λ (n : ℕ). Stage now n live') (sym t)
            (subst (λ (n : ℕ). Stage now todo n) (sym b) h))

    pub Stage-known :
        (now : Option (Delivery T)) (todo live : ℕ)
        → Stage now todo live
        → (x : Delivery T) × (now ≡ some x)
    Stage-known now todo live (inl (_, _, e)) = (d, e)
    Stage-known now todo live (inr (inl (_, _, e))) = (claimed d, e)
    Stage-known now todo live (inr (inr (_, _, (f, _, e)))) = (f (claimed d), e)

    pub Stage-claim :
        (now later : Option (Delivery T)) (todo live todo' live' : ℕ)
        → todo ≡ suc todo'
        → live' ≡ suc live
        → later ≡ Option.map claimed now
        → Stage now todo live
        → Stage later todo' live'
    Stage-claim now later todo live todo' live' t b e (inl (one, idle, same)) =
        inr (inl (omega arith, omega arith, e ∙ ap (Option.map claimed) same))
    Stage-claim now later todo live todo' live' t b e (inr (inl (z, _, _))) = absurd (omega arith)
    Stage-claim now later todo live todo' live' t b e (inr (inr (z, _, _))) = absurd (omega arith)

    -- The end of a task of the mail.
    pub Stage-close :
        (now later : Option (Delivery T)) (todo live todo' live' : ℕ)
        → todo' ≡ todo
        → live ≡ suc live'
        → ((x : Delivery T) → now ≡ some x → Closed run x later)
        → Stage now todo live
        → Stage later todo' live'
    Stage-close now later todo live todo' live' t b e (inl (one, idle, same)) = absurd (omega arith)
    Stage-close now later todo live todo' live' t b e (inr (inl (z, one, same))) =
        inr (inr (omega arith, omega arith, e (claimed d) same))
    Stage-close now later todo live todo' live' t b e (inr (inr (z, idle, _))) =
        absurd (omega arith)

  -- Where the mail's transport accepts it, it accepted it in the run, and that closed the delivery.
  pub Delivered-completed :
      {first last : Tick S W} (run : Shared host inner first last) (via : Transport W)
      {f : Delivery T → Delivery T}
      → transport_for host inner mail ≡ some via
      → ((v : W) → (via.send mail v).0 ≡ ok tt)
      → Delivered run f
      → (f ≡ completed) × Gave host inner run mail (ok tt)
  Delivered-completed run via known accepts (unroutable missing buries) = absurd (cc)
  Delivered-completed run via known accepts
        (answered_by r v (u, p, via', front, back, e, same, on, said) record_step closes) =
      let agreed : via' ≡ via = cc in
      let fine : r ≡ ok tt = sym said ∙ (rw (← agreed) at (accepts u.world)) in
      (
        Closes-completed mail v.world fine closes,
        (u, p, via', front, back, e, same, on, said ∙ fine),
      )
