-- ===== src/Dispatcher/Tick/Progress/Stages.antt =====
-- The stages of one mail of a batch: still to come, with a task, or through.
use mathlib.Core.Option
use oxid_relay.Prelude.{ℕ, suc, ◌≡◌, ap, subst, sym, ◌∙◌, ◌⊎◌, inl, inr, Option, arith}
use oxid_relay.Prelude.Text.{Text}
use oxid_relay.Prelude.Result.{Result}
use oxid_relay.Message.{CoreError, Mail, Time, error_text}
use oxid_relay.Queue.Laws.{Delivery, claimed, completed, buried, rescheduled}
use oxid_relay.Dispatcher.{Inner, Host}
use oxid_relay.Dispatcher.Deliver.{retry_at}
use oxid_relay.Dispatcher.Deliver.Outcome.{Closes, succeeds, exhausts, retries}

-- The three ways to close a delivery.
pub data Closing {T : Type 0} : (Delivery T → Delivery T) → Type 0 where
  completes : Closing completed
  buries : (error : Text) → Closing (buried error)
  reschedules : (error : Text) (at : T) → Closing (rescheduled error at)

pub Closes-Closing :
    {S W T : Type 0} (host : Host W) (inner : Inner S W) (stamp : Time → T) (mail : Mail) (w : W)
    {r : Result (Unit {0}) CoreError} {f : Delivery T → Delivery T}
    → Closes host inner stamp mail w r f
    → Closing f
Closes-Closing host inner stamp mail w (succeeds u) = completes
Closes-Closing host inner stamp mail w (exhausts x h) = buries (error_text x)
Closes-Closing host inner stamp mail w (retries x h) =
    reschedules (error_text x) (stamp (retry_at host inner mail (host.now w).0))

-- At most one claim and, after a claim, at most one closing.
pub data Progress {T : Type 0} (before : Option (Delivery T)) : Option (Delivery T) → Type 0 where
  untouched : Progress before before
  taken : Progress before (Option.map claimed before)
  closed :
      (f : Delivery T → Delivery T)
      → Closing f
      → Progress before (Option.map f (Option.map claimed before))

-- `todo` and `busy` count the mail among those to come, and among the claimed and running ones.
abbrev pub Stage : {T : Type 0} → Option (Delivery T) → Option (Delivery T) → ℕ → ℕ → Type 0
Stage before after todo busy =
    ((todo ≡ 1) × (busy ≡ 0) × (after ≡ before))
    ⊎ ((todo ≡ 0) × (busy ≡ 1) × (after ≡ Option.map claimed before))
    ⊎ ((todo ≡ 0) × (busy ≡ 0) × Progress before after)

module _ {T : Type 0} (before now later : Option (Delivery T)) (todo busy todo' busy' : ℕ) where
  pub Stage-same :
      todo' ≡ todo
      → busy' ≡ busy
      → later ≡ now
      → Stage before now todo busy
      → Stage before later todo' busy'
  Stage-same t b e h =
      subst (λ (x : Option (Delivery T)). Stage before x todo' busy') (sym e)
        (subst (λ (n : ℕ). Stage before now n busy') (sym t)
          (subst (λ (n : ℕ). Stage before now todo n) (sym b) h))

  pub Stage-skip :
      todo ≡ suc todo'
      → busy' ≡ busy
      → later ≡ now
      → Stage before now todo busy
      → Stage before later todo' busy'
  Stage-skip t b e (inl (one, idle, same)) =
      inr (inr (omega arith, omega arith, subst (Progress before) (sym (e ∙ same)) untouched))
  Stage-skip t b e (inr (inl (none_left, _, _))) = absurd (omega arith)
  Stage-skip t b e (inr (inr (none_left, _, _))) = absurd (omega arith)

  pub Stage-claim :
      todo ≡ suc todo'
      → busy' ≡ suc busy
      → later ≡ Option.map claimed now
      → Stage before now todo busy
      → Stage before later todo' busy'
  Stage-claim t b e (inl (one, idle, same)) =
      inr (inl (omega arith, omega arith, e ∙ ap (Option.map claimed) same))
  Stage-claim t b e (inr (inl (none_left, _, _))) = absurd (omega arith)
  Stage-claim t b e (inr (inr (none_left, _, _))) = absurd (omega arith)

  pub Stage-close :
      (f : Delivery T → Delivery T)
      → Closing f
      → todo' ≡ todo
      → busy ≡ suc busy'
      → (later ≡ Option.map f now) ⊎ (later ≡ now)
      → Stage before now todo busy
      → Stage before later todo' busy'
  Stage-close f k t b e (inl (one, idle, same)) = absurd (omega arith)
  Stage-close f k t b (inl e) (inr (inl (none_left, one, same))) = inr (
      inr (
        omega arith,
        omega arith,
        subst (Progress before) (sym (e ∙ ap (Option.map f) same)) (closed f k),
      ))
  Stage-close f k t b (inr e) (inr (inl (none_left, one, same))) =
      inr (inr (omega arith, omega arith, subst (Progress before) (sym (e ∙ same)) taken))
  Stage-close f k t b e (inr (inr (none_left, idle, same))) = absurd (omega arith)

pub Stage-done :
    {T : Type 0} (before after : Option (Delivery T)) (todo busy : ℕ)
    → todo ≡ 0
    → busy ≡ 0
    → Stage before after todo busy
    → Progress before after
Stage-done before after todo busy t b (inl (one, _, _)) = absurd (omega arith)
Stage-done before after todo busy t b (inr (inl (_, one, _))) = absurd (omega arith)
Stage-done before after todo busy t b (inr (inr (_, _, p))) = p
