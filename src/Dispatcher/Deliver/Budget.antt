-- ===== src/Dispatcher/Deliver/Budget.antt =====
-- The attempts that `deliver` counts, and their limit.
use oxid_relay.Prelude.{
  ℕ, ◌<◌, ◌≤◌, ◌^◌, ◌≡◌, refl, ◌∙◌, Bool, true, false, Option, some, ==_refl, arith,
}
use oxid_relay.Prelude.Result.{Result}
use oxid_relay.Message.{CoreError, Mail, Time, MailId, sent, dead}
use oxid_relay.Queue.Laws.{QueueLaws, Delivery, written}
use oxid_relay.Dispatcher.{Inner, Host}
use oxid_relay.Dispatcher.Deliver.{deliver}
use oxid_relay.Dispatcher.Deliver.Outcome.{
  Verdict, Closes, unroutable, answered, succeeds, exhausts, retries, deliver-Records,
}

-- A mail that may still be tried has attempts left; one that is sent or dead has used no more than
-- there are.
abbrev pub Within : {T : Type 0} → ℕ → Delivery T → Type 0
Within limit d = elim d.status [
  | sent ↦ d.attempts ≤ limit
  | dead ↦ d.attempts ≤ limit
  | _ ↦ d.attempts < limit
]

Within-written :
    {T : Type 0} (limit : ℕ) (done : Bool) (i : MailId) (f : Delivery T → Delivery T)
    (view : MailId → Option (Delivery T)) (d : Delivery T)
    → view i ≡ some d
    → Within limit d
    → Within limit (f d)
    → (d' : Delivery T) × (written done i f view i ≡ some d') × Within limit d'
Within-written limit true i f view d known h k = (f d, rw (==_refl i, known) refl, k)
Within-written limit false i f view d known h k = (d, known, h)

module _ {S W : Type 0} (host : Host W) (inner : Inner S W) where
  Closes-Within :
      {T : Type 0} (stamp : Time → T) (mail : Mail) (w : W) (r : Result (Unit {0}) CoreError)
      (f : Delivery T → Delivery T) (d : Delivery T)
      → d.attempts ≡ mail.attempts
      → mail.attempts < inner.config.retry.max_attempts
      → inner.config.retry.max_attempts < 2 ^ 32
      → Closes host inner stamp mail w r f
      → Within inner.config.retry.max_attempts (f d)
  Closes-Within stamp mail w r f d same left fits (succeeds u) = omega arith
  Closes-Within stamp mail w r f d same left fits (exhausts x h) = omega arith
  Closes-Within stamp mail w r f d same left fits (retries x h) = omega arith

  Verdict-Within :
      {T : Type 0} (stamp : Time → T) (mail : Mail) (w : W) (f : Delivery T → Delivery T)
      (d : Delivery T)
      → d.attempts ≡ mail.attempts
      → mail.attempts < inner.config.retry.max_attempts
      → inner.config.retry.max_attempts < 2 ^ 32
      → Verdict host inner stamp mail w f
      → Within inner.config.retry.max_attempts (f d)
  Verdict-Within stamp mail w f d same left fits (unroutable e) = omega arith
  Verdict-Within stamp mail w f d same left fits (answered t r g e a closes) =
      Closes-Within stamp mail _ r _ d same left fits closes

  -- On a queue that keeps the laws, delivering a mail that has attempts left, as many as the queue
  -- records of it, never takes it past the limit, which fits 32 bits: whatever the transport and
  -- the queue answer, the mail is still in the queue, and it is either sent or dead with at most
  -- `max_attempts` attempts, or it has attempts left.
  pub deliver-Within :
      {T : Type 0} (laws : QueueLaws T inner.queue) (mail : Mail) (s : S) (w : W) (d : Delivery T)
      → laws.view s mail.id ≡ some d
      → d.attempts ≡ mail.attempts
      → mail.attempts < inner.config.retry.max_attempts
      → inner.config.retry.max_attempts < 2 ^ 32
      → Within inner.config.retry.max_attempts d
      → (d' : Delivery T) × (laws.view (deliver host inner mail (s, w)).0 mail.id ≡ some d')
        × Within inner.config.retry.max_attempts d'
  deliver-Within laws mail s w d known same left fits within =
      let (f, v, (write, kind, left_as)) = deliver-Records host inner laws mail s w in
      let (d', e, h) =
        Within-written _ _ mail.id f (laws.view s) d known within
          (Verdict-Within laws.stamp mail w f d same left fits v) in
      (d', left_as mail.id ∙ e, h)
