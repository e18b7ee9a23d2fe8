-- ===== src/Dispatcher/Deliver/Outcome.antt =====
-- What one delivery leaves in the queue.
use oxid_relay.Prelude.{
  ◌<◌, ◌≤◌, ◌≡◌, refl, true, false, none, some, arith, leb→le, Bool-cases, Option-cases, inl, inr,
}
use oxid_relay.Prelude.Text.{Text}
use oxid_relay.Prelude.Result.{Result, ok, err, is_ok}
use oxid_relay.Message.{CoreError, Mail, MailId, Time, error_text}
use oxid_relay.Queue.{Op}
use oxid_relay.Queue.Laws.{QueueLaws, Delivery, written, completed, buried, rescheduled}
use oxid_relay.Dispatcher.{Inner, Transport, Host}
use oxid_relay.Dispatcher.Retry.{is_exhausted}
use oxid_relay.Dispatcher.Deliver.{
  transport_for, no_transport, next_attempts, retry_at, record_failure, record_outcome, deliver,
}

module _ {S W : Type 0} (host : Host W) (inner : Inner S W) where
  -- What an answer of a transport means for the delivery: done; failed for good, with the attempts
  -- used up; or failed and to be tried again after the backoff.
  pub data Closes {T : Type 0} (stamp : Time → T) (mail : Mail) (w : W)
      : Result (Unit {0}) CoreError → (Delivery T → Delivery T) → Type 0 where
    succeeds : (u : Unit {0}) → Closes stamp mail w (ok u) completed
    exhausts :
        (x : CoreError)
        → inner.config.retry.max_attempts ≤ next_attempts host inner mail
        → Closes stamp mail w (err x) (buried (error_text x))
    retries :
        (x : CoreError)
        → next_attempts host inner mail < inner.config.retry.max_attempts
        → Closes stamp mail w
            (err x)
            (rescheduled (error_text x) (stamp (retry_at host inner mail (host.now w).0)))

  -- The same for a mail: without a transport it is buried at once.
  pub data Verdict {T : Type 0} (stamp : Time → T) (mail : Mail) (w : W)
      : (Delivery T → Delivery T) → Type 0 where
    unroutable :
        transport_for host inner mail ≡ none
        → Verdict stamp mail w (buried (no_transport host inner mail))
    answered :
        (t : Transport W) (r : Result (Unit {0}) CoreError) (f : Delivery T → Delivery T)
        → transport_for host inner mail ≡ some t
        → (t.send mail w).0 ≡ r
        → Closes stamp mail (t.send mail w).1 r f
        → Verdict stamp mail w f

  pub exhausted_le :
      (mail : Mail)
      → is_exhausted inner.config.retry (next_attempts host inner mail) ≡ true
      → inner.config.retry.max_attempts ≤ next_attempts host inner mail
  unfolding is_exhausted
  exhausted_le mail h = leb→le _ _ h

  pub not_exhausted_lt :
      (mail : Mail)
      → is_exhausted inner.config.retry (next_attempts host inner mail) ≡ false
      → next_attempts host inner mail < inner.config.retry.max_attempts
  unfolding is_exhausted
  not_exhausted_lt mail h = ground arith

  module _ {T : Type 0} (laws : QueueLaws T inner.queue) where
    -- The write of the queue that an effect on the mail is asked of.
    pub data Asks (mail : Mail) : (Delivery T → Delivery T) → Op S (Unit {0}) → Type 0 where
      marks_sent : Asks mail completed (inner.queue.mark_sent mail.id)
      marks_dead : (error : Text) → Asks mail (buried error) (inner.queue.mark_dead mail.id error)
      marks_failed :
          (error : Text) (at : Time)
          → Asks mail (rescheduled error (laws.stamp at)) (inner.queue.mark_failed mail.id error at)

    -- The queue `s` with the effect `f` on the mail where the queue carries the write out, and
    -- untouched where it refuses to.
    abbrev pub Records : Mail → (Delivery T → Delivery T) → S → S → Type 0
    Records mail f s s' =
        (write : Op S (Unit {0})) × Asks mail f write
        × ((j : MailId) → laws.view s' j ≡ written (is_ok (write s).0) mail.id f (laws.view s) j)

    pub record_outcome-Records :
        (mail : Mail) (r : Result (Unit {0}) CoreError) (s : S) (w : W)
        → (f : Delivery T → Delivery T) × Closes laws.stamp mail w r f
          × Records mail f s (record_outcome host inner mail r (s, w)).0
    unfolding record_outcome
    record_outcome-Records mail (ok u) s w =
        (completed, succeeds u, (_, marks_sent, λ j. laws.sent_view mail.id j s))
    record_outcome-Records mail (err x) s w =
        elim (Bool-cases (is_exhausted inner.config.retry (next_attempts host inner mail))) [
          | inl e ↦ (
            buried (error_text x),
            exhausts x (exhausted_le mail e),
            rw (e, record_failure)
                (_, marks_dead (error_text x), λ j. laws.dead_view mail.id j (error_text x) s),
          )
          | inr e ↦ (
            rescheduled (error_text x) (laws.stamp (retry_at host inner mail (host.now w).0)),
            retries x (not_exhausted_lt mail e),
            rw (e, record_failure)
                (
                  _,
                  marks_failed (error_text x) (retry_at host inner mail (host.now w).0),
                  λ j.
                      laws.failed_view mail.id j (error_text x)
                        (retry_at host inner mail (host.now w).0) s,
                ),
          )
        ]

    -- On a queue that keeps the laws, a delivery ends in a verdict, and the queue it leaves differs
    -- from the one before it by that verdict on that mail alone, where the queue carries out the
    -- write that the verdict asks of it, and not at all just where the queue refuses that write.
    -- The mail is completed as the transport succeeded; buried as it has no transport, or as the
    -- transport failed with the attempts used up; or, as the transport failed with attempts left,
    -- rescheduled after the backoff with one more attempt.
    pub deliver-Records :
        (mail : Mail) (s : S) (w : W)
        → (f : Delivery T → Delivery T) × Verdict laws.stamp mail w f
          × Records mail f s (deliver host inner mail (s, w)).0
    unfolding deliver
    deliver-Records mail s w = elim (Option-cases (transport_for host inner mail)) [
      | inl e ↦ (
        buried (no_transport host inner mail),
        unroutable e,
        rw (e, deliver)
            (
              _,
              marks_dead (no_transport host inner mail),
              λ j. laws.dead_view mail.id j (no_transport host inner mail) s,
            ),
      )
      | inr (t, e) ↦
          let (f, closes, left) =
            record_outcome-Records mail (t.send mail w).0 s (t.send mail w).1 in
          (f, answered t _ f e refl closes, rw (e, deliver) left)
    ]
