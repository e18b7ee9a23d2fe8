-- ===== src/Dispatcher/Deliver/Recorded.antt =====
-- What a delivery leaves in a queue that carries out its transition.
use oxid_relay.Prelude.{◌≡◌, ◌∙◌, inl, inr, some, Bool-cases}
use oxid_relay.Prelude.Result.{Result, ok, err}
use oxid_relay.Message.{CoreError, Mail, error_text}
use oxid_relay.Queue.Laws.{QueueLaws, Delivery, Reliable, completed, buried, rescheduled}
use oxid_relay.Dispatcher.{Inner, Host}
use oxid_relay.Dispatcher.Retry.{is_exhausted}
use oxid_relay.Dispatcher.Deliver.{next_attempts, retry_at, record_failure, record_outcome}
use oxid_relay.Dispatcher.Deliver.Outcome.{
  Closes, succeeds, exhausts, retries, exhausted_le, not_exhausted_lt,
}
use oxid_relay.Dispatcher.Deliver.GivesUp.{written_there}

module _ {S W T : Type 0} (host : Host W) (inner : Inner S W) (laws : QueueLaws T inner.queue)
    (mail : Mail) (P : S → Type 0) (works : Reliable laws P mail.id) where
  -- The record of an answer that the queue accepts.
  pub recorded :
      (r : Result (Unit {0}) CoreError) (s : S) (w : W) (d : Delivery T)
      → P s
      → laws.view s mail.id ≡ some d
      → (f : Delivery T → Delivery T) × Closes host inner laws.stamp mail w r f
        × (laws.view (record_outcome host inner mail r (s, w)).0 mail.id ≡ some (f d))
  unfolding record_outcome
  recorded (ok u) s w d p e = (
    completed,
    succeeds u,
    laws.sent_view mail.id mail.id s
        ∙ written_there host inner laws _ mail.id completed s d (works.sent s d p e) e,
  )
  recorded (err x) s w d p e =
      elim (Bool-cases (is_exhausted inner.config.retry (next_attempts host inner mail))) [
        | inl over ↦ (
          buried (error_text x),
          exhausts x (exhausted_le host inner mail over),
          rw (over, record_failure)
              (laws.dead_view mail.id mail.id (error_text x) s
                ∙ written_there host inner laws _ mail.id (buried (error_text x)) s d
                    (works.dead (error_text x) s d p e) e),
        )
        | inr under ↦
            let at = retry_at host inner mail (host.now w).0 in
            (
              rescheduled (error_text x) (laws.stamp at),
              retries x (not_exhausted_lt host inner mail under),
              rw (under, record_failure)
                  (laws.failed_view mail.id mail.id (error_text x) at s
                    ∙ written_there host inner laws _ mail.id
                        (rescheduled (error_text x) (laws.stamp at)) s d
                        (works.failed (error_text x) at s d p e) e),
            )
      ]
