-- ===== src/Examples/Failing.antt =====
-- A mail with two attempts left, which the transport refuses twice.
use oxid_relay.Prelude.{◌≡◌, inl, refl, some, [], ◌∷◌, ◌+◌, arith}
use oxid_relay.Prelude.Assoc.{get}
use oxid_relay.Prelude.Text.{codes, text_eq}
use oxid_relay.Message.{CoreError, Mail, Time, error_text, failed}
use oxid_relay.Queue.Laws.{Delivery, delivery_of}
use oxid_relay.Queue.Model.{find_mail, set_status}
use oxid_relay.Queue.Sqlite.{execute}
use oxid_relay.Queue.Table.{update_where}
use oxid_relay.Queue.Instance.{State}
use oxid_relay.Queue.Instance.Lawful.{view-model_laws}
use oxid_relay.Dispatcher.Deliver.{transport_for, retry_at, record_failure, record_outcome, deliver}
use oxid_relay.Dispatcher.Deliver.GivesUp.{
  Accepts, Fails, begins, fails, IsCounted, Fails-IsCounted,
}
use oxid_relay.Dispatcher.Retry.{is_exhausted}
use oxid_relay.Examples.Formats.{codec}
use oxid_relay.Examples.Delivering.{host, inner, laws, refusing, stored}
use oxid_relay.Examples.Storage.{due_mail}

abbrev tired : Mail
tired = record due_mail { attempts = 3 }

abbrev refusal : CoreError
refusal = CoreError.transport (codes "mailbox full")

abbrev before : State Mail
before = record stored { table = tired ∷ [] }

abbrev once : State Mail
once = (deliver host inner tired (before, 1000)).0

abbrev retried : Mail
retried = record tired {
  status = failed;
  attempts = 4;
  last_error = some (error_text refusal);
  updated_at = 1000;
  next_attempt_at = retry_at host inner tired 1010;
}

tired_known : laws.view before 7 ≡ some (delivery_of tired)
unfolding find_mail
tired_known = view-model_laws codec before 7

retried_known : laws.view once 7 ≡ some (delivery_of retried)
unfolding find_mail deliver transport_for record_outcome record_failure is_exhausted set_status
    execute update_where get text_eq
retried_known = view-model_laws codec once 7

before-Accepts : Accepts host inner laws 7 before
unfolding set_status execute
before-Accepts = (λ error. refl, λ error retry. refl)

once-Accepts : Accepts host inner laws 7 once
unfolding deliver transport_for record_outcome record_failure is_exhausted set_status execute
    update_where get text_eq
once-Accepts = (λ error. refl, λ error retry. refl)

abbrev twice : State Mail
twice = (deliver host inner retried (once, 5000)).0

both : Fails host inner laws 7 before 2 twice
unfolding transport_for get text_eq
both =
    fails retried 5000 (delivery_of retried) refusing refusal
      (fails tired 1000 (delivery_of tired) refusing refusal begins refl tired_known refl (inl refl)
        refl refl before-Accepts)
      refl retried_known refl (inl refl) refl refl once-Accepts

Fails-IsCounted_example : (d : Delivery Time) × (laws.view twice 7 ≡ some d) × IsCounted 5 (3 + 2) d
Fails-IsCounted_example =
    Fails-IsCounted host inner laws 7 before (delivery_of tired) tired_known (inl refl)
      (omega arith) (omega arith) both
