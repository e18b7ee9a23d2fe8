-- ===== src/Examples/Delivering.antt =====
-- The dispatcher on the specified queue: one transport that refuses what it gets, and mails with
-- attempts left and with none.
use oxid_relay.Prelude.{◌+◌, ◌-◌, ◌*◌, ◌^◌, ◌≡◌, refl, min, none, some, [], ◌∷◌, arith}
use oxid_relay.Prelude.Text.{codes}
use oxid_relay.Prelude.Result.{err}
use oxid_relay.Message.{CoreError, Mail, Time}
use oxid_relay.Queue.Model.{find_mail}
use oxid_relay.Queue.Laws.{Delivery, delivery_of, QueueLaws}
use oxid_relay.Queue.Instance.{State, model_queue}
use oxid_relay.Queue.Instance.Lawful.{model_laws, view-model_laws}
use oxid_relay.Dispatcher.{Host, Inner, Transport, default_dispatcher_config}
use oxid_relay.Dispatcher.Retry.{default_policy, backoff}
use oxid_relay.Dispatcher.Retry.Backoff.{backoff-eq-formula}
use oxid_relay.Dispatcher.Deliver.{deliver}
use oxid_relay.Dispatcher.Deliver.Outcome.{Verdict, Records, deliver-Records}
use oxid_relay.Dispatcher.Deliver.Budget.{Within, deliver-Within}
use oxid_relay.Examples.Formats.{codec}
use oxid_relay.Examples.Storage.{due_mail, mails}

-- The world is the clock.
abbrev pub host : Host Time
host = record { now = λ w. (w, w + 1); from_std = λ d. some d; debug = λ o. codes "None" }

abbrev pub refusing : Transport Time
refusing = record {
  name = codes "smtp";
  send = λ m w. (err (CoreError.transport (codes "mailbox full")), w + 10);
}

abbrev pub inner : Inner (State Mail) Time
inner = record {
  queue = model_queue codec;
  transports = (codes "smtp", refusing) ∷ [];
  default_transport = some (codes "smtp");
  config = default_dispatcher_config;
}

abbrev pub laws : QueueLaws Time inner.queue
laws = model_laws codec

abbrev pub stored : State Mail
stored = record { table = mails; moments = λ n. record { now = 1000 + n; fault = none } }

abbrev pub due_delivery : Delivery Time
due_delivery = delivery_of due_mail

pub due_known : laws.view stored due_mail.id ≡ some due_delivery
unfolding find_mail
due_known = view-model_laws codec stored due_mail.id

backoff-eq-formula_example :
    backoff default_policy 3
    ≡ min (default_policy.base_delay * 2 ^ (3 - 1)) default_policy.max_delay
backoff-eq-formula_example =
    backoff-eq-formula default_policy 30 3 refl (omega arith) (omega arith) (omega arith)

deliver-Records_example :
    (f : Delivery Time → Delivery Time) × Verdict host inner laws.stamp due_mail 1000 f
    × Records host inner laws due_mail f stored (deliver host inner due_mail (stored, 1000)).0
deliver-Records_example = deliver-Records host inner laws due_mail stored 1000

deliver-Within_example :
    (d : Delivery Time) × (laws.view (deliver host inner due_mail (stored, 1000)).0 due_mail.id
      ≡ some d)
    × Within 5 d
deliver-Within_example =
    deliver-Within host inner laws due_mail stored 1000 due_delivery due_known refl (omega arith)
      (omega arith) (omega arith)
