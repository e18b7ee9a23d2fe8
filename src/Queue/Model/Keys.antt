-- ===== src/Queue/Model/Keys.antt =====
-- The ids of the mails, under the operations of the specification.
use oxid_relay.Prelude.{refl, Bool, Option, List, arith, ◌==◌, ==_iff}
use oxid_relay.Prelude.Result.{Result}
use oxid_relay.Prelude.Text.{Text}
use oxid_relay.Message.{CoreError, Mail, MailId, MailStatus, Time}
use oxid_relay.Queue.Keyed
use oxid_relay.Queue.Keyed.{append-Distinct, update-Distinct}
use oxid_relay.Queue.Row.{Codec}
use oxid_relay.Queue.Sqlite.{Moment, execute}
use oxid_relay.Queue.Model.{is_mail, set_status, enqueue, requeue_where, reset_mail}

-- No two mails with one id.
abbrev pub Distinct : List Mail → Type 0
Distinct = Keyed.Distinct (λ (m : Mail). m.id) ◌==◌

execute-Distinct :
    {A : Type 0} (e : Moment) (x : Result A CoreError × List Mail) (ms : List Mail)
    → Distinct x.1
    → Distinct ms
    → Distinct (execute e x ms).1
unfolding execute
execute-Distinct e x ms h k = ground arith

enqueue-Distinct :
    (c : Codec) (e : Moment) (m : Mail) (ms : List Mail)
    → Distinct ms
    → Distinct (enqueue c e m ms).1
unfolding enqueue
enqueue-Distinct c e m ms h =
    execute-Distinct e _ ms
      (ground (arith, append-Distinct (λ (n : Mail). n.id) ◌==◌ ==_iff m ms h)) h

-- No operation of the queue lets two mails have one id: enqueueing refuses an id that is there, and
-- the transitions and the recoveries keep every id.
pub op-Distinct :
    (c : Codec) (e : Moment) (ms : List Mail)
    → Distinct ms
    → ((m : Mail) → Distinct (enqueue c e m ms).1)
      × ((id : MailId) (status : MailStatus) (error : Option Text) (bump : Bool)
            (next : Option Time)
          → Distinct (set_status c e id status error bump next ms).1)
      × ((p : Mail → Bool) → Distinct (requeue_where e p ms).1)
unfolding set_status requeue_where
op-Distinct c e ms h = (
  λ m. enqueue-Distinct c e m ms h,
  λ id status error bump next.
      execute-Distinct e _ ms
        (update-Distinct (λ (m : Mail). m.id) ◌==◌ (is_mail id) _ (λ m. refl) ms h) h,
  λ p.
      execute-Distinct e _ ms
        (update-Distinct (λ (m : Mail). m.id) ◌==◌ p (reset_mail e.now) (λ m. refl) ms h) h,
)
