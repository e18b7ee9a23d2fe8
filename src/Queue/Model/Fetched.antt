-- ===== src/Queue/Model/Fetched.antt =====
-- The mails of a batch among the mails of the queue, in the specification.
use oxid_relay.Prelude.{ℕ, ◌≤◌, ◌≡◌, ◌⊎◌, true, ◌==◌, ==_iff, some, List, count}
use oxid_relay.Message.{Mail, MailId, Time}
use oxid_relay.Queue.Keyed.{count-batch, batch-found}
use oxid_relay.Queue.Model.{is_mail, is_due, no_later, due_mails, find_mail}
use oxid_relay.Queue.Model.Keys.{Distinct}
use oxid_relay.Queue.Model.View.{find_mail-find_by}

module _ (limit : ℕ) (now : Time) (ms : List Mail) (distinct : Distinct ms) (j : MailId) where
  pub count-due_mails : count (is_mail j) (due_mails limit now ms) ≤ 1
  unfolding due_mails
  count-due_mails =
      count-batch (λ (m : Mail). m.id) ◌==◌ ==_iff limit no_later (is_due now) ms distinct j

  -- The queue's mail under an id of the batch is due.
  pub due_mails-found :
      (count (is_mail j) (due_mails limit now ms) ≡ 0)
      ⊎ ((m : Mail) × (find_mail j ms ≡ some m) × (is_due now m ≡ true))
  unfolding due_mails
  due_mails-found =
      rw (find_mail-find_by j ms)
        (batch-found (λ (m : Mail). m.id) ◌==◌ ==_iff limit no_later (is_due now) ms distinct j)
