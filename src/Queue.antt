-- ===== src/Queue.antt =====
-- crates/core/src/queue.rs: the queue as the dispatcher and the ingress see it. `S` is the state
-- behind the trait object; every operation may fail and hands the state on.
pub mod Table
pub mod Order
pub mod Counts
pub mod Census
pub mod Keyed
pub mod Row
pub mod Sqlite
pub mod Model
pub mod Laws
pub mod Later
pub mod Instance
pub mod Refine
use oxid_relay.Prelude.{ℕ, List}
use oxid_relay.Prelude.Text.{Text}
use oxid_relay.Prelude.Result.{Result}
use oxid_relay.Message.{CoreError, Mail, MailId, Time}

abbrev pub Op : Type 0 → Type 0 → Type 0
Op S A = S → Result A CoreError × S

pub record Queue (S : Type 0) : Type 0 where
  pub enqueue : Mail → Op S Mail
  pub fetch_due : ℕ → Time → Op S (List Mail)
  pub mark_sending : MailId → Op S (Unit {0})
  pub mark_sent : MailId → Op S (Unit {0})
  pub mark_failed : MailId → Text → Time → Op S (Unit {0})
  pub mark_dead : MailId → Text → Op S (Unit {0})
  pub requeue_sending : Op S ℕ
  pub requeue_stale_sending : Time → Op S ℕ
  pub get : MailId → Op S Mail
