-- ===== src/Queue/Model.antt =====
-- The specification of the queue of crates/core/src/queue.rs: what its operations do, told of the
-- mails themselves and of time, with no table, text or SQL in sight.
pub mod Due
pub mod Fetched
pub mod Keys
pub mod View
pub mod Room
pub mod Choice
use oxid_relay.Prelude.{
  ℕ, ◌+◌, ◌==◌, leb, ltb, Bool, true, false, ◌&&◌, Option, none, some, List, [], ◌∷◌, ◌++◌, any,
  filter, count, take, if◌then◌else◌,
}
use oxid_relay.Prelude.Text.{Text}
use oxid_relay.Prelude.Result.{Result, ok, err}
use oxid_relay.Message.{CoreError, Mail, MailId, MailStatus, Time, pending, sending}
use oxid_relay.Queue.Laws.{is_waiting}
use oxid_relay.Queue.Order.{order_by}
use oxid_relay.Queue.Table.{update_where}
use oxid_relay.Queue.Row.{Codec}
use oxid_relay.Queue.Sqlite.{Moment, execute}

abbrev pub in_flight : MailStatus → Bool
in_flight sending = true
in_flight _ = false

abbrev pub or_keep : Option Time → Time → Time
or_keep none kept = kept
or_keep (some new) kept = new

abbrev pub is_mail : MailId → Mail → Bool
is_mail id m = m.id == id

-- What a status transition writes.
abbrev pub set_mail : Time → MailStatus → Option Text → Bool → Option Time → Mail → Mail
set_mail now status last_error bump next m = record m {
  status = status;
  last_error = last_error;
  updated_at = now;
  attempts = m.attempts + (if bump then 1 else 0);
  next_attempt_at = or_keep next m.next_attempt_at;
}

abbrev pub reset_mail : Time → Mail → Mail
reset_mail now m = record m { status = pending; updated_at = now }

-- Waiting for delivery, and not before its time.
abbrev pub is_due : Time → Mail → Bool
is_due now m = is_waiting m.status && leb m.next_attempt_at now

abbrev pub no_later : Mail → Mail → Bool
no_later a b = leb a.next_attempt_at b.next_attempt_at

abbrev pub is_stale : Time → Mail → Bool
is_stale older_than m = in_flight m.status && ltb m.updated_at older_than

unfoldable pub due_mails : ℕ → Time → List Mail → List Mail
due_mails limit now ms = take limit (order_by no_later (filter (is_due now) ms))

unfoldable pub find_mail : MailId → List Mail → Option Mail
find_mail id [] = none
find_mail id (m ∷ ms) = if is_mail id m then some m else find_mail id ms

module _ (c : Codec) where
  unfoldable pub set_status :
      Moment
      → MailId
      → MailStatus
      → Option Text
      → Bool
      → Option Time
      → List Mail
      → Result (Unit {0}) CoreError × List Mail
  unfolding execute update_where
  set_status e id status last_error bump next ms =
      execute e
        (
          (if count (is_mail id) ms == 0
              then err (CoreError.not_found (c.uuid_to_string id))
              else ok tt),
          update_where (is_mail id) (set_mail e.now status last_error bump next) ms,
        )
        ms

  unfoldable pub enqueue : Moment → Mail → List Mail → Result Mail CoreError × List Mail
  unfolding execute
  enqueue e mail ms =
      execute e
        (if any (is_mail mail.id) ms
          then (err (CoreError.queue c.unique_violation), ms)
          else (ok mail, ms ++ mail ∷ []))
        ms

  unfoldable pub get : Moment → MailId → List Mail → Result Mail CoreError × List Mail
  unfolding execute find_mail
  get e id ms =
      execute e
        (
          (elim (find_mail id ms) [
            | none ↦ err (CoreError.not_found (c.uuid_to_string id))
            | some m ↦ ok m
          ]),
          ms,
        )
        ms

unfoldable pub fetch_due : Moment → ℕ → Time → List Mail → Result (List Mail) CoreError × List Mail
unfolding execute due_mails
fetch_due e limit now ms = execute e (ok (due_mails limit now ms), ms) ms

unfoldable pub requeue_where : Moment → (Mail → Bool) → List Mail → Result ℕ CoreError × List Mail
unfolding execute update_where
requeue_where e p ms = execute e (ok (count p ms), update_where p (reset_mail e.now) ms) ms
