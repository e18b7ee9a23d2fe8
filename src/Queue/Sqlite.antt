-- ===== src/Queue/Sqlite.antt =====
-- crates/queue-sqlite/src/lib.rs: the SQL statements of `SqliteQueue` on the rows of its table. Each
-- call is one statement, which the database executes whole or not at all.
pub mod Open
use oxid_relay.Prelude.{
  ℕ, ◌+◌, ◌==◌, Bool, true, false, not, ◌&&◌, ◌||◌, Option, none, some, List, [], ◌∷◌, ◌++◌, any,
  filter, count, take, if◌then◌else◌,
}
use oxid_relay.Prelude.Text.{Text, codes, text_eq, text_ltb}
use oxid_relay.Prelude.Result.{Result, ok, err, ◌>>=◌}
use oxid_relay.Message.{CoreError, Mail, MailId, MailStatus, Time, sending, sent, failed, dead}
use oxid_relay.Queue.Order.{order_by}
use oxid_relay.Queue.Table.{update_where}
use oxid_relay.Queue.Row.{Codec, Row, mail_to_row, row_to_mail, status_to_str}

-- What a call meets: the clock, and the error with which the database fails, if it does.
pub record Moment : Type 0 where
  pub now : Time
  pub fault : Option Text

-- `.execute(&self.pool).await.map_err(|err| CoreError::Queue(err.to_string()))?`
unfoldable pub execute {ℓ} :
    {A : Type ℓ} {B : Type 0} → Moment → Result B CoreError × A → A → Result B CoreError × A
execute e done before = elim e.fault [
  | none ↦ done
  | some text ↦ (err (CoreError.queue text), before)
]

-- `rows.iter().map(Self::row_to_mail).collect()`: the first row that does not decode ends it.
unfoldable pub decode_all : Codec → List Row → Result (List Mail) CoreError
decode_all c [] = ok []
decode_all c (r ∷ rs) = do m ← row_to_mail c r; ms ← decode_all c rs; ok (m ∷ ms)

abbrev pub or_keep : Option Text → Text → Text
or_keep none kept = kept
or_keep (some new) kept = new

abbrev pub option_map : (Time → Text) → Option Time → Option Text
option_map f none = none
option_map f (some t) = some (f t)

module _ (c : Codec) where
  abbrev pub has_id : MailId → Row → Bool
  has_id id r = text_eq r.id (c.uuid_to_string id)

  -- The SET clause of `set_status`.
  unfoldable pub set_row : Time → MailStatus → Option Text → Bool → Option Time → Row → Row
  set_row now status last_error bump next r = record r {
    status = status_to_str status;
    last_error = last_error;
    updated_at = c.to_rfc3339 now;
    attempts = r.attempts + (if bump then 1 else 0);
    next_attempt_at = or_keep (option_map c.to_rfc3339 next) r.next_attempt_at;
  }

  unfoldable pub set_status :
      Moment
      → MailId
      → MailStatus
      → Option Text
      → Bool
      → Option Time
      → List Row
      → Result (Unit {0}) CoreError × List Row
  unfolding execute update_where set_row
  set_status e id status last_error bump next rows =
      execute e
        (
          (if count (has_id id) rows == 0
              then err (CoreError.not_found (c.uuid_to_string id))
              else ok tt),
          update_where (has_id id) (set_row e.now status last_error bump next) rows,
        )
        rows

  -- `INSERT INTO mails ...`: the primary key refuses a second row with the id.
  unfoldable pub enqueue : Moment → Mail → List Row → Result Mail CoreError × List Row
  unfolding execute
  enqueue e mail rows = elim (mail_to_row c mail) [
    | err x ↦ (err x, rows)
    | ok row ↦
        execute e
          (if any (λ (r : Row). text_eq r.id row.id) rows
            then (err (CoreError.queue c.unique_violation), rows)
            else (ok mail, rows ++ row ∷ []))
          rows
  ]

  -- `WHERE status IN ('pending', 'failed') AND next_attempt_at <= ?`
  unfoldable pub is_due : Time → Row → Bool
  is_due now r =
      (text_eq r.status (codes "pending") || text_eq r.status (codes "failed"))
      && not (text_ltb (c.to_rfc3339 now) r.next_attempt_at)

  -- `ORDER BY next_attempt_at ASC`
  unfoldable pub no_later : Row → Row → Bool
  no_later a b = not (text_ltb b.next_attempt_at a.next_attempt_at)

  unfoldable pub fetch_due : Moment → ℕ → Time → List Row → Result (List Mail) CoreError × List Row
  unfolding execute decode_all
  fetch_due e limit now rows =
      execute e (decode_all c (take limit (order_by no_later (filter (is_due now) rows))), rows)
        rows

  unfoldable pub mark_sending : Moment → MailId → List Row → Result (Unit {0}) CoreError × List Row
  mark_sending e id = set_status e id sending none false none

  unfoldable pub mark_sent : Moment → MailId → List Row → Result (Unit {0}) CoreError × List Row
  mark_sent e id = set_status e id sent none false none

  unfoldable pub mark_failed :
      Moment → MailId → Text → Time → List Row → Result (Unit {0}) CoreError × List Row
  mark_failed e id error retry_at = set_status e id failed (some error) true (some retry_at)

  unfoldable pub mark_dead :
      Moment → MailId → Text → List Row → Result (Unit {0}) CoreError × List Row
  mark_dead e id error = set_status e id dead (some error) true none

  abbrev pub is_sending : Row → Bool
  is_sending r = text_eq r.status (codes "sending")

  -- `SET status = 'pending', updated_at = ?`
  unfoldable pub reset_row : Time → Row → Row
  reset_row now r = record r { status = codes "pending"; updated_at = c.to_rfc3339 now }

  unfoldable pub requeue_where : Moment → (Row → Bool) → List Row → Result ℕ CoreError × List Row
  unfolding execute update_where reset_row
  requeue_where e p rows = execute e (ok (count p rows), update_where p (reset_row e.now) rows) rows

  unfoldable pub requeue_sending : Moment → List Row → Result ℕ CoreError × List Row
  unfolding requeue_where
  requeue_sending e = requeue_where e is_sending

  -- `WHERE status = 'sending' AND updated_at < ?`
  unfoldable pub is_stale : Time → Row → Bool
  is_stale older_than r =
      text_eq r.status (codes "sending") && text_ltb r.updated_at (c.to_rfc3339 older_than)

  unfoldable pub requeue_stale_sending : Moment → Time → List Row → Result ℕ CoreError × List Row
  unfolding requeue_where is_stale
  requeue_stale_sending e older_than = requeue_where e (is_stale older_than)

  unfoldable pub find_row : MailId → List Row → Option Row
  find_row id [] = none
  find_row id (r ∷ rs) = if has_id id r then some r else find_row id rs

  -- `SELECT * FROM mails WHERE id = ?` with `fetch_optional`
  unfoldable pub get : Moment → MailId → List Row → Result Mail CoreError × List Row
  unfolding execute find_row
  get e id rows =
      execute e
        (
          (elim (find_row id rows) [
            | none ↦ err (CoreError.not_found (c.uuid_to_string id))
            | some row ↦ row_to_mail c row
          ]),
          rows,
        )
        rows
