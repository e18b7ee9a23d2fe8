-- ===== src/Queue/Instance/Rows/Keys.antt =====
-- The primary key of the table of crates/queue-sqlite, under the statements that write.
use oxid_relay.Prelude.{
  ◌≡◌, refl, Bool, Option, List, [], ◌∷◌, ◌++◌, All, All-append, Option-cases, Bool-cases, inl, inr,
  any, false,
}
use oxid_relay.Prelude.Text.{Text, text_eq, text_eq_iff}
use oxid_relay.Prelude.Result.{Result, ok, Result-cases}
use oxid_relay.Message.{CoreError, Mail, MailId, MailStatus, Time}
use oxid_relay.Queue.Keyed
use oxid_relay.Queue.Keyed.{update-Distinct, append-Distinct}
use oxid_relay.Queue.Table.{update_where}
use oxid_relay.Queue.Row.{Codec, Row, mail_to_row}
use oxid_relay.Queue.Refine.Holds.{columns}
use oxid_relay.Queue.Sqlite.{
  Moment, execute, has_id, set_row, set_status, reset_row, requeue_where, enqueue,
}

-- The id of the row is that of a mail, as it is printed.
abbrev pub IsPrinted : Codec → Row → Type 0
IsPrinted c r = (i : MailId) × (r.id ≡ c.uuid_to_string i)

-- The primary key: the ids differ, and each is that of a mail.
abbrev pub IsKeyed : Codec → List Row → Type 0
IsKeyed c rows = Keyed.Distinct (λ (r : Row). r.id) text_eq rows × All (IsPrinted c) rows

module _ (c : Codec) where
  update-IsPrinted :
      (p : Row → Bool) (f : Row → Row)
      → ((r : Row) → (f r).id ≡ r.id)
      → (rows : List Row) → All (IsPrinted c) rows
      → All (IsPrinted c) (update_where p f rows)
  unfolding update_where
  update-IsPrinted p f same [] a = tt
  update-IsPrinted p f same (r ∷ rows) a = elim (Bool-cases (p r)) [
    | inl e ↦ rw e ((a.0.0, rw (same r) a.0.1), update-IsPrinted p f same rows a.1)
    | inr e ↦ rw e (a.0, update-IsPrinted p f same rows a.1)
  ]

  update-IsKeyed :
      (p : Row → Bool) (f : Row → Row)
      → ((r : Row) → (f r).id ≡ r.id)
      → (rows : List Row) → IsKeyed c rows
      → IsKeyed c (update_where p f rows)
  update-IsKeyed p f same rows h = (
    update-Distinct (λ (r : Row). r.id) text_eq p f same rows h.0,
    update-IsPrinted p f same rows h.1,
  )

  execute-IsKeyed :
      {A : Type 0} (e : Moment) (x : Result A CoreError × List Row) (rows : List Row)
      → IsKeyed c x.1
      → IsKeyed c rows
      → IsKeyed c (execute e x rows).1
  unfolding execute
  execute-IsKeyed e x rows h k = elim (Option-cases e.fault) [
    | inl fine ↦ rw (fine, execute) h
    | inr (text, broken) ↦ rw (broken, execute) k
  ]

  pub set_status-IsKeyed :
      (e : Moment) (i : MailId) (status : MailStatus) (error : Option Text) (bump : Bool)
      (next : Option Time) (rows : List Row)
      → IsKeyed c rows
      → IsKeyed c (set_status c e i status error bump next rows).1
  unfolding set_status set_row
  set_status-IsKeyed e i status error bump next rows h =
      execute-IsKeyed e _ rows
        (update-IsKeyed (has_id c i) (set_row c e.now status error bump next) (λ r. refl) rows h) h

  pub requeue_where-IsKeyed :
      (e : Moment) (p : Row → Bool) (rows : List Row)
      → IsKeyed c rows
      → IsKeyed c (requeue_where c e p rows).1
  unfolding requeue_where reset_row
  requeue_where-IsKeyed e p rows h =
      execute-IsKeyed e _ rows (update-IsKeyed p (reset_row c e.now) (λ r. refl) rows h) h

  append-IsKeyed :
      (m : Mail) (r : Row) (rows : List Row)
      → mail_to_row c m ≡ ok r
      → any (λ (s : Row). text_eq s.id r.id) rows ≡ false
      → IsKeyed c rows
      → IsKeyed c (rows ++ r ∷ [])
  append-IsKeyed m r rows e fresh h = (
    append-Distinct (λ (s : Row). s.id) text_eq text_eq_iff r rows h.0 fresh,
    All-append (IsPrinted c) rows (r ∷ []) h.1 ((m.id, (columns c m r e).id), tt),
  )

  pub enqueue-IsKeyed :
      (e : Moment) (m : Mail) (rows : List Row) → IsKeyed c rows → IsKeyed c (enqueue c e m rows).1
  unfolding enqueue
  enqueue-IsKeyed e m rows h = elim (Result-cases (mail_to_row c m)) [
    | inr (x, f) ↦ rw (f, enqueue) h
    | inl (r, f) ↦ elim (Bool-cases (any (λ (s : Row). text_eq s.id r.id) rows)) [
      | inl taken ↦ rw (f, taken, enqueue) (execute-IsKeyed e _ rows h h)
      | inr fresh ↦
          rw (f, fresh, enqueue) (execute-IsKeyed e _ rows (append-IsKeyed m r rows f fresh h) h)
    ]
  ]
