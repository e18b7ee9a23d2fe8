-- ===== src/Queue/Instance/Rows/View.antt =====
-- What is known of a delivery from the table of crates/queue-sqlite, and how the statements that
-- write change it.
use mathlib.Core.Option
use oxid_relay.Prelude.{
  ◌≡◌, ◌∙◌, ◌++◌, any, refl, ap, Bool, true, ◌==◌, ◌&&◌, Option, none, some, List, [], ◌∷◌, arith,
  if◌then◌else◌, Bool-cases, Option-cases, inl, inr,
}
use oxid_relay.Prelude.Text.{Text, codes, text_eq, text_eq_iff}
use oxid_relay.Prelude.Result.{Result, ok, err, is_ok, Result-cases}
use oxid_relay.Message.{CoreError, Mail, MailId, MailStatus, Time, pending, sending, dead}
use oxid_relay.Queue.Keyed.{
  find_by, find-append, find-update, find-update_where, count-find, map-if,
}
use oxid_relay.Queue.Laws.{Delivery, written, Recovered}
use oxid_relay.Queue.Row.{Codec, Row, mail_to_row, status_from_str, status_to_str}
use oxid_relay.Queue.Row.RoundTrip.{IsCodec, status_from_str-to_str}
use oxid_relay.Queue.Refine.Holds.{uuid_eq}
use oxid_relay.Queue.Sqlite.{
  Moment, execute, has_id, find_row, set_row, set_status, reset_row, requeue_where, is_sending,
  enqueue,
}

-- A status that is none of the five is never delivered, like that of a dead mail.
abbrev status_or_dead : Result MailStatus CoreError → MailStatus
status_or_dead (ok s) = s
status_or_dead (err _) = dead

abbrev pub status_of : Text → MailStatus
status_of text = status_or_dead (status_from_str text)

abbrev pub row_delivery : Row → Delivery Text
row_delivery r = record {
  status = status_of r.status;
  attempts = r.attempts;
  last_error = r.last_error;
  next_attempt_at = r.next_attempt_at;
}

abbrev pub row_view : Codec → List Row → MailId → Option (Delivery Text)
row_view c rows j = Option.map row_delivery (find_row c j rows)

pub find_row-find_by :
    (c : Codec) (j : MailId) (rows : List Row) → find_row c j rows ≡ find_by (has_id c j) rows
unfolding find_row find_by
find_row-find_by c j [] = refl
find_row-find_by c j (r ∷ rows) = ground (arith, find_row-find_by c j rows)

pub written_status : (s : MailStatus) → status_of (status_to_str s) ≡ s
written_status s = ap status_or_dead (status_from_str-to_str s)

sending_text : (text : Text) → text_eq text (codes "sending") ≡ true → status_of text ≡ sending
unfolding status_to_str
sending_text text h = rw ((text_eq_iff text (codes "sending")).0 h) (written_status sending)

pending_text : status_of (codes "pending") ≡ pending
unfolding status_to_str
pending_text = written_status pending

row_view-append :
    (c : Codec) (j : MailId) (d : Delivery Text) (rows more : List Row)
    → row_view c rows j ≡ some d
    → row_view c (rows ++ more) j ≡ some d
row_view-append c j d rows more known =
    rw (find_row-find_by c j (rows ++ more))
      (find-append (has_id c j) row_delivery rows more d (rw (find_row-find_by c j rows) at known))

pub row_view-enqueue :
    (c : Codec) (e : Moment) (m : Mail) (j : MailId) (d : Delivery Text) (rows : List Row)
    → row_view c rows j ≡ some d
    → row_view c (enqueue c e m rows).1 j ≡ some d
unfolding enqueue execute
row_view-enqueue c e m j d rows known = elim (Result-cases (mail_to_row c m)) [
  | inr (x, f) ↦ rw (f, enqueue) known
  | inl (r, f) ↦ elim (Option-cases e.fault) [
    | inr (text, broken) ↦ rw (f, broken, enqueue, execute) known
    | inl fine ↦ elim (Bool-cases (any (λ (x : Row). text_eq x.id r.id) rows)) [
      | inl taken ↦ rw (f, fine, taken, enqueue, execute) known
      | inr fresh ↦
          rw (f, fine, fresh, enqueue, execute) (row_view-append c j d rows (r ∷ []) known)
    ]
  ]
]

module _ (c : Codec) (k : IsCodec c) where
  pub text_eq-uuid : (i j : MailId) → text_eq (c.uuid_to_string i) (c.uuid_to_string j) ≡ (i == j)
  text_eq-uuid i j = ground (
    arith,
    text_eq_iff (c.uuid_to_string i) (c.uuid_to_string j),
    uuid_eq c k i j,
    ap c.uuid_to_string,
  )

  find-set_status :
      (e : Moment) (i j : MailId) (status : MailStatus) (error : Option Text) (bump : Bool)
      (next : Option Time) (rows : List Row)
      → find_row c j (set_status c e i status error bump next rows).1 ≡ (
          if is_ok (set_status c e i status error bump next rows).0 && i == j
          then Option.map (set_row c e.now status error bump next) (find_row c j rows)
          else find_row c j rows)
  unfolding set_status execute set_row
  find-set_status e i j status error bump next rows =
      rw (find_row-find_by c j rows, find_row-find_by c j _)
        (ground (
          arith,
          find-update (λ (r : Row). r.id) text_eq text_eq_iff
              (set_row c e.now status error bump next) (λ r. refl) (c.uuid_to_string i)
              (c.uuid_to_string j) rows,
          text_eq-uuid i j,
          count-find (λ (r : Row). r.id) text_eq text_eq_iff (c.uuid_to_string i) rows,
        ))

  pub row_view-set_status :
      (e : Moment) (i j : MailId) (status : MailStatus) (error : Option Text) (bump : Bool)
      (next : Option Time) (f : Delivery Text → Delivery Text) (rows : List Row)
      → ((r : Row) → row_delivery (set_row c e.now status error bump next r) ≡ f (row_delivery r))
      → row_view c (set_status c e i status error bump next rows).1 j
        ≡ written (is_ok (set_status c e i status error bump next rows).0) i f (row_view c rows) j
  row_view-set_status e i j status error bump next f rows same =
      ap (Option.map row_delivery) (find-set_status e i j status error bump next rows)
      ∙ map-if row_delivery (set_row c e.now status error bump next) f same
          (is_ok (set_status c e i status error bump next rows).0 && i == j) (find_row c j rows)

  reset-Recovered :
      (now : Time) (p : Row → Bool)
      → ((r : Row) → p r ≡ true → is_sending c r ≡ true)
      → (o : Option Row)
      → Recovered (Option.map row_delivery o) (
          Option.map row_delivery
            (Option.map (λ (r : Row). if p r then reset_row c now r else r) o))
  unfolding reset_row
  reset-Recovered now p only none = inl refl
  reset-Recovered now p only (some r) = elim (Bool-cases (p r)) [
    | inl e ↦
        rw e (inr (row_delivery r, refl, sending_text r.status (only r e), rw pending_text refl))
    | inr e ↦ rw e (inl refl)
  ]

  pub row_view-requeue_where :
      (e : Moment) (p : Row → Bool)
      → ((r : Row) → p r ≡ true → is_sending c r ≡ true)
      → (j : MailId) (rows : List Row)
      → Recovered (row_view c rows j) (row_view c (requeue_where c e p rows).1 j)
  unfolding requeue_where execute
  row_view-requeue_where e p only j rows = elim (Option-cases e.fault) [
    | inl fine ↦
        rw (fine, execute)
          (rw
            (
              find_row-find_by c j rows,
              find_row-find_by c j _,
              find-update_where (λ (r : Row). r.id) text_eq text_eq_iff p (reset_row c e.now)
                  (λ r. unfold reset_row in refl) (c.uuid_to_string j) rows,
            )
            (reset-Recovered e.now p only (find_by (has_id c j) rows)))
    | inr (text, broken) ↦ rw (broken, execute) (inl refl)
  ]
