-- ===== src/Queue/Instance/Rows/Payload.antt =====
-- What the dispatcher's statements on the table of crates/queue-sqlite leave as it is: the rows, their
-- order, and of each row the columns that hold the mail itself.
use mathlib.Core.Option
use mathlib.Core.List.{append_assoc}
use oxid_relay.Prelude.{
  ◌∙◌, ◌++◌, sym, any, none, some, ◌≡◌, refl, Bool, Option, List, [], ◌∷◌, map, Option-cases,
  Bool-cases, inl, inr, ap,
}
use oxid_relay.Prelude.Text.{Text, text_eq}
use oxid_relay.Prelude.Result.{Result, Result-cases}
use oxid_relay.Message.{CoreError, Mail, MailId, MailStatus, Time}
use oxid_relay.Queue.Laws.{Preserves}
use oxid_relay.Queue.Keyed.{find_by, find-append}
use oxid_relay.Queue.Table.{update_where}
use oxid_relay.Queue.Row.{Codec, Row, mail_to_row}
use oxid_relay.Queue.Sqlite.{
  Moment, execute, has_id, set_row, set_status, reset_row, requeue_where, fetch_due, mark_sending,
  mark_sent, mark_failed, mark_dead, requeue_sending, requeue_stale_sending, is_stale, is_sending,
  find_row, enqueue,
}
use oxid_relay.Queue.Instance.{sqlite_queue}

-- The columns that no status transition writes.
pub record Payload : Type 0 where
  pub id : Text
  pub sender : Text
  pub recipients : Text
  pub subject : Text
  pub body : Text
  pub transport : Option Text
  pub created_at : Text

abbrev pub payload : Row → Payload
payload r = record {
  id = r.id;
  sender = r.sender;
  recipients = r.recipients;
  subject = r.subject;
  body = r.body;
  transport = r.transport;
  created_at = r.created_at;
}

update-payload :
    (p : Row → Bool) (f : Row → Row)
    → ((r : Row) → payload (f r) ≡ payload r)
    → (rows : List Row) → map payload (update_where p f rows) ≡ map payload rows
unfolding update_where
update-payload p f same [] = refl
update-payload p f same (r ∷ rows) = elim (Bool-cases (p r)) [
  | inl e ↦ rw (e, same r, update-payload p f same rows) refl
  | inr e ↦ rw (e, update-payload p f same rows) refl
]

-- The row under an id is found by what the rows hold of their mails.
find-payloads :
    (c : Codec) (j : MailId) (rows : List Row)
    → Option.map payload (find_row c j rows)
      ≡ find_by (λ (p : Payload). text_eq p.id (c.uuid_to_string j)) (map payload rows)
unfolding find_row find_by
find-payloads c j [] = refl
find-payloads c j (r ∷ rows) = elim (Bool-cases (has_id c j r)) [
  | inl e ↦ rw e refl
  | inr e ↦ rw e (find-payloads c j rows)
]

map-id : {A : Type 0} (o : Option A) → Option.map (λ (a : A). a) o ≡ o
map-id none = refl
map-id (some a) = refl

pub find_row-payload :
    (c : Codec) (j : MailId) (rows rows' : List Row) (more : List Payload) (p : Payload)
    → map payload rows' ≡ map payload rows ++ more
    → Option.map payload (find_row c j rows) ≡ some p
    → Option.map payload (find_row c j rows') ≡ some p
find_row-payload c j rows rows' more p same known =
    let test = λ (q : Payload). text_eq q.id (c.uuid_to_string j) in
    find-payloads c j rows'
    ∙ ap (find_by test) same
    ∙ sym (map-id (find_by test (map payload rows ++ more)))
    ∙ find-append test (λ q. q) (map payload rows) more p
        (map-id (find_by test (map payload rows)) ∙ sym (find-payloads c j rows) ∙ known)

map_append_one :
    (rows : List Row) (r : Row) → map payload (rows ++ r ∷ []) ≡ map payload rows ++ payload r ∷ []
map_append_one [] r = refl
map_append_one (x ∷ rows) r = ap (◌∷◌ (payload x)) (map_append_one rows r)

module _ (c : Codec) (ps : List Payload) where
  -- The rows are these and then some, up to the columns of their delivery.
  abbrev pub HasPayloads : List Row → Type 0
  HasPayloads rows = (more : List Payload) × (map payload rows ≡ ps ++ more)

  same-HasPayloads :
      (rows rows' : List Row)
      → map payload rows' ≡ map payload rows
      → HasPayloads rows
      → HasPayloads rows'
  same-HasPayloads rows rows' same (more, e) = (more, same ∙ e)

  append-HasPayloads : (rows : List Row) (r : Row) → HasPayloads rows → HasPayloads (rows ++ r ∷ [])
  append-HasPayloads rows r (more, e) = (
    more ++ payload r ∷ [],
    map_append_one rows r ∙ ap (λ l. l ++ payload r ∷ []) e ∙ append_assoc ps more (payload r ∷ []),
  )

  execute-HasPayloads :
      {A : Type 0} (e : Moment) (x : Result A CoreError × List Row) (rows : List Row)
      → HasPayloads x.1
      → HasPayloads rows
      → HasPayloads (execute e x rows).1
  unfolding execute
  execute-HasPayloads e x rows h k = elim (Option-cases e.fault) [
    | inl fine ↦ rw (fine, execute) h
    | inr (text, broken) ↦ rw (broken, execute) k
  ]

  enqueue-HasPayloads :
      (e : Moment) (m : Mail) (rows : List Row)
      → HasPayloads rows
      → HasPayloads (enqueue c e m rows).1
  unfolding enqueue
  enqueue-HasPayloads e m rows h = elim (Result-cases (mail_to_row c m)) [
    | inr (x, f) ↦ rw (f, enqueue) h
    | inl (r, f) ↦ elim (Bool-cases (any (λ (s : Row). text_eq s.id r.id) rows)) [
      | inl taken ↦ rw (f, taken, enqueue) (execute-HasPayloads e _ rows h h)
      | inr fresh ↦
          rw (f, fresh, enqueue) (execute-HasPayloads e _ rows (append-HasPayloads rows r h) h)
    ]
  ]

  set_status-HasPayloads :
      (e : Moment) (i : MailId) (status : MailStatus) (error : Option Text) (bump : Bool)
      (next : Option Time) (rows : List Row)
      → HasPayloads rows
      → HasPayloads (set_status c e i status error bump next rows).1
  unfolding set_status set_row
  set_status-HasPayloads e i status error bump next rows h =
      execute-HasPayloads e _ rows
        (same-HasPayloads rows _
          (update-payload (has_id c i) (set_row c e.now status error bump next) (λ r. refl) rows) h)
        h

  requeue_where-HasPayloads :
      (e : Moment) (p : Row → Bool) (rows : List Row)
      → HasPayloads rows
      → HasPayloads (requeue_where c e p rows).1
  unfolding requeue_where reset_row
  requeue_where-HasPayloads e p rows h =
      execute-HasPayloads e _ rows
        (same-HasPayloads rows _ (update-payload p (reset_row c e.now) (λ r. refl) rows) h) h

  pub payload-Preserves : Preserves (sqlite_queue c) (λ s. HasPayloads s.table)
  unfolding mark_sending mark_sent mark_failed mark_dead requeue_sending requeue_stale_sending
      fetch_due
  payload-Preserves = record {
    enqueue = λ m s h. enqueue-HasPayloads (s.moments 0) m s.table h;
    stale = λ t s h. requeue_where-HasPayloads (s.moments 0) (is_stale c t) s.table h;
    recover = λ s h. requeue_where-HasPayloads (s.moments 0) (is_sending c) s.table h;
    fetch = λ limit now s h. execute-HasPayloads (s.moments 0) _ s.table h h;
    sending = λ i s h. set_status-HasPayloads (s.moments 0) i _ _ _ _ s.table h;
    sent = λ i s h. set_status-HasPayloads (s.moments 0) i _ _ _ _ s.table h;
    failed = λ i error retry_at s h. set_status-HasPayloads (s.moments 0) i _ _ _ _ s.table h;
    dead = λ i error s h. set_status-HasPayloads (s.moments 0) i _ _ _ _ s.table h;
  }
