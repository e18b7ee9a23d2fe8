-- ===== src/Queue/Instance/Enqueues.antt =====
-- The laws of enqueueing, for the table of rows and for the specification.
use oxid_relay.Prelude.{◌≡◌, refl, inl, inr, any, Bool-cases, Option-cases}
use oxid_relay.Prelude.Text.{text_eq}
use oxid_relay.Prelude.Result.{ok, Result-cases}
use oxid_relay.Message.{Mail}
use oxid_relay.Queue.Laws.{EnqueueLaws}
use oxid_relay.Queue.Row.{Codec, Row, mail_to_row}
use oxid_relay.Queue.Sqlite
use oxid_relay.Queue.Sqlite.{execute}
use oxid_relay.Queue.Model
use oxid_relay.Queue.Model.{is_mail}
use oxid_relay.Queue.Instance.{State, model_queue, sqlite_queue}

pub model_enqueue_laws : (c : Codec) → EnqueueLaws Mail (model_queue c)
unfolding Model.enqueue execute
model_enqueue_laws c = record {
  contents = λ s. s.table;
  stores = λ m x. x ≡ m;
  enqueue_contents = λ m s. elim (Option-cases (s.moments 0).fault) [
    | inr (f, e) ↦ rw (e, execute) (inl (refl, refl))
    | inl e ↦ elim (Bool-cases (any (is_mail m.id) s.table)) [
      | inl d ↦ rw (e, d, execute) (inl (refl, refl))
      | inr d ↦ rw (e, d, execute) (inr (refl, m, refl, refl))
    ]
  ];
}

-- The entry of a mail is the row that it is written to.
pub sqlite_enqueue_laws : (c : Codec) → EnqueueLaws Row (sqlite_queue c)
unfolding Sqlite.enqueue execute
sqlite_enqueue_laws c = record {
  contents = λ s. s.table;
  stores = λ m r. mail_to_row c m ≡ ok r;
  enqueue_contents = λ m s. elim (Result-cases (mail_to_row c m)) [
    | inr (x, f) ↦ rw (f, Sqlite.enqueue) (inl (refl, refl))
    | inl (row, f) ↦ elim (Option-cases (s.moments 0).fault) [
      | inr (text, e) ↦ rw (f, e, Sqlite.enqueue, execute) (inl (refl, refl))
      | inl e ↦ elim (Bool-cases (any (λ (r : Row). text_eq r.id row.id) s.table)) [
        | inl d ↦ rw (f, e, d, Sqlite.enqueue, execute) (inl (refl, refl))
        | inr d ↦ rw (f, e, d, Sqlite.enqueue, execute) (inr (refl, row, refl, refl))
      ]
    ]
  ];
}

pub contents-sqlite_enqueue_laws :
    (c : Codec) (s : State Row) → (sqlite_enqueue_laws c).contents s ≡ s.table
unfolding sqlite_enqueue_laws
contents-sqlite_enqueue_laws c s = refl

pub stores-sqlite_enqueue_laws :
    (c : Codec) (m : Mail) (r : Row) → (sqlite_enqueue_laws c).stores m r → mail_to_row c m ≡ ok r
unfolding sqlite_enqueue_laws
stores-sqlite_enqueue_laws c m r h = h
