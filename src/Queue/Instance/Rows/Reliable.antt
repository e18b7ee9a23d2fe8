-- ===== src/Queue/Instance/Rows/Reliable.antt =====
-- The table of crates/queue-sqlite while its database does not fail.
use oxid_relay.Prelude.{
  ℕ, suc, ◌≡◌, ◌==◌, true, Bool, Option, none, some, List, count, arith, Bool-cases, inl, inr,
  ==_iff,
}
use oxid_relay.Prelude.Text.{Text, text_eq, text_eq_iff}
use oxid_relay.Prelude.Result.{is_ok}
use oxid_relay.Message.{MailId, MailStatus, Time}
use oxid_relay.Queue.Keyed.{count-find}
use oxid_relay.Queue.Laws.{Delivery, Preserves, Reliable}
use oxid_relay.Queue.Row.{Codec, Row}
use oxid_relay.Queue.Row.RoundTrip.{IsCodec}
use oxid_relay.Queue.Sqlite.{
  Moment, execute, has_id, set_status, mark_sending, mark_sent, mark_failed, mark_dead,
}
use oxid_relay.Queue.Instance.{State, sqlite_queue}
use oxid_relay.Queue.Instance.Rows.{sqlite_laws}
use oxid_relay.Queue.Instance.Rows.View.{row_view, find_row-find_by}

-- No call to come meets a failure.
abbrev pub IsCalm : State Row → Type 0
IsCalm s = (n : ℕ) → (s.moments n).fault ≡ none

module _ (c : Codec) where
  pub calm-Preserves : Preserves (sqlite_queue c) IsCalm
  calm-Preserves = record {
    enqueue = λ m s h n. h (suc n);
    stale = λ t s h n. h (suc n);
    recover = λ s h n. h (suc n);
    fetch = λ limit now s h n. h (suc n);
    sending = λ i s h n. h (suc n);
    sent = λ i s h n. h (suc n);
    failed = λ i error retry_at s h n. h (suc n);
    dead = λ i error s h n. h (suc n);
  }

  set_status-done :
      (e : Moment) (i : MailId) (status : MailStatus) (error : Option Text) (bump : Bool)
      (next : Option Time) (rows : List Row) (d : Delivery Text)
      → e.fault ≡ none
      → row_view c rows i ≡ some d
      → is_ok (set_status c e i status error bump next rows).0 ≡ true
  unfolding set_status execute
  set_status-done e i status error bump next rows d fine known =
      elim (Bool-cases (count (has_id c i) rows == 0)) [
        | inl empty ↦
            let missing =
              count-find (λ (r : Row). r.id) text_eq text_eq_iff (c.uuid_to_string i) rows
                ((==_iff _ 0).0 empty) in
            absurd (ground (arith, find_row-find_by c i rows))
        | inr there ↦ rw (fine, execute) (rw there)
      ]

  -- Every transition of a mail of the table is carried out.
  pub sqlite-Reliable : (k : IsCodec c) (i : MailId) → Reliable (sqlite_laws c k) IsCalm i
  unfolding sqlite_laws mark_sending mark_sent mark_failed mark_dead
  sqlite-Reliable k i = record {
    sending = λ s d h known. set_status-done (s.moments 0) i _ _ _ _ s.table d (h 0) known;
    sent = λ s d h known. set_status-done (s.moments 0) i _ _ _ _ s.table d (h 0) known;
    failed =
        λ error retry_at s d h known. set_status-done (s.moments 0) i _ _ _ _ s.table d (h 0) known;
    dead = λ error s d h known. set_status-done (s.moments 0) i _ _ _ _ s.table d (h 0) known;
  }
