-- ===== src/Queue/Refine/Writes.antt =====
-- The statements of crates/queue-sqlite that write, against the specification.
use oxid_relay.Prelude.{
  ℕ, ◌<◌, ◌==◌, ◌≡◌, ◌≢◌, [], ◌∷◌, ◌++◌, refl, sym, subst, ap, Bool, true, false, Option, List, All,
  arith, if◌then◌else◌, Option-cases, inl, inr, any,
}
use oxid_relay.Prelude.Text.{Text, codes, text_eq}
use oxid_relay.Prelude.Result.{Result, ok, err, Result-cases}
use oxid_relay.Message.{
  CoreError, Mail, MailId, MailStatus, Time, pending, sending, sent, failed, dead,
}
use oxid_relay.Queue.Row.{Codec, Row, mail_to_row, status_to_str}
use oxid_relay.Queue.Row.RoundTrip.{IsCodec, InRange, horizon}
use oxid_relay.Queue.Sqlite
use oxid_relay.Queue.Sqlite.{Moment, execute, has_id, set_row, reset_row, is_sending}
use oxid_relay.Queue.Model
use oxid_relay.Queue.Model.{is_mail, set_mail, reset_mail, in_flight, is_stale}
use oxid_relay.Queue.Refine.Holds.{
  Holds, columns, has_id-is_mail, Agree, All-trivial, count-Holds, any-Holds, update_where-Holds,
  Holds-append,
}

-- The same answer, and a table that holds the mails of the specification.
abbrev pub Refines :
    {A : Type 0} → Codec → Result A CoreError × List Row → Result A CoreError × List Mail → Type 0
Refines c x y = (x.0 ≡ y.0) × Holds c x.1 y.1

abbrev Any : Mail → Type 0
Any m = Unit {0}

module _ (c : Codec) (k : IsCodec c) (rows : List Row) (ms : List Mail)
    (held : Holds c rows ms) where
  pub execute-Refines :
      {A : Type 0} (e : Moment) (x : Result A CoreError × List Row)
      (y : Result A CoreError × List Mail)
      → Refines c x y
      → Refines c (execute e x rows) (execute e y ms)
  unfolding execute
  execute-Refines e x y h = elim (Option-cases e.fault) [
    | inl fine ↦ rw (fine, execute) h
    | inr (text, broken) ↦ rw (broken, execute) (refl, held)
  ]

  same_id : (id : MailId) → Agree c Any (has_id c id) (is_mail id)
  same_id id m r a = has_id-is_mail c k id m r

  set_row-set_mail :
      (now : Time) (status : MailStatus) (last_error : Option Text) (bump : Bool)
      (next : Option Time) (m : Mail) (r : Row)
      → mail_to_row c m ≡ ok r
      → mail_to_row c (set_mail now status last_error bump next m)
        ≡ ok (set_row c now status last_error bump next r)
  unfolding mail_to_row set_row
  set_row-set_mail now status last_error bump next m r h = ground arith

  -- Where the formats behave as documented, a status transition on a table that holds the mails
  -- `ms` does what the specification does to `ms`: the same answer (done, no such mail, database
  -- failure), and a table that holds the result.
  pub set_status-Refines :
      (e : Moment) (id : MailId) (status : MailStatus) (last_error : Option Text) (bump : Bool)
      (next : Option Time)
      → Refines c
          (Sqlite.set_status c e id status last_error bump next rows)
          (Model.set_status c e id status last_error bump next ms)
  unfolding Sqlite.set_status Model.set_status
  set_status-Refines e id status last_error bump next = execute-Refines e _ _ (
    ap (λ (n : ℕ). if n == 0 then err (CoreError.not_found (c.uuid_to_string id)) else ok tt)
        (count-Holds c Any (has_id c id) (is_mail id) (same_id id) rows ms (All-trivial ms) held),
    update_where-Holds c Any (has_id c id) (is_mail id)
        (set_row c e.now status last_error bump next) (set_mail e.now status last_error bump next)
        (same_id id) (set_row-set_mail e.now status last_error bump next) rows ms (All-trivial ms)
        held,
  )

  mail_to_row-ne-err : (m : Mail) (x : CoreError) → mail_to_row c m ≢ err x
  unfolding mail_to_row
  mail_to_row-ne-err m x h =
      let (s, ps, ds) = k.address_back m.from in
      let (t, pt, dt) = k.addresses_back m.to in ground (arith, ps, pt)

  known_id :
      (mail : Mail) (row : Row)
      → mail_to_row c mail ≡ ok row
      → any (λ (r : Row). text_eq r.id row.id) rows ≡ any (is_mail mail.id) ms
  known_id mail row written =
      subst (λ (i : Text). any (λ (r : Row). text_eq r.id i) rows ≡ any (is_mail mail.id) ms)
        (sym (columns c mail row written).id)
        (any-Holds c Any (has_id c mail.id) (is_mail mail.id) (same_id mail.id) rows ms
          (All-trivial ms) held)

  insert-Refines :
      (mail : Mail) (row : Row)
      → mail_to_row c mail ≡ ok row
      → (b : Bool)
      → Refines c
          (if b
            then (err (CoreError.queue c.unique_violation), rows)
            else (ok mail, rows ++ row ∷ []))
          (if b then (err (CoreError.queue c.unique_violation), ms) else (ok mail, ms ++ mail ∷ []))
  insert-Refines mail row written true = (refl, held)
  insert-Refines mail row written false = (refl, Holds-append c rows ms row mail held written)

  -- Where the formats behave as documented, enqueueing into a table that holds the mails `ms` does
  -- what the specification does to `ms`: it is refused for an id that is there, and otherwise adds
  -- the mail at the end; a failure of the database adds nothing.
  pub enqueue-Refines :
      (e : Moment) (mail : Mail)
      → Refines c (Sqlite.enqueue c e mail rows) (Model.enqueue c e mail ms)
  unfolding Sqlite.enqueue Model.enqueue
  enqueue-Refines e mail = elim (Result-cases (mail_to_row c mail)) [
    | inl (row, written) ↦
        rw (written, Sqlite.enqueue)
          (execute-Refines e _ _ (
            rw (known_id mail row written)
              (insert-Refines mail row written (any (is_mail mail.id) ms))))
    | inr (x, failure) ↦ absurd (mail_to_row-ne-err mail x failure)
  ]

  reset_row-reset_mail :
      (now : Time) (m : Mail) (r : Row)
      → mail_to_row c m ≡ ok r
      → mail_to_row c (reset_mail now m) ≡ ok (reset_row c now r)
  unfolding mail_to_row reset_row status_to_str
  reset_row-reset_mail now m r h = ground arith

  requeue_where-Refines :
      (P : Mail → Type 0) (p : Row → Bool) (q : Mail → Bool)
      → Agree c P p q
      → All P ms
      → (e : Moment) → Refines c (Sqlite.requeue_where c e p rows) (Model.requeue_where e q ms)
  unfolding Sqlite.requeue_where Model.requeue_where
  requeue_where-Refines P p q agree a e = execute-Refines e _ _ (
    ap ok (count-Holds c P p q agree rows ms a held),
    update_where-Holds c P p q (reset_row c e.now) (reset_mail e.now) agree
        (reset_row-reset_mail e.now) rows ms a held,
  )

  sending_text : (s : MailStatus) → text_eq (status_to_str s) (codes "sending") ≡ in_flight s
  unfolding text_eq status_to_str
  sending_text pending = refl
  sending_text sending = refl
  sending_text sent = refl
  sending_text failed = refl
  sending_text dead = refl

  -- Where the formats behave as documented, the recovery at startup puts back exactly the mails
  -- that are in flight, and counts them, as the specification does.
  pub requeue_sending-Refines :
      (e : Moment)
      → Refines c
          (Sqlite.requeue_sending c e rows)
          (Model.requeue_where e (λ (m : Mail). in_flight m.status) ms)
  unfolding Sqlite.requeue_sending
  requeue_sending-Refines e =
      requeue_where-Refines Any (is_sending c) (λ m. in_flight m.status)
        (λ m r _ h. rw ((columns c m r h).status) (sending_text m.status)) (All-trivial ms) e

  -- Where the formats behave as documented, and for mails in range and a time before the year
  -- 10000, the recovery of stale mails puts back exactly those in flight whose last update is
  -- earlier than the given time, and counts them, as the specification does.
  pub requeue_stale_sending-Refines :
      (e : Moment) (older_than : Time)
      → older_than < horizon
      → All InRange ms
      → Refines c
          (Sqlite.requeue_stale_sending c e older_than rows)
          (Model.requeue_where e (is_stale older_than) ms)
  unfolding Sqlite.requeue_stale_sending
  requeue_stale_sending-Refines e older_than soon a =
      requeue_where-Refines InRange (Sqlite.is_stale c older_than) (is_stale older_than) stale a e
    where
      stale : Agree c InRange (Sqlite.is_stale c older_than) (is_stale older_than)
      stale m r v h =
          rw
            (
              (columns c m r h).status,
              (columns c m r h).updated_at,
              sending_text m.status,
              k.time_order m.updated_at older_than v.updated_at soon,
            )
            refl
