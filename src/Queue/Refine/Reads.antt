-- ===== src/Queue/Refine/Reads.antt =====
-- The statements of crates/queue-sqlite that read, against the specification.
use oxid_relay.Prelude.{
  ℕ, zero, suc, ◌<◌, ◌≡◌, refl, ◌||◌, none, some, List, [], ◌∷◌, All, All-take, All-filter_keep,
  arith, filter, take, Bool-cases, inl, inr,
}
use oxid_relay.Prelude.Text.{codes, text_eq}
use oxid_relay.Prelude.Result.{ok, err}
use oxid_relay.Message.{
  CoreError, Mail, MailId, MailStatus, Time, pending, sending, sent, failed, dead,
}
use oxid_relay.Queue.Order.{order_by, insert_by, order_by-All}
use oxid_relay.Queue.Row.{Codec, Row, mail_to_row, row_to_mail, status_to_str}
use oxid_relay.Queue.Row.RoundTrip.{IsCodec, InRange, horizon, row_to_mail-mail_to_row}
use oxid_relay.Queue.Sqlite
use oxid_relay.Queue.Sqlite.{Moment, decode_all, find_row}
use oxid_relay.Queue.Model
use oxid_relay.Queue.Laws.{is_waiting}
use oxid_relay.Queue.Model.{is_mail, due_mails, find_mail}
use oxid_relay.Queue.Refine.Holds.{Holds, columns, has_id-is_mail, filter-Holds}
use oxid_relay.Queue.Refine.Writes.{Refines, execute-Refines}

waiting_text :
    (s : MailStatus)
    → (text_eq (status_to_str s) (codes "pending") || text_eq (status_to_str s) (codes "failed"))
      ≡ is_waiting s
unfolding text_eq status_to_str
waiting_text pending = refl
waiting_text sending = refl
waiting_text sent = refl
waiting_text failed = refl
waiting_text dead = refl

module _ (c : Codec) (k : IsCodec c) where
  due_agree :
      (now : Time)
      → now < horizon
      → (m : Mail) (r : Row) → InRange m
      → mail_to_row c m ≡ ok r
      → Sqlite.is_due c now r ≡ Model.is_due now m
  unfolding Sqlite.is_due
  due_agree now soon m r v h =
      rw
        (
          (columns c m r h).status,
          (columns c m r h).next_attempt_at,
          waiting_text m.status,
          k.time_order now m.next_attempt_at soon v.next_attempt_at,
        )
        (ground arith)

  order_agree :
      (m n : Mail) (r s : Row)
      → InRange m
      → InRange n
      → mail_to_row c m ≡ ok r
      → mail_to_row c n ≡ ok s
      → Sqlite.no_later c r s ≡ Model.no_later m n
  unfolding Sqlite.no_later
  order_agree m n r s v w h g =
      rw
        (
          (columns c m r h).next_attempt_at,
          (columns c n s g).next_attempt_at,
          k.time_order n.next_attempt_at m.next_attempt_at w.next_attempt_at v.next_attempt_at,
        )
        (ground arith)

  insert_by-Holds :
      (m : Mail) (r : Row) (rs : List Row) (ms : List Mail)
      → InRange m
      → All InRange ms
      → mail_to_row c m ≡ ok r
      → Holds c rs ms
      → Holds c (insert_by (Sqlite.no_later c) r rs) (insert_by Model.no_later m ms)
  unfolding insert_by
  insert_by-Holds m r [] [] v a h held = (h, tt)
  insert_by-Holds m r [] (n ∷ ms) v a h held = absurd held
  insert_by-Holds m r (s ∷ rs) [] v a h held = absurd held
  insert_by-Holds m r (s ∷ rs) (n ∷ ms) v a h held =
      rw (order_agree m n r s v a.0 h held.0) (elim (Bool-cases (Model.no_later m n)) [
        | inl e ↦ rw e (h, held)
        | inr e ↦ rw e (held.0, insert_by-Holds m r rs ms v a.1 h held.1)
      ])

  order_by-Holds :
      (rs : List Row) (ms : List Mail)
      → All InRange ms
      → Holds c rs ms
      → Holds c (order_by (Sqlite.no_later c) rs) (order_by Model.no_later ms)
  unfolding order_by
  order_by-Holds [] [] a held = tt
  order_by-Holds [] (n ∷ ms) a held = absurd held
  order_by-Holds (s ∷ rs) [] a held = absurd held
  order_by-Holds (s ∷ rs) (n ∷ ms) a held =
      insert_by-Holds n s _ _ a.0 (order_by-All Model.no_later InRange ms a.1) held.0
        (order_by-Holds rs ms a.1 held.1)

  take-Holds :
      (n : ℕ) (rs : List Row) (ms : List Mail) → Holds c rs ms → Holds c (take n rs) (take n ms)
  take-Holds zero rs ms held = tt
  take-Holds (suc n) [] [] held = tt
  take-Holds (suc n) [] (m ∷ ms) held = absurd held
  take-Holds (suc n) (r ∷ rs) [] held = absurd held
  take-Holds (suc n) (r ∷ rs) (m ∷ ms) held = (held.0, take-Holds n rs ms held.1)

  row_to_mail-Holds :
      (m : Mail) (r : Row) → InRange m → mail_to_row c m ≡ ok r → row_to_mail c r ≡ ok m
  row_to_mail-Holds m r v h =
      let (s, written, back) = row_to_mail-mail_to_row c m k v in cc (h, written, back)

  decode_all-Holds :
      (rs : List Row) (ms : List Mail) → All InRange ms → Holds c rs ms → decode_all c rs ≡ ok ms
  unfolding decode_all
  decode_all-Holds [] [] a held = refl
  decode_all-Holds [] (m ∷ ms) a held = absurd held
  decode_all-Holds (r ∷ rs) [] a held = absurd held
  decode_all-Holds (r ∷ rs) (m ∷ ms) a held =
      rw (row_to_mail-Holds m r a.0 held.0, decode_all-Holds rs ms a.1 held.1) refl

module _ (c : Codec) (k : IsCodec c) (rows : List Row) (ms : List Mail)
    (held : Holds c rows ms) where
  -- Where the formats behave as documented, and for mails in range and a time before the year
  -- 10000, fetching answers with the due mails of the specification, decoded, and changes nothing.
  pub fetch_due-Refines :
      (e : Moment) (limit : ℕ) (now : Time)
      → now < horizon
      → All InRange ms
      → Refines c (Sqlite.fetch_due c e limit now rows) (Model.fetch_due e limit now ms)
  unfolding Sqlite.fetch_due Model.fetch_due due_mails
  fetch_due-Refines e limit now soon a =
      execute-Refines c k rows ms held e _ _ (decode_all-Holds c k _ _ kept found, held)
    where
      due : List Mail
      due = filter (Model.is_due now) ms

      in_range : All InRange due
      in_range = All-filter_keep InRange (Model.is_due now) ms a

      kept : All InRange (take limit (order_by Model.no_later due))
      kept = All-take InRange limit _ (order_by-All Model.no_later InRange due in_range)

      found :
          Holds c
            (take limit (order_by (Sqlite.no_later c) (filter (Sqlite.is_due c now) rows)))
            (take limit (order_by Model.no_later due))
      found = take-Holds c k limit _ _ (
          order_by-Holds c k _ due in_range (
            filter-Holds c InRange (Sqlite.is_due c now) (Model.is_due now) (due_agree c k now soon)
              rows ms a held))

find_row-Holds :
    (c : Codec) (k : IsCodec c) (rows : List Row) (ms : List Mail) (id : MailId)
    → All InRange ms
    → Holds c rows ms
    → (elim (find_row c id rows) [
      | none ↦ err (CoreError.not_found (c.uuid_to_string id))
      | some row ↦ row_to_mail c row
    ])
      ≡ (elim (find_mail id ms) [
        | none ↦ err (CoreError.not_found (c.uuid_to_string id))
        | some m ↦ ok m
      ])
unfolding find_row find_mail
find_row-Holds c k [] [] id a held = refl
find_row-Holds c k [] (m ∷ ms) id a held = absurd held
find_row-Holds c k (r ∷ rs) [] id a held = absurd held
find_row-Holds c k (r ∷ rs) (m ∷ ms) id a held =
    rw (has_id-is_mail c k id m r held.0) (elim (Bool-cases (is_mail id m)) [
      | inl e ↦ rw e (row_to_mail-Holds c k m r a.0 held.0)
      | inr e ↦ rw e (find_row-Holds c k rs ms id a.1 held.1)
    ])

-- Where the formats behave as documented, and for mails in range, getting a mail by its id answers
-- as the specification does, with the mail or with the error that there is none, and changes
-- nothing.
pub get-Refines :
    (c : Codec) (k : IsCodec c) (rows : List Row) (ms : List Mail)
    → Holds c rows ms
    → (e : Moment) (id : MailId) → All InRange ms
    → Refines c (Sqlite.get c e id rows) (Model.get c e id ms)
unfolding Sqlite.get Model.get
get-Refines c k rows ms held e id a =
    execute-Refines c k rows ms held e _ _ (find_row-Holds c k rows ms id a held, held)
