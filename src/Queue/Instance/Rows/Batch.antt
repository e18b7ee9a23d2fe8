-- ===== src/Queue/Instance/Rows/Batch.antt =====
-- The batch that `fetch_due` of crates/queue-sqlite decodes, among the rows of the table.
use oxid_relay.Prelude.{
  ℕ, ◌≤◌, ◌≡◌, ◌≢◌, ◌⊎◌, refl, ap, true, ◌==◌, ◌||◌, ◌&&◌, Bool, some, List, [], ◌∷◌, count, take,
  filter, All, All-take, All-filter_keep, arith, Bool-cases, Option-cases, inl, inr,
}
use oxid_relay.Prelude.Text.{Text, codes, text_eq, text_eq_iff}
use oxid_relay.Prelude.Result.{Result, ok, Result-cases}
use oxid_relay.Message.{CoreError, Mail, MailId, Time, pending, failed}
use oxid_relay.Queue.Keyed.{count-batch, batch-found}
use oxid_relay.Queue.Laws.{is_waiting}
use oxid_relay.Queue.Order.{order_by, order_by-All}
use oxid_relay.Queue.Row.{Codec, Row, row_to_mail, status_to_str}
use oxid_relay.Queue.Row.RoundTrip.{IsCodec}
use oxid_relay.Queue.Model.{is_mail}
use oxid_relay.Queue.Sqlite.{
  Moment, execute, decode_all, has_id, find_row, fetch_due, is_due, no_later,
}
use oxid_relay.Queue.Instance.Rows.Keys.{IsPrinted, IsKeyed}
use oxid_relay.Queue.Instance.Rows.View.{status_of, written_status, find_row-find_by, text_eq-uuid}

row_to_mail-id :
    (c : Codec) (r : Row) (m : Mail) → row_to_mail c r ≡ ok m → c.parse_uuid r.id ≡ ok m.id
unfolding row_to_mail
row_to_mail-id c r m h = ground arith

waiting_status :
    (text : Text)
    → (text_eq text (codes "pending") || text_eq text (codes "failed")) ≡ true
    → is_waiting (status_of text) ≡ true
unfolding status_to_str
waiting_status text h = elim (Bool-cases (text_eq text (codes "pending"))) [
  | inl e ↦ rw ((text_eq_iff text (codes "pending")).0 e, written_status pending) refl
  | inr e ↦
      let is_failed : text_eq text (codes "failed") ≡ true = rw e at h in
      rw ((text_eq_iff text (codes "failed")).0 is_failed, written_status failed) refl
]

pub both_left : (a b : Bool) → (a && b) ≡ true → a ≡ true
both_left a b h = ground arith

undecoded : (x : CoreError) (ms : List Mail) → Result.err x ≢ ok ms
undecoded x ms h = cc

decoded : (r : Result (List Mail) CoreError) (ns ms : List Mail) → r ≡ ok ns → r ≡ ok ms → ns ≡ ms
decoded r ns ms h k = cc

fetch_due-decode_all :
    (c : Codec) (e : Moment) (limit : ℕ) (now : Time) (rows : List Row) (batch : List Mail)
    → (fetch_due c e limit now rows).0 ≡ ok batch
    → decode_all c (take limit (order_by (no_later c) (filter (is_due c now) rows))) ≡ ok batch
unfolding fetch_due execute
fetch_due-decode_all c e limit now rows batch h = elim (Option-cases e.fault) [
  | inl fine ↦ rw (fine, execute) at h
  | inr (text, broken) ↦ absurd (undecoded (CoreError.queue text) batch (rw (broken, execute) at h))
]

module _ (c : Codec) (k : IsCodec c) where
  has_id-row_to_mail :
      (j : MailId) (r : Row) (m : Mail)
      → IsPrinted c r
      → row_to_mail c r ≡ ok m
      → is_mail j m ≡ has_id c j r
  has_id-row_to_mail j r m (i, e) h =
      let same : m.id ≡ i = ground (arith, row_to_mail-id c r m h, k.uuid_back i, e) in
      rw (e, text_eq-uuid c k i j) (ap (λ (n : MailId). n == j) same)

  count-decode_all :
      (j : MailId) (rows : List Row) (ms : List Mail)
      → All (IsPrinted c) rows
      → decode_all c rows ≡ ok ms
      → count (is_mail j) ms ≡ count (has_id c j) rows
  unfolding decode_all
  count-decode_all j [] ms a h = let done : [] ≡ ms = cc in rw (← done) refl
  count-decode_all j (r ∷ rows) ms a h = elim (Result-cases (row_to_mail c r)) [
    | inr (x, e) ↦ absurd (undecoded x ms (rw (e, decode_all) at h))
    | inl (m, e) ↦ elim (Result-cases (decode_all c rows)) [
      | inr (x, f) ↦ absurd (undecoded x ms (rw (e, f, decode_all) at h))
      | inl (ns, f) ↦
          rw
            (
              ← decoded (decode_all c (r ∷ rows)) (m ∷ ns) ms (rw (e, f, decode_all) refl) h,
              has_id-row_to_mail j r m a.0 e,
              count-decode_all j rows ns a.1 f,
            )
            refl
    ]
  ]

  module _ (limit : ℕ) (now : Time) (rows : List Row) (keyed : IsKeyed c rows) where
    picked-All : All (IsPrinted c) (take limit (order_by (no_later c) (filter (is_due c now) rows)))
    picked-All = All-take (IsPrinted c) limit _ (
        order_by-All (no_later c) (IsPrinted c) (filter (is_due c now) rows)
          (All-filter_keep (IsPrinted c) (is_due c now) rows keyed.1))

    -- A batch has no mail twice, and the rows that its mails are read from wait for delivery.
    pub fetched_rows :
        (e : Moment) (batch : List Mail)
        → (fetch_due c e limit now rows).0 ≡ ok batch
        → (j : MailId)
        → (count (is_mail j) batch ≤ 1)
          × ((count (is_mail j) batch ≡ 0)
              ⊎ ((r : Row) × (find_row c j rows ≡ some r)
                  × (is_waiting (status_of r.status) ≡ true)))
    unfolding is_due
    fetched_rows e batch h j =
        rw (count-decode_all j _ batch picked-All (fetch_due-decode_all c e limit now rows batch h))
          (
            count-batch (λ (r : Row). r.id) text_eq text_eq_iff limit (no_later c) (is_due c now)
                rows keyed.0 (c.uuid_to_string j),
            elim (batch-found (λ (r : Row). r.id) text_eq text_eq_iff limit (no_later c)
                (is_due c now) rows keyed.0 (c.uuid_to_string j)) [
                  | inl none_left ↦ inl none_left
                  | inr (r, found, due) ↦ inr (
                    r,
                    rw (find_row-find_by c j rows) found,
                    waiting_status r.status (both_left _ _ due),
                  )
                ],
          )
