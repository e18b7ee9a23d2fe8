-- ===== src/Queue/Instance/Rows/Held.antt =====
-- The row of a mail that the table of crates/queue-sqlite holds.
use mathlib.Core.List.{Memᴰ}
use oxid_relay.Prelude.{
  ◌≤◌, ◌≡◌, refl, ap, ◌∙◌, some, List, [], ◌∷◌, count, arith, Bool-cases, inl, inr, ==_refl, ==_iff,
  Option, none, sym,
}
use oxid_relay.Prelude.Text.{text_eq, text_eq_iff}
use oxid_relay.Prelude.Result.{ok}
use oxid_relay.Message.{Mail, MailId}
use oxid_relay.Queue.Counts.{count-member}
use oxid_relay.Queue.Keyed.{count-Distinct}
use oxid_relay.Queue.Model.{is_mail}
use oxid_relay.Queue.Row.{Codec, Row, mail_to_row}
use oxid_relay.Queue.Row.RoundTrip.{IsCodec}
use oxid_relay.Queue.Refine.Holds.{Holds, All-trivial, count-Holds, has_id-is_mail}
use oxid_relay.Queue.Sqlite.{has_id, find_row}
use oxid_relay.Queue.Instance.Rows.Keys.{IsKeyed}

module _ (c : Codec) (k : IsCodec c) where
  pub held_once :
      (j : MailId) (rows : List Row) (ms : List Mail)
      → IsKeyed c rows
      → Holds c rows ms
      → count (is_mail j) ms ≤ 1
  held_once j rows ms keyed held = omega (
    arith,
    count-Holds c (λ m. Unit {0}) (has_id c j) (is_mail j) (λ m r u e. has_id-is_mail c k j m r e)
        rows ms (All-trivial ms) held,
    count-Distinct (λ (r : Row). r.id) text_eq text_eq_iff (c.uuid_to_string j) rows keyed.0,
  )

  pub held_row :
      (m : Mail) (rows : List Row) (ms : List Mail)
      → count (is_mail m.id) ms ≤ 1
      → Holds c rows ms
      → Memᴰ m ms
      → (r : Row) × (find_row c m.id rows ≡ some r) × (mail_to_row c m ≡ ok r)
  unfolding find_row
  held_row m [] ms once held here = absurd (no_rows ms held here)
    where
      no_rows : (ns : List Mail) → Holds c [] ns → Memᴰ m ns → ⊥
      no_rows [] h a = elim a [ ]
      no_rows (n ∷ ns) h a = h
  held_row m (r ∷ rows) [] once held here = absurd held
  held_row m (r ∷ rows) (n ∷ ns) once held (Memᴰ.head e) =
      let stored : mail_to_row c m ≡ ok r = ap (mail_to_row c) e ∙ held.0 in
      (r, rw (has_id-is_mail c k m.id m r stored ∙ ==_refl m.id) refl, stored)
  held_row m (r ∷ rows) (n ∷ ns) once held (Memᴰ.tail a) = elim (Bool-cases (is_mail m.id n)) [
    | inl twice ↦
        absurd (omega (arith, count-member (is_mail m.id) ns m a (==_refl m.id), rw twice at once))
    | inr miss ↦
        let (r', found, stored) = held_row m rows ns (omega arith) held.1 a in
        (r', rw (has_id-is_mail c k m.id n r held.0 ∙ miss) found, stored)
  ]

  -- The mail of a row that is found.
  pub held_mail :
      (j : MailId) (r : Row) (rows : List Row) (ms : List Mail)
      → Holds c rows ms
      → find_row c j rows ≡ some r
      → (m : Mail) × Memᴰ m ms × (m.id ≡ j) × (mail_to_row c m ≡ ok r)
  unfolding find_row
  held_mail j r [] ms held found = absurd (cc)
  held_mail j r (r' ∷ rows) [] held found = absurd held
  held_mail j r (r' ∷ rows) (n ∷ ns) held found = elim (Bool-cases (has_id c j r')) [
    | inl hit ↦
        let same : some r' ≡ some r = rw hit at found in
        (
          n,
          Memᴰ.head refl,
          (==_iff n.id j).0 (sym (has_id-is_mail c k j n r' held.0) ∙ hit),
          held.0 ∙ ap (λ (o : Option Row). elim o [ none ↦ ok r' | some x ↦ ok x ]) same,
        )
    | inr miss ↦
        let (m, here, id, stored) = held_mail j r rows ns held.1 (rw miss at found) in
        (m, Memᴰ.tail here, id, stored)
  ]
