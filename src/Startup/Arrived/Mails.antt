-- ===== src/Startup/Arrived/Mails.antt =====
-- The mails of rows that the ingress of crates/ingress-smtp has added to the table.
use mathlib.Core.List.{Memᴰ}
use oxid_relay.Prelude.{◌<◌, ◌≤◌, ◌≡◌, refl, true, List, [], ◌∷◌, ◌++◌, All, arith}
use oxid_relay.Prelude.Text.{Text}
use oxid_relay.Prelude.Result.{ok}
use oxid_relay.Message.{Mail, Time}
use oxid_relay.Ingress.Stored.{IsFresh}
use oxid_relay.Queue.Model.{is_due}
use oxid_relay.Queue.Row.{Codec, Row, mail_to_row}
use oxid_relay.Queue.Row.RoundTrip.{InRange, horizon}
use oxid_relay.Queue.Refine.Holds.{Holds}

pub Holds-append_all :
    (c : Codec) (rs : List Row) (ms : List Mail) (rs' : List Row) (ms' : List Mail)
    → Holds c rs ms
    → Holds c rs' ms'
    → Holds c (rs ++ rs') (ms ++ ms')
Holds-append_all c [] [] rs' ms' h h' = h'
Holds-append_all c [] (m ∷ ms) rs' ms' h h' = absurd h
Holds-append_all c (r ∷ rs) [] rs' ms' h h' = absurd h
Holds-append_all c (r ∷ rs) (m ∷ ms) rs' ms' h h' = (h.0, Holds-append_all c rs ms rs' ms' h.1 h')

pub append-Mem : {A : Type 0} (xs ys : List A) {x : A} → Memᴰ x ys → Memᴰ x (xs ++ ys)
append-Mem [] ys m = m
append-Mem (x ∷ xs) ys m = Memᴰ.tail (append-Mem xs ys m)

module _ (c : Codec) (sender : Text) where
  -- A row of a fresh mail from the sender.
  abbrev pub Arrival : Row → Type 0
  Arrival r = (m : Mail) × (mail_to_row c m ≡ ok r) × IsFresh sender m

  pub mails_of : (rows : List Row) → All Arrival rows → List Mail
  mails_of [] h = []
  mails_of (r ∷ rows) h = h.0.0 ∷ mails_of rows h.1

  pub mails-Holds : (rows : List Row) (h : All Arrival rows) → Holds c rows (mails_of rows h)
  unfolding mails_of
  mails-Holds [] h = tt
  mails-Holds (r ∷ rows) h = (h.0.1, mails-Holds rows h.1)

  -- What holds of each row whose mail is one of them holds of all the rows.
  pub mails-each :
      (P : Row → Type 0) (rows : List Row) (h : All Arrival rows)
      → ((r : Row) (a : Arrival r) → Memᴰ a.0 (mails_of rows h) → P r)
      → All P rows
  unfolding mails_of
  mails-each P [] h f = tt
  mails-each P (r ∷ rows) h f =
      (f r h.0 (Memᴰ.head refl), mails-each P rows h.1 (λ x a here. f x a (Memᴰ.tail here)))

  module _ (now : Time) where
    abbrev pub IsEarly : Mail → Type 0
    IsEarly m = m.created_at ≤ now

    fresh-InRange : (r : Row) (a : Arrival r) → now < horizon → IsEarly a.0 → InRange a.0
    fresh-InRange r (m, stored, fresh) soon early = ground arith

    pub fresh-is_due : (r : Row) (a : Arrival r) → IsEarly a.0 → is_due now a.0 ≡ true
    fresh-is_due r (m, stored, fresh) early = ground arith

    pub mails-InRange :
        now < horizon
        → (rows : List Row) (h : All Arrival rows) → All IsEarly (mails_of rows h)
        → All InRange (mails_of rows h)
    unfolding mails_of
    mails-InRange soon [] h early = tt
    mails-InRange soon (r ∷ rows) h early =
        (fresh-InRange r h.0 soon early.0, mails-InRange soon rows h.1 early.1)
