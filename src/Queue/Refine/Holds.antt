-- ===== src/Queue/Refine/Holds.antt =====
-- A table that holds mails, and what a row of it shows of its mail.
use oxid_relay.Prelude.{
  ◌≡◌, refl, ap, Bool, List, [], ◌∷◌, ◌++◌, count, any, filter, All, arith, Bool-cases, inl, inr,
}
use oxid_relay.Prelude.Text.{text_eq_iff}
use oxid_relay.Prelude.Result.{ok}
use oxid_relay.Message.{Mail, MailId}
use oxid_relay.Queue.Row.{Codec, Row, mail_to_row, status_to_str}
use oxid_relay.Queue.Row.RoundTrip.{IsCodec}
use oxid_relay.Queue.Table.{update_where}
use oxid_relay.Queue.Sqlite.{has_id}
use oxid_relay.Queue.Model.{is_mail}

-- Each row is the one that its mail is written to.
abbrev pub Holds : Codec → List Row → List Mail → Type 0
Holds c [] [] = Unit {0}
Holds c [] (m ∷ ms) = ⊥
Holds c (r ∷ rs) [] = ⊥
Holds c (r ∷ rs) (m ∷ ms) = (mail_to_row c m ≡ ok r) × Holds c rs ms

-- The columns of the row in which a mail is stored.
pub record Columns (c : Codec) (m : Mail) (r : Row) : Type 0 where
  pub id : r.id ≡ c.uuid_to_string m.id
  pub status : r.status ≡ status_to_str m.status
  pub updated_at : r.updated_at ≡ c.to_rfc3339 m.updated_at
  pub next_attempt_at : r.next_attempt_at ≡ c.to_rfc3339 m.next_attempt_at

pub columns : (c : Codec) (m : Mail) (r : Row) → mail_to_row c m ≡ ok r → Columns c m r
unfolding mail_to_row
columns c m r h = record {
  id = ground arith;
  status = ground arith;
  updated_at = ground arith;
  next_attempt_at = ground arith;
}

module _ (c : Codec) (k : IsCodec c) where
  pub uuid_eq : (i j : MailId) → c.uuid_to_string i ≡ c.uuid_to_string j → i ≡ j
  uuid_eq i j e = ground (arith, k.uuid_back i, k.uuid_back j, ap c.parse_uuid e)

  -- The WHERE clause on the id picks the row of the mail with that id.
  pub has_id-is_mail :
      (id : MailId) (m : Mail) (r : Row) → mail_to_row c m ≡ ok r → has_id c id r ≡ is_mail id m
  has_id-is_mail id m r h =
      ground (arith, (columns c m r h).id, text_eq_iff r.id (c.uuid_to_string id), uuid_eq m.id id)

pub All-trivial : (ms : List Mail) → All (λ (m : Mail). Unit {0}) ms
All-trivial [] = tt
All-trivial (m ∷ ms) = (tt, All-trivial ms)

module _ (c : Codec) (P : Mail → Type 0) (p : Row → Bool) (q : Mail → Bool) where
  -- The two tests agree on a row and its mail.
  abbrev pub Agree : Type 0
  Agree = (m : Mail) (r : Row) → P m → mail_to_row c m ≡ ok r → p r ≡ q m

  pub count-Holds :
      Agree → (rs : List Row) (ms : List Mail) → All P ms → Holds c rs ms → count p rs ≡ count q ms
  count-Holds agree [] [] a h = refl
  count-Holds agree [] (m ∷ ms) a h = absurd h
  count-Holds agree (r ∷ rs) [] a h = absurd h
  count-Holds agree (r ∷ rs) (m ∷ ms) a h = rw (agree m r a.0 h.0, count-Holds agree rs ms a.1 h.1)

  pub any-Holds :
      Agree → (rs : List Row) (ms : List Mail) → All P ms → Holds c rs ms → any p rs ≡ any q ms
  any-Holds agree [] [] a h = refl
  any-Holds agree [] (m ∷ ms) a h = absurd h
  any-Holds agree (r ∷ rs) [] a h = absurd h
  any-Holds agree (r ∷ rs) (m ∷ ms) a h = rw (agree m r a.0 h.0, any-Holds agree rs ms a.1 h.1)

  pub filter-Holds :
      Agree
      → (rs : List Row) (ms : List Mail) → All P ms
      → Holds c rs ms
      → Holds c (filter p rs) (filter q ms)
  filter-Holds agree [] [] a h = tt
  filter-Holds agree [] (m ∷ ms) a h = absurd h
  filter-Holds agree (r ∷ rs) [] a h = absurd h
  filter-Holds agree (r ∷ rs) (m ∷ ms) a h = rw (agree m r a.0 h.0) (elim (Bool-cases (q m)) [
    | inl e ↦ rw e (h.0, filter-Holds agree rs ms a.1 h.1)
    | inr e ↦ rw e (filter-Holds agree rs ms a.1 h.1)
  ])

  pub update_where-Holds :
      (f : Row → Row) (g : Mail → Mail)
      → Agree
      → ((m : Mail) (r : Row) → mail_to_row c m ≡ ok r → mail_to_row c (g m) ≡ ok (f r))
      → (rs : List Row) (ms : List Mail) → All P ms
      → Holds c rs ms
      → Holds c (update_where p f rs) (update_where q g ms)
  unfolding update_where
  update_where-Holds f g agree both [] [] a h = tt
  update_where-Holds f g agree both [] (m ∷ ms) a h = absurd h
  update_where-Holds f g agree both (r ∷ rs) [] a h = absurd h
  update_where-Holds f g agree both (r ∷ rs) (m ∷ ms) a h = rw (agree m r a.0 h.0) (
    elim (Bool-cases (q m)) [ inl e ↦ rw e (both m r h.0) | inr e ↦ rw e h.0 ],
    update_where-Holds f g agree both rs ms a.1 h.1,
  )

module _ (c : Codec) where
  pub Holds-append :
      (rs : List Row) (ms : List Mail) (r : Row) (m : Mail)
      → Holds c rs ms
      → mail_to_row c m ≡ ok r
      → Holds c (rs ++ r ∷ []) (ms ++ m ∷ [])
  Holds-append [] [] r m h e = (e, tt)
  Holds-append [] (n ∷ ms) r m h e = absurd h
  Holds-append (s ∷ rs) [] r m h e = absurd h
  Holds-append (s ∷ rs) (n ∷ ms) r m h e = (h.0, Holds-append rs ms r m h.1 e)
