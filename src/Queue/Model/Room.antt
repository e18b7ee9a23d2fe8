-- ===== src/Queue/Model/Room.antt =====
-- When a batch takes every mail that is due.
use mathlib.Core.List.{Memᴰ}
use oxid_relay.Prelude.{
  ℕ, zero, suc, ◌≤◌, ◌≡◌, refl, sym, ap, subst, ◌∙◌, Bool, true, ◌||◌, List, [], ◌∷◌, inl, inr,
  count, filter, take, length, All, arith, Bool-cases, ◌<◌, if◌then◌else◌,
}
use oxid_relay.Message.{Mail, MailId, Time}
use oxid_relay.Queue.Counts.{count-order_by}
use oxid_relay.Queue.Laws.{is_waiting}
use oxid_relay.Queue.Order.{order_by, insert_by}
use oxid_relay.Queue.Table.{update_where}
use oxid_relay.Queue.Row.RoundTrip.{InRange, horizon}
use oxid_relay.Queue.Model.{is_mail, is_due, no_later, due_mails, is_stale, in_flight, reset_mail}

-- Not sent and not dead.
abbrev pub is_open : Mail → Bool
is_open m = is_waiting m.status || in_flight m.status

take_all : {A : Type 0} (n : ℕ) (xs : List A) → length xs ≤ n → take n xs ≡ xs
take_all zero [] h = refl
take_all zero (x ∷ xs) h = absurd (omega arith)
take_all (suc n) [] h = refl
take_all (suc n) (x ∷ xs) h = ap (◌∷◌ x) (take_all n xs (omega arith))

length-eq-count : {A : Type 0} (xs : List A) → length xs ≡ count (λ x. true) xs
length-eq-count [] = refl
length-eq-count (x ∷ xs) = omega (arith, length-eq-count xs)

length-filter :
    {A : Type 0} (p q : A → Bool)
    → ((x : A) → p x ≡ true → q x ≡ true)
    → (xs : List A) → length (filter p xs) ≤ count q xs
length-filter p q f [] = omega arith
length-filter p q f (x ∷ xs) = ground (arith, f x, length-filter p q f xs)

pub filter-Mem :
    {A : Type 0} (p : A → Bool) (xs : List A) {x : A}
    → p x ≡ true
    → Memᴰ x xs
    → Memᴰ x (filter p xs)
filter-Mem p [] h m = elim m [ ]
filter-Mem p (y ∷ xs) h (Memᴰ.head e) =
    let hit : p y ≡ true = sym (ap p e) ∙ h in rw hit (Memᴰ.head e)
filter-Mem p (y ∷ xs) h (Memᴰ.tail m) = elim (Bool-cases (p y)) [
  | inl e ↦ rw e (Memᴰ.tail (filter-Mem p xs h m))
  | inr e ↦ rw e (filter-Mem p xs h m)
]

insert_by-head :
    {A : Type 0} (le : A → A → Bool) (y : A) (xs : List A) {x : A}
    → x ≡ y
    → Memᴰ x (insert_by le y xs)
unfolding insert_by
insert_by-head le y [] e = Memᴰ.head e
insert_by-head le y (z ∷ xs) e = elim (Bool-cases (le y z)) [
  | inl h ↦ rw h (Memᴰ.head e)
  | inr h ↦ rw h (Memᴰ.tail (insert_by-head le y xs e))
]

insert_by-Mem :
    {A : Type 0} (le : A → A → Bool) (y : A) (xs : List A) {x : A}
    → Memᴰ x xs
    → Memᴰ x (insert_by le y xs)
unfolding insert_by
insert_by-Mem le y [] m = elim m [ ]
insert_by-Mem le y (z ∷ xs) (Memᴰ.head e) = elim (Bool-cases (le y z)) [
  | inl h ↦ rw h (Memᴰ.tail (Memᴰ.head e))
  | inr h ↦ rw h (Memᴰ.head e)
]
insert_by-Mem le y (z ∷ xs) (Memᴰ.tail m) = elim (Bool-cases (le y z)) [
  | inl h ↦ rw h (Memᴰ.tail (Memᴰ.tail m))
  | inr h ↦ rw h (Memᴰ.tail (insert_by-Mem le y xs m))
]

pub order_by-Mem :
    {A : Type 0} (le : A → A → Bool) (xs : List A) {x : A} → Memᴰ x xs → Memᴰ x (order_by le xs)
unfolding order_by
order_by-Mem le [] m = elim m [ ]
order_by-Mem le (y ∷ xs) (Memᴰ.head e) = insert_by-head le y (order_by le xs) e
order_by-Mem le (y ∷ xs) (Memᴰ.tail m) = insert_by-Mem le y (order_by le xs) (order_by-Mem le xs m)

due_open : (now : Time) (m : Mail) → is_due now m ≡ true → is_open m ≡ true
due_open now m h = ground arith

-- With room for all the open mails, every due mail is in the batch.
pub due_mails-Mem :
    (limit : ℕ) (now : Time) (ms : List Mail) (m : Mail)
    → count is_open ms ≤ limit
    → is_due now m ≡ true
    → Memᴰ m ms
    → Memᴰ m (due_mails limit now ms)
unfolding due_mails
due_mails-Mem limit now ms m room due here =
    let sorted = order_by no_later (filter (is_due now) ms) in
    subst (λ (l : List Mail). Memᴰ m l)
      (sym (
        take_all limit sorted (
          omega (
            arith,
            length-eq-count sorted,
            count-order_by (λ (x : Mail). true) no_later (filter (is_due now) ms),
            length-eq-count (filter (is_due now) ms),
            length-filter (is_due now) is_open (due_open now) ms,
          ))))
      (order_by-Mem no_later (filter (is_due now) ms) (filter-Mem (is_due now) ms due here))

module _ (p : Mail → Bool) (now : Time) where
  -- A recovery of mails in flight leaves the open mails open.
  pub count-reset :
      ((m : Mail) → p m ≡ true → in_flight m.status ≡ true)
      → (ms : List Mail) → count is_open (update_where p (reset_mail now) ms) ≡ count is_open ms
  unfolding update_where
  count-reset only [] = refl
  count-reset only (m ∷ ms) = ground (arith, only m, count-reset only ms)

  pub reset-count_mail :
      (j : MailId) (ms : List Mail)
      → count (is_mail j) (update_where p (reset_mail now) ms) ≡ count (is_mail j) ms
  unfolding update_where
  reset-count_mail j [] = refl
  reset-count_mail j (m ∷ ms) = ground (arith, reset-count_mail j ms)

  -- What holds of the mails and of each one reset holds after the recovery.
  pub reset-All :
      (P : Mail → Type 0)
      → ((m : Mail) → P m → P (reset_mail now m))
      → (ms : List Mail) → All P ms
      → All P (update_where p (reset_mail now) ms)
  unfolding update_where
  reset-All P back [] a = tt
  reset-All P back (m ∷ ms) a = elim (Bool-cases (p m)) [
    | inl hit ↦ rw hit (back m a.0, reset-All P back ms a.1)
    | inr miss ↦ rw miss (a.0, reset-All P back ms a.1)
  ]

  abbrev pub after_reset : Mail → Mail
  after_reset m = if p m then reset_mail now m else m

  pub reset-Mem :
      (ms : List Mail) (m : Mail)
      → Memᴰ m ms
      → Memᴰ (after_reset m) (update_where p (reset_mail now) ms)
  unfolding update_where
  reset-Mem [] m a = elim a [ ]
  reset-Mem (n ∷ ms) m (Memᴰ.head e) = Memᴰ.head (ap after_reset e)
  reset-Mem (n ∷ ms) m (Memᴰ.tail a) = Memᴰ.tail (reset-Mem ms m a)

  pub reset-InRange :
      now < horizon
      → (ms : List Mail) → All InRange ms
      → All InRange (update_where p (reset_mail now) ms)
  unfolding update_where
  reset-InRange soon [] a = tt
  reset-InRange soon (m ∷ ms) a = (ground arith, reset-InRange soon ms a.1)

pub stale_flying :
    (older_than : Time) (m : Mail) → is_stale older_than m ≡ true → in_flight m.status ≡ true
stale_flying older_than m h = ground arith

-- A waiting mail is left as it is.
pub waiting-not_stale :
    (older_than now : Time) (m : Mail)
    → is_waiting m.status ≡ true
    → after_reset (is_stale older_than) now m ≡ m
waiting-not_stale older_than now m waits = ground arith
