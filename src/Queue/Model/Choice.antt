-- ===== src/Queue/Model/Choice.antt =====
-- Which of the due mails a batch takes and which it leaves.
use mathlib.Core.List.{Memᴰ}
use oxid_relay.Prelude.{
  ℕ, ◌≡◌, sym, subst, ◌⊎◌, inl, inr, true, List, [], ◌∷◌, ◌++◌, length, filter, take, drop,
  take-append-drop, take_full, All, All-take, All-filter_keep, All-weaken, All-at, count,
  count-append, arith, ==_refl, ap, ◌≤◌,
}
use oxid_relay.Message.{Mail, Time}
use oxid_relay.Queue.Order.{
  IsOrdered, order_by, order_by-All, order_by-IsOrdered, take-no_later-drop,
}
use oxid_relay.Queue.Counts.{count-member, count-order_by, count-filter}
use oxid_relay.Queue.Model.{is_mail, is_due, no_later, due_mails}
use oxid_relay.Queue.Model.Due.{no_later_total, no_later_trans}
use oxid_relay.Queue.Model.Room.{filter-Mem, order_by-Mem}

Mem-append : {A : Type 0} (xs ys : List A) {x : A} → Memᴰ x (xs ++ ys) → Memᴰ x xs ⊎ Memᴰ x ys
Mem-append [] ys m = inr m
Mem-append (z ∷ xs) ys (Memᴰ.head e) = inl (Memᴰ.head e)
Mem-append (z ∷ xs) ys (Memᴰ.tail m) = elim (Mem-append xs ys m) [
  | inl here ↦ inl (Memᴰ.tail here)
  | inr there ↦ inr there
]

not_empty : {A : Type 0} (xs : List A) {x : A} → Memᴰ x xs → xs ≡ [] → ⊥
not_empty [] m e = elim m [ ]
not_empty (z ∷ xs) m e = absurd (cc)

-- The batch is full, and each of its mails is due no later than this one.
abbrev pub Before : ℕ → Mail → List Mail → Type 0
Before limit m batch = (length batch ≡ limit) × All (λ x. no_later x m ≡ true) batch

module _ (limit : ℕ) (now : Time) (ms : List Mail) where
  pub due_mails-All : (P : Mail → Type 0) → All P ms → All P (due_mails limit now ms)
  unfolding due_mails
  due_mails-All P a =
      All-take P limit _
        (order_by-All no_later P (filter (is_due now) ms) (All-filter_keep P (is_due now) ms a))

  no_later_batch :
      (sorted : List Mail)
      → IsOrdered no_later sorted
      → (m : Mail) → Memᴰ m (drop limit sorted)
      → All (λ x. no_later x m ≡ true) (take limit sorted)
  no_later_batch sorted ordered m left =
      All-weaken (λ (x : Mail). All (λ (y : Mail). no_later x y ≡ true) (drop limit sorted))
        (λ (x : Mail). no_later x m ≡ true)
        (λ x a. All-at (λ (y : Mail). no_later x y ≡ true) (drop limit sorted) a left)
        (take limit sorted) (take-no_later-drop no_later limit sorted ordered)

  once_left :
      (sorted : List Mail) (m : Mail)
      → Memᴰ m (drop limit sorted)
      → count (is_mail m.id) sorted ≤ 1
      → count (is_mail m.id) (take limit sorted) ≡ 0
  once_left sorted m left once = omega (
    arith,
    count-member (is_mail m.id) (drop limit sorted) m left (==_refl m.id),
    count-append {0} (is_mail m.id) (take limit sorted) (drop limit sorted),
    ap (count (is_mail m.id)) (take-append-drop limit sorted),
  )

  -- A due mail, whose id no other mail has, is taken, or it stands behind a full batch and its id is
  -- not in the batch.
  pub due_mails-Before :
      (m : Mail)
      → count (is_mail m.id) ms ≤ 1
      → is_due now m ≡ true
      → Memᴰ m ms
      → Memᴰ m (due_mails limit now ms)
        ⊎ (Before limit m (due_mails limit now ms)
            × (count (is_mail m.id) (due_mails limit now ms) ≡ 0))
  unfolding due_mails
  due_mails-Before m once due here =
      let sorted = order_by no_later (filter (is_due now) ms) in
      let found : Memᴰ m (take limit sorted ++ drop limit sorted) =
        subst (λ (l : List Mail). Memᴰ m l) (sym (take-append-drop limit sorted))
          (order_by-Mem no_later _ (filter-Mem (is_due now) ms due here)) in
      elim (Mem-append (take limit sorted) (drop limit sorted) found) [
        | inl taken ↦ inl taken
        | inr left ↦ elim (take_full limit sorted) [
          | inl none_left ↦ absurd (not_empty (drop limit sorted) left none_left)
          | inr full ↦ inr (
            (full, no_later_batch sorted ordered m left),
            once_left sorted m left (
                omega (
                  arith,
                  once,
                  count-order_by (is_mail m.id) no_later (filter (is_due now) ms),
                  count-filter (is_mail m.id) (is_due now) ms,
                )),
          )
        ]
      ]
    where
      ordered : IsOrdered no_later (order_by no_later (filter (is_due now) ms))
      ordered = order_by-IsOrdered no_later no_later_total no_later_trans (filter (is_due now) ms)
