-- ===== src/Queue/Order.antt =====
-- `ORDER BY ... ASC`: a stable sort by a key. The order of the list that is sorted stands for the
-- order in which the engine finds the rows, which decides between equal keys.
use mathlib.Core.List.{Perm}
use mathlib.Core.List.Perm
use oxid_relay.Prelude.{
  ◌≡◌, Bool, true, false, List, [], ◌∷◌, All, All-take, take, drop, ℕ, zero, suc, if◌then◌else◌,
  Bool-cases, inl, inr,
}

module _ {ℓ} {A : Type ℓ} (le : A → A → Bool) where
  unfoldable pub insert_by : A → List A → List A
  insert_by x [] = x ∷ []
  insert_by x (y ∷ ys) = let later = y ∷ insert_by x ys in if le x y then x ∷ y ∷ ys else later

  unfoldable pub order_by : List A → List A
  unfolding insert_by
  order_by [] = []
  order_by (x ∷ xs) = insert_by x (order_by xs)

  -- Each entry comes no later than all that follow it.
  abbrev pub IsOrdered : List A → Type 0
  IsOrdered [] = Unit {0}
  IsOrdered (x ∷ xs) = All (λ y. le x y ≡ true) xs × IsOrdered xs

  insert_by-perm : (x : A) (ys : List A) → Perm (insert_by x ys) (x ∷ ys)
  unfolding insert_by
  insert_by-perm x [] = Perm.refl (x ∷ [])
  insert_by-perm x (y ∷ ys) = elim (Bool-cases (le x y)) [
    | inl e ↦ rw e (Perm.refl (x ∷ y ∷ ys))
    | inr e ↦ rw e (Perm.trans (Perm.cons y (insert_by-perm x ys)) (Perm.swap x y ys))
  ]

  pub order_by-perm : (xs : List A) → Perm (order_by xs) xs
  unfolding order_by
  order_by-perm [] = Perm.refl []
  order_by-perm (x ∷ xs) =
      Perm.trans (insert_by-perm x (order_by xs)) (Perm.cons x (order_by-perm xs))

  insert_by-All {κ} :
      (P : A → Type κ) (x : A) (ys : List A) → P x → All P ys → All P (insert_by x ys)
  unfolding insert_by
  insert_by-All P x [] h k = (h, k)
  insert_by-All P x (y ∷ ys) h k = elim (Bool-cases (le x y)) [
    | inl e ↦ rw e (h, k)
    | inr e ↦ rw e (k.0, insert_by-All P x ys h k.1)
  ]

  pub order_by-All {κ} : (P : A → Type κ) (xs : List A) → All P xs → All P (order_by xs)
  unfolding order_by
  order_by-All P [] h = h
  order_by-All P (x ∷ xs) h = insert_by-All P x (order_by xs) h.0 (order_by-All P xs h.1)

  -- A prefix of an ordered list is ordered, and comes no later than the rest.
  pub take-IsOrdered : (n : ℕ) (xs : List A) → IsOrdered xs → IsOrdered (take n xs)
  take-IsOrdered zero xs h = tt
  take-IsOrdered (suc n) [] h = tt
  take-IsOrdered (suc n) (x ∷ xs) h =
      (All-take (λ y. le x y ≡ true) n xs h.0, take-IsOrdered n xs h.1)

  All-drop {κ} : (P : A → Type κ) (n : ℕ) (xs : List A) → All P xs → All P (drop n xs)
  All-drop P zero xs h = h
  All-drop P (suc n) [] h = tt
  All-drop P (suc n) (x ∷ xs) h = All-drop P n xs h.1

  pub take-no_later-drop :
      (n : ℕ) (xs : List A)
      → IsOrdered xs
      → All (λ x. All (λ y. le x y ≡ true) (drop n xs)) (take n xs)
  take-no_later-drop zero xs h = tt
  take-no_later-drop (suc n) [] h = tt
  take-no_later-drop (suc n) (x ∷ xs) h =
      (All-drop (λ y. le x y ≡ true) n xs h.0, take-no_later-drop n xs h.1)

  module _ (total : (x y : A) → le x y ≡ false → le y x ≡ true)
      (trans : (x y z : A) → le x y ≡ true → le y z ≡ true → le x z ≡ true) where
    below-All :
        (x y : A) (ys : List A)
        → le x y ≡ true
        → All (λ z. le y z ≡ true) ys
        → All (λ z. le x z ≡ true) ys
    below-All x y [] h k = tt
    below-All x y (z ∷ zs) h k = (trans x y z h k.0, below-All x y zs h k.1)

    insert_by-IsOrdered : (x : A) (ys : List A) → IsOrdered ys → IsOrdered (insert_by x ys)
    unfolding insert_by
    insert_by-IsOrdered x [] h = (tt, tt)
    insert_by-IsOrdered x (y ∷ ys) h = elim (Bool-cases (le x y)) [
      | inl e ↦ rw e ((e, below-All x y ys e h.0), h)
      | inr e ↦
          rw e (
            insert_by-All (λ z. le y z ≡ true) x ys (total x y e) h.0,
            insert_by-IsOrdered x ys h.1,
          )
    ]

    pub order_by-IsOrdered : (xs : List A) → IsOrdered (order_by xs)
    unfolding order_by
    order_by-IsOrdered [] = tt
    order_by-IsOrdered (x ∷ xs) = insert_by-IsOrdered x (order_by xs) (order_by-IsOrdered xs)
