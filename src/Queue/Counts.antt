-- ===== src/Queue/Counts.antt =====
-- Counting in lists that are sorted, filtered and cut, as a batch is.
use mathlib.Core.List.{Memᴰ}
use oxid_relay.Prelude.{
  ◌∙◌, ap, sym, ℕ, zero, suc, ◌≤◌, ◌≡◌, ◌⊎◌, inl, inr, refl, Bool, true, false, List, [], ◌∷◌, any,
  count, take, filter, All, arith, Bool-cases,
}
use oxid_relay.Queue.Order.{order_by, insert_by}

module _ {A : Type 0} (p : A → Bool) where
  pub any-false : (xs : List A) → any p xs ≡ false → All (λ x. p x ≡ false) xs
  any-false [] h = tt
  any-false (x ∷ xs) h = ground (arith, any-false xs)

  pub any-count : (xs : List A) → any p xs ≡ false → count p xs ≡ 0
  any-count [] h = refl
  any-count (x ∷ xs) h = ground (arith, any-count xs)

  count-insert_by :
      (le : A → A → Bool) (x : A) (ms : List A) → count p (insert_by le x ms) ≡ count p (x ∷ ms)
  unfolding insert_by
  count-insert_by le x [] = refl
  count-insert_by le x (m ∷ ms) = elim (Bool-cases (le x m)) [
    | inl e ↦ rw e refl
    | inr e ↦ rw e (omega (arith, count-insert_by le x ms))
  ]

  pub count-order_by : (le : A → A → Bool) (ms : List A) → count p (order_by le ms) ≡ count p ms
  unfolding order_by
  count-order_by le [] = refl
  count-order_by le (m ∷ ms) =
      omega (arith, count-insert_by le m (order_by le ms), count-order_by le ms)

  pub count-take : (n : ℕ) (ms : List A) → count p (take n ms) ≤ count p ms
  count-take zero ms = omega arith
  count-take (suc n) [] = omega arith
  count-take (suc n) (m ∷ ms) = omega (arith, count-take n ms)

  pub count-filter : (q : A → Bool) (ms : List A) → count p (filter q ms) ≤ count p ms
  count-filter q [] = omega arith
  count-filter q (m ∷ ms) = ground (arith, count-filter q ms)

  pub pick :
      (P : A → Type 0) (ms : List A) → All P ms → (count p ms ≡ 0) ⊎ ((m : A) × P m × (p m ≡ true))
  pick P [] a = inl refl
  pick P (m ∷ ms) a = elim (Bool-cases (p m)) [
    | inl hit ↦ inr (m, a.0, hit)
    | inr miss ↦ elim (pick P ms a.1) [ inl none_left ↦ inl (ground arith) | inr found ↦ inr found ]
  ]

module _ {A : Type 0} where
  pub both-All : (P Q : A → Type 0) (xs : List A) → All P xs → All Q xs → All (λ m. P m × Q m) xs
  both-All P Q [] a b = tt
  both-All P Q (x ∷ xs) a b = ((a.0, b.0), both-All P Q xs a.1 b.1)

pub count-member :
    {A : Type 0} (p : A → Bool) (xs : List A) (x : A) → Memᴰ x xs → p x ≡ true → 1 ≤ count p xs
count-member p [] x a h = elim a [ ]
count-member p (z ∷ zs) x (Memᴰ.head e) h =
    let hit : p z ≡ true = sym (ap p e) ∙ h in rw hit (omega arith)
count-member p (z ∷ zs) x (Memᴰ.tail a) h = omega (arith, count-member p zs x a h)

-- Two entries of a list that pass a test which at most one passes are the same.
pub once-same :
    {A : Type 0} (p : A → Bool) (xs : List A) (x y : A)
    → count p xs ≤ 1
    → Memᴰ x xs
    → Memᴰ y xs
    → p x ≡ true
    → p y ≡ true
    → x ≡ y
once-same p [] x y once a b h k = elim a [ ]
once-same p (z ∷ zs) x y once (Memᴰ.head e) (Memᴰ.head f) h k = e ∙ sym f
once-same p (z ∷ zs) x y once (Memᴰ.head e) (Memᴰ.tail b) h k =
    let hit : p z ≡ true = sym (ap p e) ∙ h in
    absurd (omega (arith, count-member p zs y b k, rw hit at once))
once-same p (z ∷ zs) x y once (Memᴰ.tail a) (Memᴰ.head f) h k =
    let hit : p z ≡ true = sym (ap p f) ∙ k in
    absurd (omega (arith, count-member p zs x a h, rw hit at once))
once-same p (z ∷ zs) x y once (Memᴰ.tail a) (Memᴰ.tail b) h k =
    once-same p zs x y (omega arith) a b h k
