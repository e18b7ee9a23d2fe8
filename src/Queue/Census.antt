-- ===== src/Queue/Census.antt =====
-- How many keys a list can have: no more than it has entries.
use oxid_relay.Prelude.{
  ℕ, ◌+◌, ◌≤◌, ◌≡◌, subst, Bool, true, not, ◌==◌, ==_refl, List, [], ◌∷◌, length, filter, count,
  All, arith, inl, inr, Bool-cases,
}
use oxid_relay.Queue.Counts.{count-filter, pick}

count_mono :
    {A : Type 0} (p q : A → Bool)
    → ((x : A) → p x ≡ true → q x ≡ true)
    → (xs : List A) → count p xs ≤ count q xs
count_mono p q f [] = omega arith
count_mono p q f (x ∷ xs) = ground (arith, f x, count_mono p q f xs)

length-split :
    {A : Type 0} (p : A → Bool) (xs : List A)
    → length xs ≡ length (filter (λ x. not (p x)) xs) + count p xs
length-split p [] = omega arith
length-split p (x ∷ xs) = ground (arith, length-split p xs)

module _ {A : Type 0} (has : ℕ → A → Bool)
    (unique : (x : A) (i j : ℕ) → has i x ≡ true → has j x ≡ true → i ≡ j) where
  -- At most one of different keys is that of an entry.
  one_key :
      (x : A) (ids : List ℕ)
      → ((i : ℕ) → count (λ n. n == i) ids ≤ 1)
      → All (λ i. Unit {0}) ids
      → count (λ i. has i x) ids ≤ 1
  one_key x ids once all = elim (pick (λ i. has i x) (λ i. Unit {0}) ids all) [
    | inl none_left ↦ omega arith
    | inr (i, u, hit) ↦ omega (
      arith,
      once i,
      count_mono (λ n. has n x) (λ n. n == i)
          (λ n h. subst (λ (z : ℕ). (n == z) ≡ true) (unique x n i h hit) (==_refl n)) ids,
    )
  ]

  others :
      (x : A) (xs : List A) (ids : List ℕ)
      → All (λ i. 1 ≤ count (has i) (x ∷ xs)) ids
      → All (λ i. 1 ≤ count (has i) xs) (filter (λ i. not (has i x)) ids)
  others x xs [] h = tt
  others x xs (i ∷ ids) h = elim (Bool-cases (has i x)) [
    | inl hit ↦ rw hit (others x xs ids h.1)
    | inr miss ↦
        let there : 1 ≤ count (has i) xs = omega (arith, rw miss at h.0) in
        rw miss (there, others x xs ids h.1)
  ]

  everything : (ids : List ℕ) → All (λ i. Unit {0}) ids
  everything [] = tt
  everything (i ∷ ids) = (tt, everything ids)

  -- Different keys that are all there are no more than the entries.
  pub census :
      (xs : List A) (ids : List ℕ)
      → ((i : ℕ) → count (λ n. n == i) ids ≤ 1)
      → All (λ i. 1 ≤ count (has i) xs) ids
      → length ids ≤ length xs
  census [] [] once h = omega arith
  census [] (i ∷ ids) once h = absurd (omega (arith, h.0))
  census (x ∷ xs) ids once h =
      let rest = filter (λ i. not (has i x)) ids in
      let fewer =
        census xs rest
          (λ i. omega (arith, once i, count-filter (λ n. n == i) (λ n. not (has n x)) ids))
          (others x xs ids h) in
      omega (arith, fewer, length-split (λ i. has i x) ids, one_key x ids once (everything ids))
