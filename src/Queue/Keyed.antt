-- ===== src/Queue/Keyed.antt =====
-- Lists whose entries have a key, as the mails of the queue and the rows of its table have.
use mathlib.Core.Option
use oxid_relay.Prelude.{
  ℕ, ◌≤◌, ◌≡◌, ◌↔◌, ◌⊎◌, inl, inr, refl, ap, subst, Bool, true, false, Option, none, some, List, [],
  ◌∷◌, ◌++◌, any, any-append_one, count, take, filter, All, All-take, All-filter_keep, All-filter,
  arith, Bool-cases, if◌then◌else◌,
}
use oxid_relay.Queue.Counts.{
  any-false, any-count, count-order_by, count-take, count-filter, pick, both-All,
}
use oxid_relay.Queue.Order.{order_by, order_by-All}
use oxid_relay.Queue.Table.{update_where}

unfoldable pub find_by : {A : Type 0} → (A → Bool) → List A → Option A
find_by p [] = none
find_by p (x ∷ xs) = if p x then some x else find_by p xs

-- What a view shows of an entry that is changed under a condition.
pub map-if :
    {A B : Type 0} (view : A → B) (g : A → A) (f : B → B)
    → ((x : A) → view (g x) ≡ f (view x))
    → (b : Bool) (o : Option A)
    → Option.map view (if b then Option.map g o else o)
      ≡ (if b then Option.map f (Option.map view o) else Option.map view o)
map-if view g f same true none = refl
map-if view g f same true (some x) = ap some (same x)
map-if view g f same false o = refl

-- What is found in a list, and seen through a view, is found in a longer one.
pub find-append :
    {A B : Type 0} (p : A → Bool) (view : A → B) (xs ys : List A) (b : B)
    → Option.map view (find_by p xs) ≡ some b
    → Option.map view (find_by p (xs ++ ys)) ≡ some b
unfolding find_by
find-append p view [] ys b h = absurd (ground arith)
find-append p view (y ∷ xs) ys b h = elim (Bool-cases (p y)) [
  | inl e ↦ rw e (rw e at h)
  | inr e ↦ rw e (find-append p view xs ys b (rw e at h))
]

module _ {A K : Type 0} (key : A → K) (eq : K → K → Bool) where
  abbrev pub has : K → A → Bool
  has k x = eq (key x) k

  -- No two entries with one key.
  abbrev pub Distinct : List A → Type 0
  Distinct [] = Unit {0}
  Distinct (x ∷ xs) = (any (has (key x)) xs ≡ false) × Distinct xs

  -- A change that keeps the keys.
  abbrev pub Keeps : (A → A) → Type 0
  Keeps f = (x : A) → key (f x) ≡ key x

  any-update :
      (p : A → Bool) (f : A → A)
      → Keeps f
      → (k : K) (xs : List A) → any (has k) (update_where p f xs) ≡ any (has k) xs
  unfolding update_where
  any-update p f same k [] = refl
  any-update p f same k (x ∷ xs) = ground (arith, same x, any-update p f same k xs)

  pub update-Distinct :
      (p : A → Bool) (f : A → A)
      → Keeps f
      → (xs : List A) → Distinct xs
      → Distinct (update_where p f xs)
  unfolding update_where
  update-Distinct p f same [] h = tt
  update-Distinct p f same (x ∷ xs) h =
      ground (arith, same x, any-update p f same (key x) xs, update-Distinct p f same xs)

  module _ (eq_iff : (a b : K) → (eq a b ≡ true) ↔ (a ≡ b)) where
    pub append-Distinct :
        (x : A) (xs : List A) → Distinct xs → any (has (key x)) xs ≡ false → Distinct (xs ++ x ∷ [])
    append-Distinct x [] h e = (refl, tt)
    append-Distinct x (y ∷ xs) h e = ground (
      arith,
      any-append_one (has (key y)) xs x,
      append-Distinct x xs,
      eq_iff (key x) (key y),
      eq_iff (key y) (key x),
    )

    -- An update of the entries with one key changes what is found under that key alone.
    pub find-update :
        (f : A → A)
        → Keeps f
        → (i k : K) (xs : List A)
        → find_by (has k) (update_where (has i) f xs)
          ≡ (if eq i k then Option.map f (find_by (has k) xs) else find_by (has k) xs)
    unfolding find_by update_where
    find-update f same i k [] = ground arith
    find-update f same i k (x ∷ xs) =
        ground
          (arith, same x, find-update f same i k xs, eq_iff (key x) i, eq_iff (key x) k, eq_iff i k)

    pub find-update_where :
        (p : A → Bool) (f : A → A)
        → Keeps f
        → (k : K) (xs : List A)
        → find_by (has k) (update_where p f xs)
          ≡ Option.map (λ (x : A). if p x then f x else x) (find_by (has k) xs)
    unfolding find_by update_where
    find-update_where p f same k [] = refl
    find-update_where p f same k (x ∷ xs) = ground (arith, same x, find-update_where p f same k xs)

    pub count-find : (k : K) (xs : List A) → count (has k) xs ≡ 0 → find_by (has k) xs ≡ none
    unfolding find_by
    count-find k [] h = refl
    count-find k (x ∷ xs) h = ground (arith, count-find k xs)

    find-later :
        (x : A) (xs ys : List A)
        → All (λ y. has (key x) y ≡ false) ys
        → All (λ y. find_by (has (key y)) xs ≡ some y) ys
        → All (λ y. find_by (has (key y)) (x ∷ xs) ≡ some y) ys
    unfolding find_by
    find-later x xs [] a b = tt
    find-later x xs (y ∷ ys) a b =
        (ground (arith, eq_iff (key x) (key y), eq_iff (key y) (key x)), find-later x xs ys a.1 b.1)

    -- With distinct keys each entry is found under its key.
    pub find_self : (xs : List A) → Distinct xs → All (λ x. find_by (has (key x)) xs ≡ some x) xs
    find_self [] h = tt
    find_self (x ∷ xs) h = (
      unfold find_by in ground (arith, eq_iff (key x) (key x)),
      find-later x xs xs (any-false (has (key x)) xs h.0) (find_self xs h.1),
    )

    pub count-Distinct : (k : K) (xs : List A) → Distinct xs → count (has k) xs ≤ 1
    count-Distinct k [] h = omega arith
    count-Distinct k (x ∷ xs) h = elim (Bool-cases (has k x)) [
      | inl hit ↦
          let alone : any (has k) xs ≡ false =
            subst (λ (i : K). any (has i) xs ≡ false) ((eq_iff (key x) k).0 hit) h.0 in
          rw hit (omega (arith, any-count (has k) xs alone))
      | inr miss ↦ rw miss (omega (arith, count-Distinct k xs h.1))
    ]

    module _ (limit : ℕ) (le : A → A → Bool) (test : A → Bool) (xs : List A)
        (distinct : Distinct xs) (k : K) where
      -- A batch has at most one entry with a key.
      pub count-batch : count (has k) (take limit (order_by le (filter test xs))) ≤ 1
      count-batch = omega (
        arith,
        count-take (has k) limit (order_by le (filter test xs)),
        count-order_by (has k) le (filter test xs),
        count-filter (has k) test xs,
        count-Distinct k xs distinct,
      )

      -- An entry of a batch is the one of the list under its key, and passes the test.
      abbrev Handed : A → Type 0
      Handed x = (find_by (has (key x)) xs ≡ some x) × (test x ≡ true)

      batch-Handed : All Handed (take limit (order_by le (filter test xs)))
      batch-Handed = All-take Handed limit _ (
          order_by-All le Handed (filter test xs) (
            both-All _ _ (filter test xs)
              (All-filter_keep (λ (x : A). find_by (has (key x)) xs ≡ some x) test xs
                (find_self xs distinct))
              (All-filter test xs)))

      -- The list's entry under a key of the batch passes the test.
      pub batch-found :
          (count (has k) (take limit (order_by le (filter test xs))) ≡ 0)
          ⊎ ((x : A) × (find_by (has k) xs ≡ some x) × (test x ≡ true))
      batch-found =
          elim (pick (has k) Handed (take limit (order_by le (filter test xs))) batch-Handed) [
            | inl none_left ↦ inl none_left
            | inr (x, (found, passes), hit) ↦ inr (
              x,
              subst (λ (i : K). find_by (has i) xs ≡ some x) ((eq_iff (key x) k).0 hit) found,
              passes,
            )
          ]
