-- ===== src/Prelude/Assoc.antt =====
-- `BTreeMap<String, V>` and `HashMap<String, V>` as lists of entries. A BTreeMap is listed in the
-- order of its keys, which is the order in which Rust iterates over it.
use oxid_relay.Prelude.Tests.{if◌then◌else◌, Bool-cases}
use oxid_relay.Prelude.Text.{
  Text, text_eq, text_ltb, text_eq_iff, text_eq_sound, text_ltb_irrefl, text_ltb_trans,
  text_ltb_total,
}
use mathlib.Core.Bool.{true, false}
use mathlib.Core.Logic.{inl, inr}
use mathlib.Core.Path.{◌≡◌, refl, subst}
use mathlib.Core.Option.{Option, none, some}
use mathlib.Core.List.{List, [], ◌∷◌}
use native.Mathlib.Omega.{arith}

abbrev pub Assoc {ℓ} : Type ℓ → Type ℓ
Assoc V = List (Text × V)

comes_after : (k j : Text) → text_eq j k ≡ false → text_ltb k j ≡ false → text_ltb j k ≡ true
comes_after k j e l = ground (arith, text_ltb_total k j, text_eq_iff j k)

module _ {ℓ} {V : Type ℓ} where
  unfoldable pub get : Assoc V → Text → Option V
  unfolding text_eq
  get [] k = none
  get ((j, v) ∷ m) k = if text_eq j k then some v else get m k

  -- `BTreeMap::insert` keeps the keys in order and replaces the value of a key that is there.
  unfoldable pub insert : Assoc V → Text → V → Assoc V
  unfolding text_eq text_ltb
  insert [] k v = (k, v) ∷ []
  insert ((j, w) ∷ m) k v =
      let later = (j, w) ∷ insert m k v in
      if text_eq j k then (k, v) ∷ m else if text_ltb k j then (k, v) ∷ (j, w) ∷ m else later

  -- Every key of the map comes after `k`.
  abbrev pub Above : Text → Assoc V → Type 0
  Above k [] = Unit
  Above k ((j, v) ∷ m) = (text_ltb k j ≡ true) × Above k m

  -- The keys rise: what a BTreeMap guarantees of its iteration order.
  abbrev pub IsSorted : Assoc V → Type 0
  IsSorted [] = Unit
  IsSorted ((j, v) ∷ m) = Above j m × IsSorted m

  pub get-insert :
      (m : Assoc V) (k j : Text) (v : V)
      → get (insert m k v) j ≡ (if text_eq k j then some v else get m j)
  unfolding get insert
  get-insert [] k j v = refl
  get-insert ((i, w) ∷ m) k j v =
      ground (arith, text_eq_iff k j, text_eq_iff i k, text_eq_iff i j, get-insert m k j v)

  pub get-Above : (k : Text) (m : Assoc V) → Above k m → get m k ≡ none
  unfolding get
  get-Above k [] h = refl
  get-Above k ((j, v) ∷ m) h = ground (arith, get-Above k m h.1, text_eq_iff j k, text_ltb_irrefl k)

  pub Above-trans : (j k : Text) (m : Assoc V) → text_ltb j k ≡ true → Above k m → Above j m
  Above-trans j k [] h b = tt
  Above-trans j k ((i, v) ∷ m) h b = (text_ltb_trans j k i h b.0, Above-trans j k m h b.1)

  Above-insert :
      (i k : Text) (v : V) (m : Assoc V) → text_ltb i k ≡ true → Above i m → Above i (insert m k v)
  unfolding insert
  Above-insert i k v [] h a = (h, tt)
  Above-insert i k v ((j, w) ∷ m) h a = elim (Bool-cases (text_eq j k)) [
    | inl e ↦ rw e (h, a.1)
    | inr e ↦ elim (Bool-cases (text_ltb k j)) [
      | inl l ↦ rw (e, l) (h, a)
      | inr l ↦ rw (e, l) (a.0, Above-insert i k v m h a.1)
    ]
  ]

  pub insert-IsSorted : (m : Assoc V) (k : Text) (v : V) → IsSorted m → IsSorted (insert m k v)
  unfolding insert
  insert-IsSorted [] k v s = (tt, tt)
  insert-IsSorted ((j, w) ∷ m) k v s = elim (Bool-cases (text_eq j k)) [
    | inl e ↦ rw e (subst (λ (i : Text). Above i m) (text_eq_sound j k e) s.0, s.1)
    | inr e ↦ elim (Bool-cases (text_ltb k j)) [
      | inl l ↦ rw (e, l) ((l, Above-trans k j m l s.0), s)
      | inr l ↦
          rw (e, l) (Above-insert j k v m (comes_after k j e l) s.0, insert-IsSorted m k v s.1)
    ]
  ]
