-- ===== src/Prelude/Result.antt =====
-- Rust's `Result`, with `?` as bind, and code that reads and writes a state and may fail.
use mathlib.Core.Bool.{Bool, true, false}
use mathlib.Core.Path.{◌≡◌, refl}
use mathlib.Core.Logic.{◌⊎◌, inl, inr}

pub data Result {ℓ κ} (A : Type ℓ) (E : Type κ) : Type (ℓ ⊔ κ) where
  ok : A → Result A E
  err : E → Result A E

module _ {ℓ κ μ} {A : Type ℓ} {B : Type κ} {E : Type μ} where
  infixl 5 ◌>>=◌
  abbrev pub ◌>>=◌ : Result A E → (A → Result B E) → Result B E
  ok a >>= f = f a
  err e >>= f = err e

module _ {ℓ κ} {B : Type ℓ} {E : Type κ} where
  infixl 5 ◌>>◌
  abbrev pub ◌>>◌ : Result (Unit {0}) E → Result B E → Result B E
  m >> k = m >>= λ _. k

module _ {ℓ κ} {A : Type ℓ} {E : Type κ} where
  abbrev pub is_ok : Result A E → Bool
  is_ok (ok a) = true
  is_ok (err e) = false

  pub Result-cases : (r : Result A E) → ((a : A) × (r ≡ ok a)) ⊎ ((e : E) × (r ≡ err e))
  Result-cases (ok a) = inl (a, refl)
  Result-cases (err e) = inr (e, refl)

-- `if test { return Err(e) }`
abbrev pub reject_if {ℓ} : {E : Type ℓ} → Bool → E → Result (Unit {0}) E
reject_if true e = err e
reject_if false e = ok tt
