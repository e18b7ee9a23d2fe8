-- ===== src/Prelude/Text/Laws.antt =====
-- Laws of text equality and order.
use Prim.Native.Nat.{ℕ}
use mathlib.Core.Bool.{true, false}
use mathlib.Core.Path.{◌≡◌, refl}
use mathlib.Core.Logic.{◌↔◌}
use mathlib.Core.List.{[], ◌∷◌, ◌++◌}
use native.Mathlib.Omega.{arith}
use oxid_relay.Prelude.Text.Defs.{Text, text_eq, text_ltb}

pub text_eq_refl : (s : Text) → text_eq s s ≡ true
unfolding text_eq
text_eq_refl [] = refl
text_eq_refl (c ∷ s) = ground (arith, text_eq_refl s)

pub text_eq_sound : (s t : Text) → text_eq s t ≡ true → s ≡ t
unfolding text_eq
text_eq_sound [] [] h = refl
text_eq_sound [] (d ∷ t) h = cc
text_eq_sound (c ∷ s) [] h = cc
text_eq_sound (c ∷ s) (d ∷ t) h = ground (arith, text_eq_sound s t)

pub text_eq_iff : (s t : Text) → (text_eq s t ≡ true) ↔ (s ≡ t)
text_eq_iff s t = (text_eq_sound s t, λ e. ground (arith, text_eq_refl s))

pub text_ltb_irrefl : (s : Text) → text_ltb s s ≡ false
unfolding text_ltb
text_ltb_irrefl [] = refl
text_ltb_irrefl (c ∷ s) = ground (arith, text_ltb_irrefl s)

pub text_ltb_trans :
    (s t u : Text) → text_ltb s t ≡ true → text_ltb t u ≡ true → text_ltb s u ≡ true
unfolding text_ltb
text_ltb_trans [] [] u h k = cc
text_ltb_trans [] (d ∷ t) [] h k = cc
text_ltb_trans [] (d ∷ t) (e ∷ u) h k = refl
text_ltb_trans (c ∷ s) [] u h k = cc
text_ltb_trans (c ∷ s) (d ∷ t) [] h k = cc
text_ltb_trans (c ∷ s) (d ∷ t) (e ∷ u) h k = ground (arith, text_ltb_trans s t u)

pub text_ltb_total : (s t : Text) → text_ltb s t ≡ false → text_ltb t s ≡ false → s ≡ t
unfolding text_ltb
text_ltb_total [] [] h k = refl
text_ltb_total [] (d ∷ t) h k = cc
text_ltb_total (c ∷ s) [] h k = cc
text_ltb_total (c ∷ s) (d ∷ t) h k = ground (arith, text_ltb_total s t)

-- A proper extension of a text comes after it.
pub text_ltb-append : (s : Text) (c : ℕ) (t : Text) → text_ltb s (s ++ c ∷ t) ≡ true
unfolding text_ltb
text_ltb-append [] c t = refl
text_ltb-append (d ∷ s) c t = ground (arith, text_ltb-append s c t)
