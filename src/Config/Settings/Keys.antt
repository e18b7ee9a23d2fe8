-- ===== src/Config/Settings/Keys.antt =====
-- The keys of a plugin table: the suffix `_env`, the order of `k` and `k_env`, and the setting that
-- a table holds under a key.
use oxid_relay.Prelude.{
  ℕ, ap, subst, length, length-append, ◌≡◌, ◌≢◌, refl, Option, none, some, [], ◌∷◌, ◌++◌, arith,
  if◌then◌else◌,
}
use oxid_relay.Prelude.Text.{
  Text, text_eq, text_eq_iff, strip_suffix, text_ltb-append, text_eq_refl, codes,
}
use oxid_relay.Prelude.Assoc.{Assoc, get, Above, get-Above, Above-trans}
use oxid_relay.Config.{Environment}
use oxid_relay.Config.Settings.{env_suffix}

pub strip_suffix_sound : (s suf t : Text) → strip_suffix s suf ≡ some t → s ≡ t ++ suf
unfolding strip_suffix
strip_suffix_sound [] suf t h = ground (arith, text_eq_iff [] suf)
strip_suffix_sound (c ∷ s) suf [] h = ground (arith, text_eq_iff (c ∷ s) suf)
strip_suffix_sound (c ∷ s) suf (d ∷ t) h =
    ground (arith, text_eq_iff (c ∷ s) suf, strip_suffix_sound s suf t)

longer-ne : (c : ℕ) (s suf : Text) → (c ∷ s ++ suf) ≢ suf
longer-ne c s suf e = absurd (omega (arith, ap length e, length-append {0} (c ∷ s) suf))

strip_suffix-append : (t suf : Text) → strip_suffix (t ++ suf) suf ≡ some t
unfolding strip_suffix
strip_suffix-append [] [] = refl
strip_suffix-append [] (c ∷ suf) = ground (arith, text_eq_refl (c ∷ suf))
strip_suffix-append (c ∷ t) suf =
    ground (arith, text_eq_iff (c ∷ t ++ suf) suf, longer-ne c t suf, strip_suffix-append t suf)

abbrev pub or_else : Option Text → Option Text → Option Text
or_else none b = b
or_else (some a) b = some a

abbrev pub secret : Environment → Option Text → Option Text → Option Text
secret env none other = other
secret env (some var) other = env var

-- A key that ends in `_env` is never passed through under its own name.
abbrev pub passed : Assoc Text → Text → Option Text
passed raw k = elim (strip_suffix k env_suffix) [ none ↦ get raw k | some _ ↦ none ]

-- The value of `k`: the variable that `k_env` names, else the plain value of `k`.
abbrev pub setting : Environment → Assoc Text → Text → Option Text → Option Text
setting env raw k otherwise =
    secret env (get raw (k ++ env_suffix)) (or_else (passed raw k) otherwise)

-- What follows a key in a sorted table: neither that key nor, behind `k_env`, the key `k`.
get-after : (k key : Text) (rest : Assoc Text) → Above key rest → key ≡ k → get rest k ≡ none
get-after k key rest above e = get-Above k rest (subst (λ (j : Text). Above j rest) e above)

get-after_secret :
    (k key : Text) (rest : Assoc Text) → Above key rest → key ≡ k ++ env_suffix → get rest k ≡ none
get-after_secret k key rest above e =
    get-Above k rest (Above-trans k key rest (rw e (text_ltb-append k b'_' (codes "env"))) above)

module _ (env : Environment) (k key value : Text) (rest : Assoc Text) (above : Above key rest) where
  pub setting-secret :
      (t v : Text) (before : Option Text)
      → strip_suffix key env_suffix ≡ some t
      → env value ≡ some v
      → setting env rest k (if text_eq t k then some v else before)
        ≡ setting env ((key, value) ∷ rest) k before
  unfolding get
  setting-secret t v before s e = ground (
    arith,
    text_eq_iff t k,
    text_eq_iff key k,
    text_eq_iff key (k ++ env_suffix),
    strip_suffix_sound key env_suffix t s,
    strip_suffix-append k env_suffix,
    get-after (k ++ env_suffix) key rest above,
    get-after_secret k key rest above,
  )

  pub setting-plain :
      (before : Option Text)
      → strip_suffix key env_suffix ≡ none
      → setting env rest k (if text_eq key k then some value else before)
        ≡ setting env ((key, value) ∷ rest) k before
  unfolding get
  setting-plain before s = ground (
    arith,
    text_eq_iff key k,
    text_eq_iff key (k ++ env_suffix),
    strip_suffix-append k env_suffix,
    get-after k key rest above,
  )
