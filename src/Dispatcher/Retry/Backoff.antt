-- ===== src/Dispatcher/Retry/Backoff.antt =====
-- `RetryPolicy::backoff` against its formula.
use native.Mathlib.Nat.{pow-le-pow_right}
use mathlib.Core.Option.{get_or}
use oxid_relay.Prelude.{ℕ, ◌-◌, ◌*◌, ◌^◌, ◌≤◌, min, ◌≡◌, ap, arith, lt→ltb}
use oxid_relay.Dispatcher.Retry.{
  RetryPolicy, backoff, checked_shl, saturating_mul, from_secs, as_secs, u64_max,
}

pow_fits : (n : ℕ) → n ≤ 31 → 2 ^ n ≤ 2 ^ 31
pow_fits n h = pow-le-pow_right (omega arith) h

-- The shift by at most 31 places neither overflows nor is refused.
factor-eq : (n : ℕ) → n ≤ 31 → get_or (checked_shl n) u64_max ≡ 2 ^ n
unfolding checked_shl
factor-eq n h = rw (lt→ltb n 64 (omega arith)) (omega (arith, pow_fits n h))

pub backoff-eq :
    (p : RetryPolicy) (a : ℕ)
    → backoff p a
      ≡ min (from_secs (min (as_secs p.base_delay * 2 ^ min (a - 1) 31) u64_max)) p.max_delay
unfolding backoff
backoff-eq p a =
    ap (λ f. min (from_secs (saturating_mul (as_secs p.base_delay) f)) p.max_delay)
      (factor-eq (min (a - 1) 31) (omega arith))

-- For the attempts 1 to 32, a base delay of whole seconds and a cap that fits 64-bit seconds, the
-- delay is `base * 2 ^ (attempts - 1)`, capped at the maximum.
pub backoff-eq-formula :
    (p : RetryPolicy) (base attempts : ℕ)
    → p.base_delay ≡ from_secs base
    → p.max_delay ≤ from_secs u64_max
    → 1 ≤ attempts
    → attempts ≤ 32
    → backoff p attempts ≡ min (p.base_delay * 2 ^ (attempts - 1)) p.max_delay
backoff-eq-formula p base attempts e fits lo hi =
    rw (backoff-eq p attempts) (rw (shift, e, whole) (omega arith))
  where
    shift : min (attempts - 1) 31 ≡ attempts - 1
    shift = omega arith

    whole : as_secs (from_secs base) ≡ base
    whole = omega arith

-- More attempts never shorten the delay, and no delay exceeds the cap.
pub backoff_mono :
    (p : RetryPolicy) (a b : ℕ) → a ≤ b → (backoff p a ≤ backoff p b) × (backoff p b ≤ p.max_delay)
backoff_mono p a b h = omega (arith, backoff-eq p a, backoff-eq p b, scaled)
  where
    grows : 2 ^ min (a - 1) 31 ≤ 2 ^ min (b - 1) 31
    grows = pow-le-pow_right (omega arith) (omega arith)

    scaled : as_secs p.base_delay * 2 ^ min (a - 1) 31 ≤ as_secs p.base_delay * 2 ^ min (b - 1) 31
    scaled = grind (arith, grows)
