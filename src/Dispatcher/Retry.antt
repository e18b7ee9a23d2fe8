-- ===== src/Dispatcher/Retry.antt =====
-- crates/dispatcher/src/retry.rs: exponential backoff and the attempt limit.
pub mod Backoff
use oxid_relay.Prelude.{
  ℕ, ◌-◌, ◌*◌, ◌/◌, ◌%◌, ◌^◌, min, Option, none, some, Bool, leb, ltb, if◌then◌else◌,
}
use mathlib.Core.Option.{get_or}

-- A `std::time::Duration` is its length in nanoseconds.
abbrev pub Duration : Type 0
Duration = ℕ

abbrev pub nanos : ℕ
nanos = 1_000_000_000

abbrev pub u64_max : ℕ
u64_max = 2 ^ 64 - 1

abbrev pub from_secs : ℕ → Duration
from_secs s = s * nanos

abbrev pub as_secs : Duration → ℕ
as_secs d = d / nanos

-- `1u64.checked_shl(shift)`
unfoldable pub checked_shl : ℕ → Option ℕ
checked_shl shift = if ltb shift 64 then some (2 ^ shift % 2 ^ 64) else none

-- `u64::saturating_mul`
unfoldable pub saturating_mul : ℕ → ℕ → ℕ
saturating_mul a b = min (a * b) u64_max

pub record RetryPolicy : Type 0 where
  pub max_attempts : ℕ
  pub base_delay : Duration
  pub max_delay : Duration

abbrev pub default_policy : RetryPolicy
default_policy = record { max_attempts = 5; base_delay = from_secs 30; max_delay = from_secs 3600 }

-- `attempts.saturating_sub(1)` is the subtraction of ℕ.
unfoldable pub backoff : RetryPolicy → ℕ → Duration
unfolding checked_shl saturating_mul
backoff p attempts =
    let shift = min (attempts - 1) 31 in
    let factor = get_or (checked_shl shift) u64_max in
    let secs = saturating_mul (as_secs p.base_delay) factor in min (from_secs secs) p.max_delay

unfoldable pub is_exhausted : RetryPolicy → ℕ → Bool
is_exhausted p attempts = leb p.max_attempts attempts
