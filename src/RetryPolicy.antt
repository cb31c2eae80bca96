-- ===== src/RetryPolicy.antt =====
-- backend/app/services/retry_policy.py: how long to wait before the next attempt. The abstract class
-- is a record of its one abstract method, and `TieredBackoff` a value of it.
pub mod Tiers
mod Samples
use core_desappsii.Base.{
  ℕ, ◌-◌, min, max, Bool, List, [], ◌∷◌, leb, length, get_or, is_empty, if◌then◌else◌,
}

pub record RetryPolicy : Type 0 where
  pub delay_for : ℕ → ℕ

-- `RetryPolicy.exhausted`
unfoldable pub exhausted : (attempt max_attempts : ℕ) → Bool
exhausted attempt max_attempts = leb max_attempts attempt

-- `list(delays) if delays else list(settings.retry_delays) or [5]`
unfoldable pub tiers : (delays retry_delays : List ℕ) → List ℕ
tiers delays retry_delays =
    if is_empty delays then (if is_empty retry_delays then 5 ∷ [] else retry_delays) else delays

-- `self._delays[min(max(attempt, 1), len(self._delays)) - 1]`. Python raises past the end of the
-- list, where this returns 0.
unfoldable pub tiered_delay : List ℕ → ℕ → ℕ
tiered_delay delays attempt = get_or delays (min (max attempt 1) (length delays) - 1) 0

unfoldable pub tiered_backoff : (delays retry_delays : List ℕ) → RetryPolicy
unfolding tiered_delay tiers
tiered_backoff delays retry_delays = record { delay_for = tiered_delay (tiers delays retry_delays) }

-- `default_retry_policy()`
unfoldable pub default_retry_policy : (retry_delays : List ℕ) → RetryPolicy
unfolding tiered_backoff
default_retry_policy retry_delays = tiered_backoff [] retry_delays
