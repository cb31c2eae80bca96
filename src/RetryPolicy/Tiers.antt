-- ===== src/RetryPolicy/Tiers.antt =====
-- The delays that `TieredBackoff` chooses.
use core_desappsii.Base.{
  ℕ, ◌+◌, ◌-◌, ◌<◌, ◌≡◌, refl, List, [], ◌∷◌, arith, length, get_or, In, In-get_or,
}
use core_desappsii.RetryPolicy.{tiers, tiered_delay, tiered_backoff}

tiers_pos : (delays retry_delays : List ℕ) → 0 < length (tiers delays retry_delays)
unfolding tiers
tiers_pos [] [] = omega arith
tiers_pos [] (x ∷ xs) = omega arith
tiers_pos (x ∷ xs) retry_delays = omega arith

tiered_delay-In :
    (delays : List ℕ) (attempt : ℕ) → 0 < length delays → In (tiered_delay delays attempt) delays
unfolding tiered_delay
tiered_delay-In delays attempt h = In-get_or delays _ 0 (omega arith)

-- Whatever lists the policy is built from and whatever the attempt, the delay that it gives is one
-- of its tiers: the index never falls outside the list.
pub delay_for-In :
    (delays retry_delays : List ℕ) (attempt : ℕ)
    → In ((tiered_backoff delays retry_delays).delay_for attempt) (tiers delays retry_delays)
unfolding tiered_backoff
delay_for-In delays retry_delays attempt =
    tiered_delay-In (tiers delays retry_delays) attempt (tiers_pos delays retry_delays)

-- With a tier at position k, counted from zero, attempt k + 1 waits for that tier; every attempt from
-- the number of tiers on waits for the last one; and attempt 0 waits as attempt 1 does.
pub tiered_delay_lem :
    (delays : List ℕ) (k extra : ℕ)
    → k < length delays
    → (tiered_delay delays (k + 1) ≡ get_or delays k 0)
      × (tiered_delay delays (length delays + extra) ≡ get_or delays (length delays - 1) 0)
      × (tiered_delay delays 0 ≡ tiered_delay delays 1)
unfolding tiered_delay
tiered_delay_lem delays k extra h = (ap_get (omega arith), ap_get (omega arith), refl)
  where
    ap_get : {i j : ℕ} → i ≡ j → get_or delays i 0 ≡ get_or delays j 0
    ap_get e = cc
