-- ===== src/RetryPolicy/Samples.antt =====
-- The delays of the default tiers.
use core_desappsii.Base.{◌≡◌, refl, [], ◌∷◌}
use core_desappsii.RetryPolicy.{tiered_delay}

third_wait : tiered_delay (5 ∷ 30 ∷ 120 ∷ 600 ∷ []) 3 ≡ 120
unfolding tiered_delay
third_wait = refl
