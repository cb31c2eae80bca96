-- ===== src/Stats/Distance/Cutoff.antt =====
-- Why the loop may leave early: once every cell of a row exceeds the limit, so does every cell of
-- the rows below it.
use core_desappsii.Base.{ℕ, zero, suc, ◌+◌, ◌≤◌, ◌<◌, subst, arith, length, get_or, List, [], ◌∷◌}
use core_desappsii.Text.{Text}
use core_desappsii.Stats.Distance.{min_of}
use core_desappsii.Stats.Distance.Alignments.{distance, distance_zero, distance-erase}

pub min_of-le : (xs : List ℕ) (i : ℕ) → i < length xs → min_of xs ≤ get_or xs i 0
unfolding min_of
min_of-le [] i h = absurd (omega arith)
min_of-le (x ∷ []) zero h = omega arith
min_of-le (x ∷ []) (suc i) h = absurd (omega arith)
min_of-le (x ∷ (y ∷ ys)) zero h = omega arith
min_of-le (x ∷ (y ∷ ys)) (suc i) h = omega (arith, min_of-le (y ∷ ys) i)

module _ (left right : Text) (limit width : ℕ) where
  -- Every cell of row `i`, up to `width`, exceeds the limit.
  abbrev pub IsAbove : ℕ → Type 0
  IsAbove i = (j : ℕ) → j ≤ width → limit < distance left right i j

  below : (i : ℕ) → IsAbove i → IsAbove (suc i)
  unfolding distance
  below i h zero hj = omega (arith, h 0, distance_zero left right i)
  below zero h (suc j) hj = omega (arith, h (suc j), h j, below zero h j)
  below (suc i) h (suc zero) hj = omega (arith, h 1, h 0)
  below (suc i) h (suc (suc j)) hj = ground (
    arith,
    h (suc (suc j)),
    h (suc j),
    below (suc i) h (suc j),
    distance-erase left right i j,
    h j,
  )

  pub IsAbove-later : (i rounds : ℕ) → IsAbove i → IsAbove (i + rounds)
  IsAbove-later i zero h = subst IsAbove (omega arith) h
  IsAbove-later i (suc rounds) h =
      subst IsAbove (omega arith) (IsAbove-later (suc i) rounds (below i h))
