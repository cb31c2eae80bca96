-- ===== src/Stats/Distance.antt =====
-- backend/app/services/stats_service.py, `_edit_distance_at_most`: the table of distances between
-- the prefixes of two texts, filled row by row, with the early exit of the loop. The source writes
-- into the table in place; the model passes it on. An index of the source is never out of range,
-- so the default of a read is not met.
pub mod Alignments
pub mod Table
pub mod Cutoff
pub mod Border
pub mod Answer
use core_desappsii.Base.{
  ℕ, zero, suc, ◌+◌, ◌-◌, min, Bool, true, false, ◌&&◌, ◌||◌, List, [], ◌∷◌, Option, none, some,
  length, get_or, ltb, leb, ◌==◌, if◌then◌else◌,
}
use core_desappsii.Base.Grids.{Grid, cell, write, zeros, for_range}
use core_desappsii.Text.{Text}

-- `min(row)` of a row that is not empty.
unfoldable pub min_of : List ℕ → ℕ
min_of [] = 0
min_of (x ∷ []) = x
min_of (x ∷ (y ∷ ys)) = min x (min_of (y ∷ ys))

-- The test for two adjacent characters in swapped order.
unfoldable pub is_swap : Text → Text → ℕ → ℕ → Bool
is_swap left right i j =
    ltb 1 i
    && (ltb 1 j
        && (get_or left (i - 1) 0 == get_or right (j - 2) 0
            && get_or left (i - 2) 0 == get_or right (j - 1) 0))

-- One round of the inner loop: the cell `distance[i][j]`.
unfoldable pub fill_cell : Text → Text → ℕ → ℕ → Grid → Grid
unfolding is_swap
fill_cell left right i j distance =
    let cost = if get_or left (i - 1) 0 == get_or right (j - 1) 0 then 0 else 1 in
    let filled =
      write i j
        (min (min (cell distance (i - 1) j + 1) (cell distance i (j - 1) + 1))
          (cell distance (i - 1) (j - 1) + cost))
        distance in
    if is_swap left right i j
    then write i j (min (cell filled i j) (cell filled (i - 2) (j - 2) + 1)) filled
    else filled

unfoldable pub fill_row : Text → Text → ℕ → Grid → Grid
unfolding fill_cell for_range
fill_row left right i distance = for_range (length right) 1 (fill_cell left right i) distance

-- The outer loop over the rows from `i` on; `none` is its `return False`.
unfoldable pub fill_rows : Text → Text → ℕ → ℕ → ℕ → Grid → Option Grid
unfolding fill_row min_of
fill_rows left right limit zero i distance = some distance
fill_rows left right limit (suc rounds) i distance =
    let filled = fill_row left right i distance in
    let rest = fill_rows left right limit rounds (suc i) filled in
    if ltb limit (min_of (get_or filled i [])) then none else rest

-- The table before the loop: the first column, then the first row.
unfoldable pub first_table : Text → Text → Grid
unfolding write zeros for_range
first_table left right =
    for_range (suc (length right)) 0 (λ j. write 0 j j)
      (for_range (suc (length left)) 0 (λ i. write i 0 i)
        (zeros (suc (length left)) (suc (length right))))

unfoldable pub is_at_most : Text → Text → ℕ → Option Grid → Bool
is_at_most left right limit none = false
is_at_most left right limit (some distance) = leb (cell distance (length left) (length right)) limit

-- `_edit_distance_at_most`
unfoldable pub edit_distance_at_most : Text → Text → ℕ → Bool
unfolding fill_rows first_table is_at_most
edit_distance_at_most left right limit =
    if ltb limit (length left - length right) || ltb limit (length right - length left)
    then false
    else is_at_most left right limit
        (fill_rows left right limit (length left) 1 (first_table left right))
