-- ===== src/Stats/Distance/Answer.antt =====
-- `_edit_distance_at_most` tells whether some alignment has at most the given number of edits.
use native.Mathlib.Decide.{ℕ_discrete}
use core_desappsii.Base.{
  ℕ, zero, suc, ◌+◌, ◌≤◌, ◌<◌, ◌≡◌, [], refl, sym, ◌∙◌, subst, Bool, true, false, arith, length,
  get_or, ◌↔◌, ltb, leb, if◌then◌else◌, Option, none, some,
}
use core_desappsii.Base.Grids.{Grid, cell, for_range-keeps}
use core_desappsii.Text.{Text}
use core_desappsii.Stats.Distance.{
  fill_cell, fill_row, fill_rows, first_table, is_at_most, edit_distance_at_most, min_of,
}
use core_desappsii.Stats.Distance.Alignments.{
  Alignment, distance, distance_zero, Alignment-distance, distance_attained, Alignment-length,
  Alignment-comm,
}
use core_desappsii.Stats.Distance.Border.{first_table-IsTable}
use core_desappsii.Stats.Distance.Table.{IsTable, IsRow, fill_cell-IsRow}
use core_desappsii.Stats.Distance.Cutoff.{IsAbove, IsAbove-later, min_of-le}

module _ (left right : Text) where
  fill_row-IsTable :
      (i : ℕ) (grid : Grid)
      → suc i < suc (length left)
      → IsTable left right (suc i) grid
      → IsTable left right (suc (suc i)) (fill_row left right (suc i) grid)
  unfolding fill_row
  fill_row-IsTable i grid hi t = row_done (
      for_range-keeps (IsRow left right (suc i)) (fill_cell left right (suc i)) (length right) 1
        (suc (length right)) grid (omega arith) (row_starts t) step)
    where
      row_starts : IsTable left right (suc i) grid → IsRow left right (suc i) 1 grid
      row_starts t = record {
        table = t;
        cells = λ l hl hw.
            subst (λ l. cell grid (suc i) l ≡ distance left right (suc i) l) (omega arith)
              (t.column (suc i) hi ∙ sym (distance_zero left right (suc i)));
      }

      step :
          (j : ℕ) (s : Grid)
          → 1 ≤ j
          → j < suc (length right)
          → IsRow left right (suc i) j s
          → IsRow left right (suc i) (suc j) (fill_cell left right (suc i) j s)
      step zero s lo hj r = absurd (omega arith)
      step (suc j) s lo hj r = fill_cell-IsRow left right i j s hi hj r

      row_done :
          {s : Grid}
          → IsRow left right (suc i) (suc (length right)) s
          → IsTable left right (suc (suc i)) s
      row_done {s} r = record {
        shape = r.table.shape;
        column = r.table.column;
        filled = λ k l hk hl. elim (ℕ_discrete (suc i) k) [
          | yes e ↦ subst (λ k. cell s k l ≡ distance left right k l) e (r.cells l hl hl)
          | no n ↦ r.table.filled k l (omega arith) hl
        ];
      }

  -- The table that the loop leaves, or no table and a distance above the limit.
  pub data Outcome (limit : ℕ) : Option Grid → Type 0 where
    full :
        {grid : Grid}
        → cell grid (length left) (length right) ≡ distance left right (length left) (length right)
        → Outcome limit (some grid)
    cut : limit < distance left right (length left) (length right) → Outcome limit none

  Outcome-if :
      {limit : ℕ} {rest : Option Grid} (b : Bool)
      → (b ≡ true → limit < distance left right (length left) (length right))
      → Outcome limit rest
      → Outcome limit (if b then none else rest)
  Outcome-if true early later = cut (early refl)
  Outcome-if false early later = later

  -- A filled row whose least cell exceeds the limit has every cell above it.
  row-IsAbove :
      (limit i : ℕ) (grid : Grid)
      → i < suc (length left)
      → IsTable left right (suc i) grid
      → ltb limit (min_of (get_or grid i [])) ≡ true
      → IsAbove left right limit (length right) i
  unfolding cell
  row-IsAbove limit i grid hi t e j hj = ground (
    arith,
    min_of-le (get_or grid i []) j (omega (arith, t.shape.width i hi)),
    t.filled i j (omega arith) (omega arith),
  )

  fill_rows-Outcome :
      (limit rounds i : ℕ) (grid : Grid)
      → i + rounds ≡ length left
      → IsTable left right (suc i) grid
      → Outcome limit (fill_rows left right limit rounds (suc i) grid)
  unfolding fill_rows
  fill_rows-Outcome limit zero i grid e t =
      full (t.filled (length left) (length right) (omega arith) (omega arith))
  fill_rows-Outcome limit (suc rounds) i grid e t =
      let filled = fill_row-IsTable i grid (omega arith) t in
      Outcome-if (ltb limit (min_of (get_or (fill_row left right (suc i) grid) (suc i) [])))
        (λ above.
          subst (λ k. limit < distance left right k (length right)) (omega arith)
            (IsAbove-later left right limit (length right) (suc i) rounds
              (row-IsAbove limit (suc i) (fill_row left right (suc i) grid) (omega arith) filled
                above)
              (length right) (omega arith)))
        (fill_rows-Outcome limit rounds (suc i) (fill_row left right (suc i) grid) (omega arith)
          filled)

  Outcome-is_at_most :
      {limit : ℕ} {table : Option Grid}
      → Outcome limit table
      → is_at_most left right limit table
        ≡ leb (distance left right (length left) (length right)) limit
  unfolding is_at_most
  Outcome-is_at_most (full e) = rw e refl
  Outcome-is_at_most (cut h) = ground arith

  pub edit_distance_at_most-eq-distance :
      (limit : ℕ)
      → edit_distance_at_most left right limit
        ≡ leb (distance left right (length left) (length right)) limit
  unfolding edit_distance_at_most
  edit_distance_at_most-eq-distance limit = ground (
    arith,
    Alignment-length (distance_attained left right (length left) (length right)),
    Outcome-is_at_most (
        fill_rows-Outcome limit (length left) 0 (first_table left right) (omega arith)
          (first_table-IsTable left right)),
  )

-- `_edit_distance_at_most` answers True exactly when some alignment of the two texts has at most `limit`
-- edits, where erasing, adding and replacing a character and swapping two adjacent ones are one edit
-- each, and each character takes part in one edit at most: its early exits give away no answer.
pub edit_distance_at_most-Alignment :
    (left right : Text) (limit : ℕ)
    → (edit_distance_at_most left right limit ≡ true)
      ↔ ((n : ℕ) × (n ≤ limit) × Alignment left right (length left) (length right) n)
edit_distance_at_most-Alignment left right limit = (
  λ e. (
    distance left right (length left) (length right),
    ground (arith, edit_distance_at_most-eq-distance left right limit),
    distance_attained left right (length left) (length right),
  ),
  λ w. ground (
    arith,
    edit_distance_at_most-eq-distance left right limit,
    Alignment-distance left right w.2,
    w.1,
  ),
)

distance_comm : (left right : Text) (i j : ℕ) → distance left right i j ≡ distance right left j i
distance_comm left right i j = omega (
  arith,
  Alignment-distance right left (Alignment-comm (distance_attained left right i j)),
  Alignment-distance left right (Alignment-comm (distance_attained right left j i)),
)

-- The order of the two texts does not matter to `_edit_distance_at_most`.
pub edit_distance_at_most_comm :
    (left right : Text) (limit : ℕ)
    → edit_distance_at_most left right limit ≡ edit_distance_at_most right left limit
edit_distance_at_most_comm left right limit =
    rw
      (
        edit_distance_at_most-eq-distance left right limit,
        edit_distance_at_most-eq-distance right left limit,
        distance_comm left right (length left) (length right),
      )
      refl
