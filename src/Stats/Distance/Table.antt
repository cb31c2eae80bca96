-- ===== src/Stats/Distance/Table.antt =====
-- The table that `_edit_distance_at_most` fills holds the least numbers of edits.
use native.Mathlib.Decide.{ℕ_discrete}
use native.Mathlib.Numerals.{sub-one}
use core_desappsii.Base.{
  ℕ, zero, suc, ◌+◌, ◌-◌, ◌<◌, min, ◌≡◌, refl, ◌∙◌, ap, subst, true, false, arith, length, get_or,
  Bool-cases, inl, inr, if◌then◌else◌, ◌==◌, ltb,
}
use core_desappsii.Base.Grids.{
  Grid, cell, write, IsGrid, write-IsGrid, cell-write_self, cell-write_row, cell-write_column,
}
use core_desappsii.Text.{Text}
use core_desappsii.Stats.Distance.{fill_cell, is_swap}
use core_desappsii.Stats.Distance.Alignments.{distance, cost, swaps}

sub-two : (n : ℕ) → suc (suc n) - 2 ≡ n
sub-two n = omega arith

ltb_later : (n : ℕ) → ltb 1 (suc (suc n)) ≡ true
ltb_later n = ground arith

module _ (left right : Text) where
  -- Rows below `i` are filled, and the first column is.
  pub record IsTable (i : ℕ) (grid : Grid) : Type 0 where
    pub shape : IsGrid (suc (length left)) (suc (length right)) grid
    pub column : (k : ℕ) → k < suc (length left) → cell grid k 0 ≡ k
    pub filled :
        (k l : ℕ) → k < i → l < suc (length right) → cell grid k l ≡ distance left right k l

  -- Within row `i`, the cells below `j` are filled too.
  pub record IsRow (i j : ℕ) (grid : Grid) : Type 0 where
    pub table : IsTable i grid
    pub cells : (l : ℕ) → l < j → l < suc (length right) → cell grid i l ≡ distance left right i l

  -- A write of the cell to fill keeps what is filled,
  write-IsRow :
      {i j : ℕ} {grid : Grid} (v : ℕ)
      → IsRow (suc i) (suc j) grid
      → suc i < suc (length left)
      → IsRow (suc i) (suc j) (write (suc i) (suc j) v grid)
  write-IsRow {i} {j} {grid} v r hi = record {
    table = record {
      shape = write-IsGrid r.table.shape (suc i) (suc j) v;
      column = λ k hk. elim (ℕ_discrete (suc i) k) [
        | yes e ↦
            subst (λ k. cell (write (suc i) (suc j) v grid) k 0 ≡ k) e
              (cell-write_column r.table.shape (suc i) (suc j) v 0 hi (omega arith)
                ∙ r.table.column (suc i) hi)
        | no n ↦ cell-write_row r.table.shape (suc i) (suc j) v k 0 n ∙ r.table.column k hk
      ];
      filled = λ k l hk hl.
          cell-write_row r.table.shape (suc i) (suc j) v k l (omega arith)
          ∙ r.table.filled k l hk hl;
    };
    cells = λ l hl hw.
        cell-write_column r.table.shape (suc i) (suc j) v l hi (omega arith) ∙ r.cells l hl hw;
  }

  -- and one of the right number fills one more.
  write-fills :
      {i j : ℕ} {grid : Grid} (v : ℕ)
      → IsRow (suc i) (suc j) grid
      → suc i < suc (length left)
      → suc j < suc (length right)
      → v ≡ distance left right (suc i) (suc j)
      → IsRow (suc i) (suc (suc j)) (write (suc i) (suc j) v grid)
  write-fills {i} {j} {grid} v r hi hj e =
      let kept = write-IsRow v r hi in
      record {
        table = kept.table;
        cells = λ l hl hw. elim (ℕ_discrete (suc j) l) [
          | yes same ↦
              subst
                (λ l. cell (write (suc i) (suc j) v grid) (suc i) l ≡ distance left right (suc i) l)
                same (cell-write_self r.table.shape (suc i) (suc j) v hi hj ∙ e)
          | no n ↦ kept.cells l (omega arith) hw
        ];
      }

  -- The three neighbours that a round reads.
  three_cells :
      (i j : ℕ) (grid : Grid)
      → suc j < suc (length right)
      → IsRow (suc i) (suc j) grid
      → min (min (cell grid (suc i - 1) (suc j) + 1) (cell grid (suc i) (suc j - 1) + 1)) (
          cell grid (suc i - 1) (suc j - 1)
          + (if get_or left (suc i - 1) 0 == get_or right (suc j - 1) 0 then 0 else 1))
        ≡ min
            (min (distance left right i (suc j) + 1) (distance left right (suc i) j + 1))
            (distance left right i j + cost left right i j)
  three_cells i j grid hj r =
      simp
        (
          sub-one,
          r.table.filled i (suc j) (omega arith) hj,
          r.cells j (omega arith) (omega arith),
          r.table.filled i j (omega arith) (omega arith),
        )
        refl

  is_swap_first : (i : ℕ) → is_swap left right i 1 ≡ false
  unfolding is_swap
  is_swap_first i = ground arith

  is_swap_later : (i j : ℕ) → is_swap left right (suc (suc i)) (suc (suc j)) ≡ swaps left right i j
  unfolding is_swap
  is_swap_later i j = simp (ltb_later, sub-one, sub-two) refl

  pub fill_cell-IsRow :
      (i j : ℕ) (grid : Grid)
      → suc i < suc (length left)
      → suc j < suc (length right)
      → IsRow (suc i) (suc j) grid
      → IsRow (suc i) (suc (suc j)) (fill_cell left right (suc i) (suc j) grid)
  unfolding fill_cell distance
  fill_cell-IsRow zero j grid hi hj r = write-fills _ r hi hj (three_cells 0 j grid hj r)
  fill_cell-IsRow (suc i) zero grid hi hj r =
      rw (is_swap_first (suc (suc i))) (write-fills _ r hi hj (three_cells (suc i) 0 grid hj r))
  fill_cell-IsRow (suc i) (suc j) grid hi hj r =
      let three = three_cells (suc i) (suc j) grid hj r in
      rw (is_swap_later i j) (elim (Bool-cases (swaps left right i j)) [
        | inl e ↦ rw e (
            write-fills _ (write-IsRow _ r hi) hi hj (
              simp
                (
                  e,
                  sub-two,
                  cell-write_self r.table.shape (suc (suc i)) (suc (suc j)) _ hi hj,
                  cell-write_row r.table.shape (suc (suc i)) (suc (suc j)) _ i j (omega arith),
                  r.table.filled i j (omega arith) (omega arith),
                )
                (ap (λ n. min n (distance left right i j + 1)) three)))
        | inr e ↦ rw e (write-fills _ r hi hj (three ∙ rw e refl))
      ])
