-- ===== src/Stats/Distance/Border.antt =====
-- The table of `_edit_distance_at_most` before its loop: the borders hold their indices.
use native.Mathlib.Decide.{ℕ_discrete}
use core_desappsii.Base.{ℕ, zero, suc, ◌<◌, ◌≡◌, sym, ◌∙◌, subst, arith, length}
use core_desappsii.Base.Grids.{
  Grid, cell, write, zeros, IsGrid, zeros-IsGrid, write-IsGrid, cell-write_self, cell-write_row,
  cell-write_column, for_range, for_range-keeps,
}
use core_desappsii.Text.{Text}
use core_desappsii.Stats.Distance.{first_table}
use core_desappsii.Stats.Distance.Alignments.{distance}
use core_desappsii.Stats.Distance.Table.{IsTable}

module _ (left right : Text) where
  -- The first column is set below `i`.
  record IsColumn (i : ℕ) (grid : Grid) : Type 0 where
    shape : IsGrid (suc (length left)) (suc (length right)) grid
    column : (k : ℕ) → k < i → cell grid k 0 ≡ k

  write-IsColumn :
      (i : ℕ) (grid : Grid)
      → i < suc (length left)
      → IsColumn i grid
      → IsColumn (suc i) (write i 0 i grid)
  write-IsColumn i grid hi c = record {
    shape = write-IsGrid c.shape i 0 i;
    column = λ k hk. elim (ℕ_discrete i k) [
      | yes e ↦
          subst (λ k. cell (write i 0 i grid) k 0 ≡ k) e
            (cell-write_self c.shape i 0 i hi (omega arith))
      | no n ↦ cell-write_row c.shape i 0 i k 0 n ∙ c.column k (omega arith)
    ];
  }

  -- The first row is set below `j`, and the first column.
  record IsBorder (j : ℕ) (grid : Grid) : Type 0 where
    sides : IsColumn (suc (length left)) grid
    row : (l : ℕ) → l < j → cell grid 0 l ≡ l

  write-IsBorder :
      (j : ℕ) (grid : Grid)
      → j < suc (length right)
      → IsBorder j grid
      → IsBorder (suc j) (write 0 j j grid)
  write-IsBorder j grid hj b = record {
    sides = record {
      shape = write-IsGrid b.sides.shape 0 j j;
      column = column b.sides.shape b.sides.column;
    };
    row = λ l hl. elim (ℕ_discrete j l) [
      | yes e ↦
          subst (λ l. cell (write 0 j j grid) 0 l ≡ l) e
            (cell-write_self b.sides.shape 0 j j (omega arith) hj)
      | no n ↦ cell-write_column b.sides.shape 0 j j l (omega arith) n ∙ b.row l (omega arith)
    ];
  }
    where
      column :
          (g : IsGrid (suc (length left)) (suc (length right)) grid)
          → ((k : ℕ) → k < suc (length left) → cell grid k 0 ≡ k)
          → (k : ℕ) → k < suc (length left)
          → cell (write 0 j j grid) k 0 ≡ k
      column g c zero hk = elim (ℕ_discrete j 0) [
        | yes e ↦
            subst (λ j. cell (write 0 j j grid) 0 0 ≡ 0) (sym e)
              (cell-write_self g 0 0 0 (omega arith) (omega arith))
        | no n ↦ cell-write_column g 0 j j 0 (omega arith) n ∙ c 0 hk
      ]
      column g c (suc k) hk = cell-write_row g 0 j j (suc k) 0 (omega arith) ∙ c (suc k) hk

  pub first_table-IsTable : IsTable left right 1 (first_table left right)
  unfolding first_table distance
  first_table-IsTable =
      let column =
        for_range-keeps IsColumn (λ i. write i 0 i) (suc (length left)) 0 (suc (length left))
          (zeros (suc (length left)) (suc (length right))) (omega arith)
          (record {
            shape = zeros-IsGrid (suc (length left)) (suc (length right));
            column = λ k hk. absurd (omega arith);
          })
          (λ i s lo hi. write-IsColumn i s hi) in
      let border =
        for_range-keeps IsBorder (λ j. write 0 j j) (suc (length right)) 0 (suc (length right))
          (for_range (suc (length left)) 0 (λ i. write i 0 i)
            (zeros (suc (length left)) (suc (length right))))
          (omega arith) (record { sides = column; row = λ l hl. absurd (omega arith) })
          (λ j s lo hj. write-IsBorder j s hj) in
      record {
        shape = border.sides.shape;
        column = border.sides.column;
        filled = λ k l hk hl.
            subst (λ k. cell (first_table left right) k l ≡ distance left right k l) (omega arith)
              (border.row l hl);
      }
