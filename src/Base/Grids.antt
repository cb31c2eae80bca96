-- ===== src/Base/Grids.antt =====
-- Two-dimensional arrays as lists of rows: a list of zeros, an indexed write, a counting loop, and
-- what they leave in each cell.
use Prim.Native.Nat.{ℕ, zero, suc, ◌+◌, ◌≤◌, ◌<◌}
use mathlib.Core.Path.{◌≡◌, refl, ap, ◌∙◌, subst}
use mathlib.Core.Logic.{◌≢◌}
use mathlib.Core.List.{List, [], ◌∷◌}
use native.Mathlib.Decide.{ℕ_discrete}
use native.Mathlib.Omega.{arith}
use core_desappsii.Base.Lists.{length, get_or}

module _ {ℓ} {A : Type ℓ} where
  -- `[x] * n`
  abbrev pub replicate : ℕ → A → List A
  replicate zero x = []
  replicate (suc n) x = x ∷ replicate n x

  abbrev pub update_at : ℕ → (A → A) → List A → List A
  update_at i f [] = []
  update_at zero f (x ∷ xs) = f x ∷ xs
  update_at (suc i) f (x ∷ xs) = x ∷ update_at i f xs

  -- `for i in range(start, start + rounds)`
  unfoldable pub for_range : ℕ → ℕ → (ℕ → A → A) → A → A
  for_range zero start body s = s
  for_range (suc rounds) start body s = for_range rounds (suc start) body (body start s)

  length-replicate : (n : ℕ) (x : A) → length (replicate n x) ≡ n
  length-replicate zero x = refl
  length-replicate (suc n) x = ap suc (length-replicate n x)

  get_or-replicate : (n i : ℕ) (x d : A) → i < n → get_or (replicate n x) i d ≡ x
  get_or-replicate zero i x d h = absurd (omega arith)
  get_or-replicate (suc n) zero x d h = refl
  get_or-replicate (suc n) (suc i) x d h = get_or-replicate n i x d (omega arith)

  length-update_at : (i : ℕ) (f : A → A) (xs : List A) → length (update_at i f xs) ≡ length xs
  length-update_at i f [] = refl
  length-update_at zero f (x ∷ xs) = refl
  length-update_at (suc i) f (x ∷ xs) = ap suc (length-update_at i f xs)

  get_or-update_at_self :
      (i : ℕ) (f : A → A) (xs : List A) (d : A)
      → i < length xs
      → get_or (update_at i f xs) i d ≡ f (get_or xs i d)
  get_or-update_at_self i f [] d h = absurd (omega arith)
  get_or-update_at_self zero f (x ∷ xs) d h = refl
  get_or-update_at_self (suc i) f (x ∷ xs) d h = get_or-update_at_self i f xs d (omega arith)

  get_or-update_at_other :
      (i j : ℕ) (f : A → A) (xs : List A) (d : A)
      → i ≢ j
      → get_or (update_at i f xs) j d ≡ get_or xs j d
  get_or-update_at_other i j f [] d h = refl
  get_or-update_at_other zero zero f (x ∷ xs) d h = absurd (h refl)
  get_or-update_at_other zero (suc j) f (x ∷ xs) d h = refl
  get_or-update_at_other (suc i) zero f (x ∷ xs) d h = refl
  get_or-update_at_other (suc i) (suc j) f (x ∷ xs) d h =
      get_or-update_at_other i j f xs d (omega arith)

-- A property that each round hands on to the next holds after the loop.
pub for_range-keeps {ℓ κ} :
    {A : Type ℓ} (P : ℕ → A → Type κ) (body : ℕ → A → A) (rounds start stop : ℕ) (s : A)
    → start + rounds ≡ stop
    → P start s
    → ((i : ℕ) (t : A) → start ≤ i → i < stop → P i t → P (suc i) (body i t))
    → P stop (for_range rounds start body s)
unfolding for_range
for_range-keeps P body zero start stop s e p keep = subst (λ k. P k s) (omega arith) p
for_range-keeps P body (suc rounds) start stop s e p keep =
    for_range-keeps P body rounds (suc start) stop (body start s) (omega arith)
      (keep start s (omega arith) (omega arith) p) (λ i t lo hi. keep i t (omega arith) hi)

abbrev pub Grid : Type 0
Grid = List (List ℕ)

unfoldable pub cell : Grid → ℕ → ℕ → ℕ
cell grid i j = get_or (get_or grid i []) j 0

-- `grid[i][j] = v`
unfoldable pub write : ℕ → ℕ → ℕ → Grid → Grid
write i j v grid = update_at i (update_at j (λ _. v)) grid

unfoldable pub zeros : ℕ → ℕ → Grid
zeros rows cols = replicate rows (replicate cols 0)

-- `rows` rows of `cols` cells.
pub record IsGrid (rows cols : ℕ) (grid : Grid) : Type 0 where
  height : length grid ≡ rows
  pub width : (i : ℕ) → i < rows → length (get_or grid i []) ≡ cols

pub zeros-IsGrid : (rows cols : ℕ) → IsGrid rows cols (zeros rows cols)
unfolding zeros
zeros-IsGrid rows cols = record {
  height = length-replicate rows (replicate cols 0);
  width =
      λ i h. ap length (get_or-replicate rows i (replicate cols 0) [] h) ∙ length-replicate cols 0;
}

module _ {rows cols : ℕ} {grid : Grid} (g : IsGrid rows cols grid) (i j v : ℕ) where
  pub write-IsGrid : IsGrid rows cols (write i j v grid)
  unfolding write
  write-IsGrid = record {
    height = length-update_at i (update_at j (λ _. v)) grid ∙ g.height;
    width = λ k h. elim (ℕ_discrete i k) [
      | yes e ↦
          subst (λ k. length (get_or (update_at i (update_at j (λ _. v)) grid) k []) ≡ cols) e
            (ap length (
                get_or-update_at_self i (update_at j (λ _. v)) grid [] (omega (arith, g.height, e)))
              ∙ length-update_at j (λ _. v) (get_or grid i [])
              ∙ g.width i (omega (arith, e)))
      | no n ↦ ap length (get_or-update_at_other i k (update_at j (λ _. v)) grid [] n) ∙ g.width k h
    ];
  }

  pub cell-write_self : i < rows → j < cols → cell (write i j v grid) i j ≡ v
  unfolding write cell
  cell-write_self hi hj =
      ap (λ row. get_or row j 0)
        (get_or-update_at_self i (update_at j (λ _. v)) grid [] (omega (arith, g.height)))
      ∙ get_or-update_at_self j (λ _. v) (get_or grid i []) 0 (omega (arith, g.width i hi))

  pub cell-write_row : (k l : ℕ) → i ≢ k → cell (write i j v grid) k l ≡ cell grid k l
  unfolding write cell
  cell-write_row k l n =
      ap (λ row. get_or row l 0) (get_or-update_at_other i k (update_at j (λ _. v)) grid [] n)

  pub cell-write_column : (l : ℕ) → i < rows → j ≢ l → cell (write i j v grid) i l ≡ cell grid i l
  unfolding write cell
  cell-write_column l hi n =
      ap (λ row. get_or row l 0)
        (get_or-update_at_self i (update_at j (λ _. v)) grid [] (omega (arith, g.height)))
      ∙ get_or-update_at_other j l (λ _. v) (get_or grid i []) 0 n
