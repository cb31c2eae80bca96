-- ===== src/Stats/Distance/Alignments.antt =====
-- What the distance of `_edit_distance_at_most` means: alignments of two texts, their
-- cost, and the least cost by recursion on the prefixes.
use native.Mathlib.Decide.{dec_le}
use core_desappsii.Base.{
  ℕ, zero, suc, ◌+◌, ◌≤◌, min, ◌≡◌, refl, subst, sym, Bool, true, ◌&&◌, arith, get_or, ◌==◌, ==-eq,
  if◌then◌else◌, Bool-cases, inl, inr,
}
use core_desappsii.Text.{Text}

module _ (left right : Text) where
  -- An alignment of the first `i` characters of `left` with the first `j` of `right`, from left to
  -- right, with `n` edits: to erase, add or replace a character, or to swap two adjacent ones, is one
  -- edit. Each character takes part in one edit at most, so nothing is added between two characters
  -- that were swapped: "ca" and "abc" have no alignment with 2 edits.
  pub data Alignment : ℕ → ℕ → ℕ → Type 0 where
    start : Alignment 0 0 0
    erase : {i j n : ℕ} → Alignment i j n → Alignment (suc i) j (suc n)
    insert : {i j n : ℕ} → Alignment i j n → Alignment i (suc j) (suc n)
    keep :
        {i j n : ℕ}
        → get_or left i 0 ≡ get_or right j 0
        → Alignment i j n
        → Alignment (suc i) (suc j) n
    replace : {i j n : ℕ} → Alignment i j n → Alignment (suc i) (suc j) (suc n)
    swap :
        {i j n : ℕ}
        → get_or left (suc i) 0 ≡ get_or right j 0
        → get_or left i 0 ≡ get_or right (suc j) 0
        → Alignment i j n
        → Alignment (suc (suc i)) (suc (suc j)) (suc n)

  abbrev pub cost : ℕ → ℕ → ℕ
  cost i j = if get_or left i 0 == get_or right j 0 then 0 else 1

  -- Whether the characters at `i` and `i + 1` are those at `j + 1` and `j`.
  abbrev pub swaps : ℕ → ℕ → Bool
  swaps i j = get_or left (suc i) 0 == get_or right j 0 && get_or left i 0 == get_or right (suc j) 0

  -- The least number of edits between the prefixes.
  unfoldable pub distance : ℕ → ℕ → ℕ
  distance zero j = j
  distance (suc i) zero = suc i
  distance (suc zero) (suc j) =
      min (min (distance zero (suc j) + 1) (distance (suc zero) j + 1))
        (distance zero j + cost zero j)
  distance (suc (suc i)) (suc zero) =
      min (min (distance (suc i) 1 + 1) (distance (suc (suc i)) zero + 1))
        (distance (suc i) zero + cost (suc i) zero)
  distance (suc (suc i)) (suc (suc j)) =
      let three =
        min (min (distance (suc i) (suc (suc j)) + 1) (distance (suc (suc i)) (suc j) + 1))
          (distance (suc i) (suc j) + cost (suc i) (suc j)) in
      let shorter = distance i j in if swaps i j then min three (shorter + 1) else three

  pub distance_zero : (i : ℕ) → distance i 0 ≡ i
  unfolding distance
  distance_zero zero = refl
  distance_zero (suc i) = refl

  -- Each way to reach a cell bounds it.
  pub distance-erase : (i j : ℕ) → distance (suc i) j ≤ distance i j + 1
  unfolding distance
  distance-erase i zero = omega (arith, distance_zero i)
  distance-erase zero (suc j) = omega arith
  distance-erase (suc i) (suc zero) = omega arith
  distance-erase (suc i) (suc (suc j)) = ground arith

  pub distance-insert : (i j : ℕ) → distance i (suc j) ≤ distance i j + 1
  unfolding distance
  distance-insert zero j = omega arith
  distance-insert (suc zero) j = omega arith
  distance-insert (suc (suc i)) zero = omega arith
  distance-insert (suc (suc i)) (suc j) = ground arith

  pub distance-replace : (i j : ℕ) → distance (suc i) (suc j) ≤ distance i j + cost i j
  unfolding distance
  distance-replace zero j = omega arith
  distance-replace (suc i) zero = omega arith
  distance-replace (suc i) (suc j) = ground arith

  pub distance-swap :
      (i j : ℕ) → swaps i j ≡ true → distance (suc (suc i)) (suc (suc j)) ≤ distance i j + 1
  unfolding distance
  distance-swap i j h = ground arith

  -- No alignment has fewer edits than the distance.
  pub Alignment-distance : {i j n : ℕ} → Alignment i j n → distance i j ≤ n
  Alignment-distance start = unfold distance in omega arith
  Alignment-distance (erase {i} {j} s) = omega (arith, Alignment-distance s, distance-erase i j)
  Alignment-distance (insert {i} {j} s) = omega (arith, Alignment-distance s, distance-insert i j)
  Alignment-distance (keep {i} {j} e s) = ground (arith, Alignment-distance s, distance-replace i j)
  Alignment-distance (replace {i} {j} s) =
      ground (arith, Alignment-distance s, distance-replace i j)
  Alignment-distance (swap {i} {j} e f s) = ground (arith, Alignment-distance s, distance-swap i j)

  Alignment-min : {i j m n : ℕ} → Alignment i j m → Alignment i j n → Alignment i j (min m n)
  Alignment-min {i} {j} {m} {n} s t = elim (dec_le m n) [
    | yes h ↦ subst (Alignment i j) (omega arith) s
    | no h ↦ subst (Alignment i j) (omega arith) t
  ]

  Alignment-cost : {i j n : ℕ} → Alignment i j n → Alignment (suc i) (suc j) (n + cost i j)
  Alignment-cost {i} {j} {n} s = elim (Bool-cases (get_or left i 0 == get_or right j 0)) [
    | inl e ↦ rw e (subst (Alignment (suc i) (suc j)) (omega arith) (keep (==-eq _ _ e) s))
    | inr e ↦ rw e (subst (Alignment (suc i) (suc j)) (omega arith) (replace s))
  ]

  Alignment-three :
      {i j k l m : ℕ}
      → Alignment i (suc j) k
      → Alignment (suc i) j l
      → Alignment i j m
      → Alignment (suc i) (suc j) (min (min (k + 1) (l + 1)) (m + cost i j))
  Alignment-three {i} {j} {k} {l} r s t =
      Alignment-min
        (Alignment-min (subst (Alignment (suc i) (suc j)) (omega arith) (erase r))
          (subst (Alignment (suc i) (suc j)) (omega arith) (insert s)))
        (Alignment-cost t)

  Alignment-swap :
      {i j m n : ℕ}
      → Alignment (suc (suc i)) (suc (suc j)) m
      → Alignment i j n
      → Alignment (suc (suc i)) (suc (suc j)) (if swaps i j then min m (n + 1) else m)
  Alignment-swap {i} {j} {m} {n} s t = elim (Bool-cases (swaps i j)) [
    | inl e ↦ rw e (
        Alignment-min s (
          subst (Alignment (suc (suc i)) (suc (suc j))) (omega arith)
            (swap (ground arith) (ground arith) t)))
    | inr e ↦ rw e s
  ]

  -- Some alignment has exactly that many.
  pub distance_attained : (i j : ℕ) → Alignment i j (distance i j)
  unfolding distance
  distance_attained zero zero = start
  distance_attained zero (suc j) = insert (distance_attained zero j)
  distance_attained (suc i) zero =
      erase (subst (Alignment i 0) (distance_zero i) (distance_attained i zero))
  distance_attained (suc zero) (suc j) =
      Alignment-three (distance_attained zero (suc j)) (distance_attained (suc zero) j)
        (distance_attained zero j)
  distance_attained (suc (suc i)) (suc zero) =
      Alignment-three (distance_attained (suc i) (suc zero)) (distance_attained (suc (suc i)) zero)
        (distance_attained (suc i) zero)
  distance_attained (suc (suc i)) (suc (suc j)) =
      Alignment-swap
        (Alignment-three (distance_attained (suc i) (suc (suc j)))
          (distance_attained (suc (suc i)) (suc j)) (distance_attained (suc i) (suc j)))
        (distance_attained i j)

-- An alignment read backwards.
pub Alignment-comm :
    {left right : Text} {i j n : ℕ} → Alignment left right i j n → Alignment right left j i n
Alignment-comm start = start
Alignment-comm (erase s) = insert (Alignment-comm s)
Alignment-comm (insert s) = erase (Alignment-comm s)
Alignment-comm (keep e s) = keep (sym e) (Alignment-comm s)
Alignment-comm (replace s) = replace (Alignment-comm s)
Alignment-comm (swap e f s) = swap (sym f) (sym e) (Alignment-comm s)

pub Alignment-length :
    {left right : Text} {i j n : ℕ} → Alignment left right i j n → (i ≤ j + n) × (j ≤ i + n)
Alignment-length start = omega arith
Alignment-length (erase s) = omega (arith, Alignment-length s)
Alignment-length (insert s) = omega (arith, Alignment-length s)
Alignment-length (keep e s) = omega (arith, Alignment-length s)
Alignment-length (replace s) = omega (arith, Alignment-length s)
Alignment-length (swap e f s) = omega (arith, Alignment-length s)
