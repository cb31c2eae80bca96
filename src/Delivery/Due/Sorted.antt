-- ===== src/Delivery/Due/Sorted.antt =====
-- The order by the time of the next retry keeps the rows, their number and what holds of them.
use core_desappsii.Base.{
  leb, ◌+◌, ◌≡◌, refl, ap, ◌∙◌, Bool, true, false, ◌||◌, List, [], ◌∷◌, arith, All, any, length,
  if◌then◌else◌, count_rows, find_one, some, ◌≤◌, Bool-cases, inl, inr,
}
use core_desappsii.Model.Events.{Delivery}
use core_desappsii.Repositories.Events.{due_at, sort_by_due, insert_by_due}

module _ {κ} (P : Delivery → Type κ) where
  All-insert_by_due :
      (d : Delivery) (xs : List Delivery) → P d → All P xs → All P (insert_by_due d xs)
  unfolding insert_by_due
  All-insert_by_due d [] k h = (k, tt)
  All-insert_by_due d (x ∷ xs) k h = go (leb (due_at d) (due_at x)) (All-insert_by_due d xs k h.1)
    where
      go :
          (b : Bool)
          → All P (insert_by_due d xs)
          → All P (if b then d ∷ x ∷ xs else x ∷ insert_by_due d xs)
      go true rest = (k, h)
      go false rest = (h.0, rest)

  pub All-sort_by_due : (xs : List Delivery) → All P xs → All P (sort_by_due xs)
  unfolding sort_by_due
  All-sort_by_due [] h = tt
  All-sort_by_due (x ∷ xs) h = All-insert_by_due x (sort_by_due xs) h.0 (All-sort_by_due xs h.1)

length-insert_by_due :
    (d : Delivery) (xs : List Delivery) → length (insert_by_due d xs) ≡ length xs + 1
unfolding insert_by_due
length-insert_by_due d [] = refl
length-insert_by_due d (x ∷ xs) = ground (arith, length-insert_by_due d xs)

pub length-sort_by_due : (xs : List Delivery) → length (sort_by_due xs) ≡ length xs
unfolding sort_by_due
length-sort_by_due [] = refl
length-sort_by_due (x ∷ xs) =
    omega (arith, length-insert_by_due x (sort_by_due xs), length-sort_by_due xs)

any-insert_by_due :
    (p : Delivery → Bool) (d : Delivery) (xs : List Delivery)
    → any p (insert_by_due d xs) ≡ (p d || any p xs)
unfolding insert_by_due
any-insert_by_due p d [] = refl
any-insert_by_due p d (x ∷ xs) = ground (arith, any-insert_by_due p d xs)

pub any-sort_by_due : (p : Delivery → Bool) (xs : List Delivery) → any p (sort_by_due xs) ≡ any p xs
unfolding sort_by_due
any-sort_by_due p [] = refl
any-sort_by_due p (x ∷ xs) =
    any-insert_by_due p x (sort_by_due xs) ∙ ap (λ b. p x || b) (any-sort_by_due p xs)

module _ (p : Delivery → Bool) where
  count_rows-insert_by_due :
      (d : Delivery) (xs : List Delivery)
      → count_rows p (insert_by_due d xs) ≡ count_rows p (d ∷ xs)
  unfolding insert_by_due
  count_rows-insert_by_due d [] = refl
  count_rows-insert_by_due d (x ∷ xs) = ground (arith, count_rows-insert_by_due d xs)

  pub count_rows-sort_by_due :
      (xs : List Delivery) → count_rows p (sort_by_due xs) ≡ count_rows p xs
  unfolding sort_by_due
  count_rows-sort_by_due [] = refl
  count_rows-sort_by_due (x ∷ xs) =
      ground (arith, count_rows-insert_by_due x (sort_by_due xs), count_rows-sort_by_due xs)

  find_one-insert_by_due :
      (d : Delivery) (xs : List Delivery)
      → count_rows p (d ∷ xs) ≤ 1
      → find_one p (insert_by_due d xs) ≡ find_one p (d ∷ xs)
  unfolding insert_by_due
  find_one-insert_by_due d [] h = refl
  find_one-insert_by_due d (x ∷ xs) h = elim (Bool-cases (leb (due_at d) (due_at x))) [
    | inl e ↦ rw e refl
    | inr e ↦ rw e (elim (Bool-cases (p x)) [
      | inl px ↦ elim (Bool-cases (p d)) [
        | inl pd ↦ absurd (omega (arith, rw (pd, px) at h))
        | inr pd ↦ rw (px, pd) refl
      ]
      | inr px ↦ rw px (find_one-insert_by_due d xs (rw px at h))
    ])
  ]

  -- A row that is alone with its key is found in the sorted rows as well.
  pub find_one-sort_by_due :
      (xs : List Delivery) → count_rows p xs ≤ 1 → find_one p (sort_by_due xs) ≡ find_one p xs
  unfolding sort_by_due
  find_one-sort_by_due [] h = refl
  find_one-sort_by_due (x ∷ xs) h =
      find_one-insert_by_due x (sort_by_due xs) (ground (arith, h, count_rows-sort_by_due xs))
      ∙ ap (λ o. if p x then some x else o) (find_one-sort_by_due xs (ground (arith, h)))
