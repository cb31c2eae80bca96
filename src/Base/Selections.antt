-- ===== src/Base/Selections.antt =====
-- Selecting rows and cutting a page out of them: what holds of all rows, and how many there are.
use Prim.Native.Nat.{ℕ, zero, suc, ◌≤◌}
use mathlib.Core.Path.{◌≡◌, refl, ap, ◌∙◌}
use mathlib.Core.Bool.{Bool, true, false}
use mathlib.Core.List.{List, [], ◌∷◌}
use native.Mathlib.Omega.{arith}
use mathlib.Core.Logic.{inl, inr}
use mathlib.Core.Option.{Option, none, some}
use core_desappsii.Base.Tests.{same_id, ==-eq, if◌then◌else◌, Bool-cases}
use core_desappsii.Base.Tables.{find_one, count_rows}
use core_desappsii.Base.Keys.{count_rows-filterb}
use core_desappsii.Base.Lists.{In, head, tail, All, filterb, take, drop, length}

pub same_id-eq : (a : Option ℕ) (id : ℕ) → same_id a (some id) ≡ true → a ≡ some id
same_id-eq none id h = absurd (cc h)
same_id-eq (some n) id h = ap some (==-eq n id h)

module _ {ℓ κ} {A : Type ℓ} (P : A → Type κ) where
  pub All-drop : (n : ℕ) (xs : List A) → All P xs → All P (drop n xs)
  All-drop zero xs h = h
  All-drop (suc n) [] h = h
  All-drop (suc n) (x ∷ xs) h = All-drop n xs h.1

  pub All-take : (n : ℕ) (xs : List A) → All P xs → All P (take n xs)
  All-take zero xs h = tt
  All-take (suc n) [] h = tt
  All-take (suc n) (x ∷ xs) h = (h.0, All-take n xs h.1)

  pub All-filterb : (p : A → Bool) (xs : List A) → All P xs → All P (filterb p xs)
  All-filterb p [] h = tt
  All-filterb p (x ∷ xs) h = go (p x) (All-filterb p xs h.1)
    where
      go : (b : Bool) → All P (filterb p xs) → All P (if b then x ∷ filterb p xs else filterb p xs)
      go true k = (h.0, k)
      go false k = k

module _ {ℓ} {A : Type ℓ} where
  pub filterb-All : (p : A → Bool) (xs : List A) → All (λ x. p x ≡ true) (filterb p xs)
  filterb-All p [] = tt
  filterb-All p (x ∷ xs) = go (p x) refl (filterb-All p xs)
    where
      go :
          (b : Bool)
          → p x ≡ b
          → All (λ y. p y ≡ true) (filterb p xs)
          → All (λ y. p y ≡ true) (if b then x ∷ filterb p xs else filterb p xs)
      go true e rest = (e, rest)
      go false e rest = rest

  pub length-filterb_mono :
      (p q : A → Bool) (xs : List A)
      → ((x : A) → p x ≡ true → q x ≡ true)
      → length (filterb p xs) ≤ length (filterb q xs)
  length-filterb_mono p q [] h = omega arith
  length-filterb_mono p q (x ∷ xs) h = ground (arith, h x, length-filterb_mono p q xs h)

  pub take_all : (n : ℕ) (xs : List A) → length xs ≤ n → take n xs ≡ xs
  take_all zero [] h = refl
  take_all zero (x ∷ xs) h = absurd (omega arith)
  take_all (suc n) [] h = refl
  take_all (suc n) (x ∷ xs) h = ap (λ l. x ∷ l) (take_all n xs (omega arith))

  pub find_one-filterb :
      (p q : A → Bool) (xs : List A) (x : A)
      → find_one p xs ≡ some x
      → q x ≡ true
      → find_one p (filterb q xs) ≡ some x
  find_one-filterb p q [] x h k = cc
  find_one-filterb p q (y ∷ ys) x h k = elim (Bool-cases (p y)) [
    | inl e ↦
        let same : y ≡ x = first (rw e at h) in
        let selected : q y ≡ true = ap q same ∙ k in rw (selected, e) (ap some same)
    | inr e ↦ ground (arith, find_one-filterb p q ys x (rw e at h) k)
  ]
    where
      first : some y ≡ some x → y ≡ x
      first l = cc l

  -- The only row of a key is not selected: then no selected row has the key.
  pub count_rows-filterb_out :
      (p q : A → Bool) (xs : List A) (x : A)
      → find_one p xs ≡ some x
      → count_rows p xs ≤ 1
      → q x ≡ false
      → count_rows p (filterb q xs) ≡ 0
  count_rows-filterb_out p q [] x h one k = refl
  count_rows-filterb_out p q (y ∷ ys) x h one k = elim (Bool-cases (p y)) [
    | inl e ↦
        let same : y ≡ x = first (rw e at h) in
        let rest : count_rows p ys ≤ 0 = omega (arith, rw e at one) in
        rw (same, k) (omega (arith, rest, count_rows-filterb p q ys))
    | inr e ↦ ground (arith, count_rows-filterb_out p q ys x (rw e at h) (rw e at one) k)
  ]
    where
      first : some y ≡ some x → y ≡ x
      first l = cc l

  -- A row of the table, alone with its key, is the one that the key finds.
  pub find_one-In :
      (p : A → Bool) (xs : List A) (x : A)
      → In x xs
      → p x ≡ true
      → count_rows p xs ≤ 1
      → find_one p xs ≡ some x
  find_one-In p [] x there k one = elim there [ ]
  find_one-In p (y ∷ ys) x head k one = rw k refl
  find_one-In p (y ∷ ys) x (tail there) k one = elim (Bool-cases (p y)) [
    | inl e ↦ absurd (omega (arith, rw e at one, counted ys there))
    | inr e ↦ rw e (find_one-In p ys x there k (rw e at one))
  ]
    where
      counted : (zs : List A) → In x zs → 1 ≤ count_rows p zs
      counted [] there = elim there [ ]
      counted (z ∷ zs) head = rw k (omega arith)
      counted (z ∷ zs) (tail more) = ground (arith, counted zs more)

  pub All-tabulate {κ} : (P : A → Type κ) (xs : List A) → ((x : A) → In x xs → P x) → All P xs
  All-tabulate P [] f = tt
  All-tabulate P (x ∷ xs) f = (f x head, All-tabulate P xs (λ y there. f y (tail there)))
