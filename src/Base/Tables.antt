-- ===== src/Base/Tables.antt =====
-- A database table as the list of its rows, and the queries that the repositories make of it.
use Prim.Native.Nat.{ℕ, suc, ◌+◌}
use mathlib.Core.Path.{◌≡◌, refl, ap}
use mathlib.Core.Bool.{Bool, true}
use mathlib.Core.List.{List, [], ◌∷◌, ◌++◌}
use mathlib.Core.Option.{Option, none, some}
use native.Mathlib.Omega.{arith}
use core_desappsii.Base.Tests.{if◌then◌else◌, is_some}
use core_desappsii.Base.Lists.{length, length-append, filterb}

module _ {ℓ} {A : Type ℓ} where
  -- `select(...).where(p)` read with `.first()`.
  abbrev pub find_one : (A → Bool) → List A → Option A
  find_one p [] = none
  find_one p (x ∷ xs) = if p x then some x else find_one p xs

  -- `session.add` of a new row.
  abbrev pub add_row : A → List A → List A
  add_row x xs = xs ++ x ∷ []

  -- Attribute writes on the objects that satisfy `p`.
  abbrev pub update_rows : (A → Bool) → (A → A) → List A → List A
  update_rows p f [] = []
  update_rows p f (x ∷ xs) = (if p x then f x else x) ∷ update_rows p f xs

  abbrev pub count_rows : (A → Bool) → List A → ℕ
  count_rows p xs = length (filterb p xs)

module _ {ℓ} {A : Type ℓ} where
  pub find_one-holds : (p : A → Bool) (xs : List A) (a : A) → find_one p xs ≡ some a → p a ≡ true
  find_one-holds p [] a h = cc
  find_one-holds p (x ∷ xs) a h = ground (arith, find_one-holds p xs a)

  -- A row that a query finds is still found after more rows are added.
  pub find_one-append_left :
      (p : A → Bool) (xs ys : List A) (a : A)
      → find_one p xs ≡ some a
      → find_one p (xs ++ ys) ≡ some a
  find_one-append_left p [] ys a h = cc
  find_one-append_left p (x ∷ xs) ys a h = ground (arith, find_one-append_left p xs ys a)

  pub find_one-append_right :
      (p : A → Bool) (xs ys : List A) → find_one p xs ≡ none → find_one p (xs ++ ys) ≡ find_one p ys
  find_one-append_right p [] ys h = refl
  find_one-append_right p (x ∷ xs) ys h = ground (arith, find_one-append_right p xs ys)

  pub length-update_rows :
      (p : A → Bool) (f : A → A) (xs : List A) → length (update_rows p f xs) ≡ length xs
  length-update_rows p f [] = refl
  length-update_rows p f (x ∷ xs) = ap suc (length-update_rows p f xs)

  pub length-add_row : (x : A) (xs : List A) → length (add_row x xs) ≡ length xs + 1
  length-add_row x xs = omega (arith, length-append xs (x ∷ []))

  -- Updating the rows keeps a query that the update does not disturb.
  pub is_some-find_one-update_rows :
      (p q : A → Bool) (f : A → A) (xs : List A)
      → ((x : A) → q (f x) ≡ q x)
      → is_some (find_one q (update_rows p f xs)) ≡ is_some (find_one q xs)
  is_some-find_one-update_rows p q f [] h = refl
  is_some-find_one-update_rows p q f (x ∷ xs) h =
      ground (arith, h x, is_some-find_one-update_rows p q f xs h)

  -- A row that is written over is the one that the same query finds.
  pub find_one-update_rows_self :
      (p : A → Bool) (xs : List A) (x y : A)
      → find_one p xs ≡ some x
      → p y ≡ true
      → find_one p (update_rows p (λ _. y) xs) ≡ some y
  find_one-update_rows_self p [] x y h k = cc
  find_one-update_rows_self p (z ∷ zs) x y h k = ground (arith, find_one-update_rows_self p zs x y)
