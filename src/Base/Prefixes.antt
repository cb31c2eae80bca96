-- ===== src/Base/Prefixes.antt =====
-- Lists that only grow at their end.
use mathlib.Core.Path.{◌≡◌, refl, ap, sym, ◌∙◌}
use mathlib.Core.Bool.{Bool, true, false}
use mathlib.Core.List.{List, [], ◌∷◌, ◌++◌, map, append-nil}
use core_desappsii.Base.Tests.{if◌then◌else◌}
use core_desappsii.Base.Tables.{add_row, update_rows}

module _ {ℓ κ} {A : Type ℓ} {B : Type κ} (f : A → B) where
  -- The rows of `ys` begin with those of `xs`, as far as `f` tells.
  abbrev pub Extends : List A → List A → Type κ
  Extends xs ys = (rest : List B) × (map f ys ≡ map f xs ++ rest)

  pub Extends-refl : (xs : List A) → Extends xs xs
  Extends-refl xs = ([], sym (append-nil (map f xs)))

  map-add_row : (xs : List A) (x : A) → map f (add_row x xs) ≡ map f xs ++ f x ∷ []
  map-add_row [] x = refl
  map-add_row (y ∷ ys) x = ap (λ l. f y ∷ l) (map-add_row ys x)

  pub Extends-add_row : (xs : List A) (x : A) → Extends xs (add_row x xs)
  Extends-add_row xs x = (f x ∷ [], map-add_row xs x)

  map-update_rows :
      (q : A → Bool) (g : A → A) (xs : List A)
      → ((x : A) → f (g x) ≡ f x)
      → map f (update_rows q g xs) ≡ map f xs
  map-update_rows q g [] h = refl
  map-update_rows q g (x ∷ xs) h = rw (map-update_rows q g xs h) (ap (λ b. b ∷ map f xs) (go (q x)))
    where
      go : (b : Bool) → f (if b then g x else x) ≡ f x
      go true = h x
      go false = refl

  pub Extends-update_rows :
      (q : A → Bool) (g : A → A) (xs : List A)
      → ((x : A) → f (g x) ≡ f x)
      → Extends xs (update_rows q g xs)
  Extends-update_rows q g xs h = ([], map-update_rows q g xs h ∙ sym (append-nil (map f xs)))
