-- ===== src/Base/Keys.antt =====
-- Rows that no two share a key.
use Prim.Native.Nat.{◌+◌, ◌≤◌}
use mathlib.Core.Path.{◌≡◌, refl, sym, subst}
use mathlib.Core.Logic.{inl, inr}
use mathlib.Core.Bool.{Bool, true, false}
use mathlib.Core.List.{List, [], ◌∷◌}
use mathlib.Core.Option.{none}
use native.Mathlib.Omega.{arith}
use core_desappsii.Base.Tests.{if◌then◌else◌, Bool-cases}
use core_desappsii.Base.Lists.{filterb, All}
use core_desappsii.Base.Tables.{find_one, add_row, update_rows, count_rows}

module _ {ℓ} {A : Type ℓ} where
  pub count_rows-none : (p : A → Bool) (xs : List A) → find_one p xs ≡ none → count_rows p xs ≡ 0
  count_rows-none p [] h = refl
  count_rows-none p (x ∷ xs) h = ground (arith, count_rows-none p xs)

  pub count_rows-add_row :
      (p : A → Bool) (xs : List A) (x : A)
      → count_rows p (add_row x xs) ≡ count_rows p xs + (if p x then 1 else 0)
  count_rows-add_row p [] x = ground arith
  count_rows-add_row p (y ∷ ys) x = ground (arith, count_rows-add_row p ys x)

  pub count_rows-update_rows :
      (p q : A → Bool) (f : A → A) (xs : List A)
      → ((x : A) → p (f x) ≡ p x)
      → count_rows p (update_rows q f xs) ≡ count_rows p xs
  count_rows-update_rows p q f [] h = refl
  count_rows-update_rows p q f (x ∷ xs) h = ground (arith, h x, count_rows-update_rows p q f xs h)

  pub count_rows-filterb :
      (p q : A → Bool) (xs : List A) → count_rows p (filterb q xs) ≤ count_rows p xs
  count_rows-filterb p q [] = omega arith
  count_rows-filterb p q (x ∷ xs) = ground (arith, count_rows-filterb p q xs)

  pub All-add_row {κ} :
      (P : A → Type κ) (xs : List A) (x : A) → All P xs → P x → All P (add_row x xs)
  All-add_row P [] x h k = (k, tt)
  All-add_row P (y ∷ ys) x h k = (h.0, All-add_row P ys x h.1 k)

  pub All-update_rows {κ} :
      (P : A → Type κ) (q : A → Bool) (f : A → A) (xs : List A)
      → All P xs
      → ((x : A) → P x → P (f x))
      → All P (update_rows q f xs)
  All-update_rows P q f [] h keeps = tt
  All-update_rows P q f (x ∷ xs) h keeps = (go (q x), All-update_rows P q f xs h.1 keeps)
    where
      go : (b : Bool) → P (if b then f x else x)
      go true = keeps x h.0
      go false = h.0

  pub All-each {κ μ} :
      {P : A → Type κ} {Q : A → Type μ} (xs : List A) → ((x : A) → P x → Q x) → All P xs → All Q xs
  All-each [] f h = tt
  All-each (x ∷ xs) f h = (f x h.0, All-each xs f h.1)

-- At most one row has each key; `has_key k` is the test of a row for the key `k`.
abbrev pub IsUniqueBy {ℓ κ} : {A : Type ℓ} {K : Type κ} → (K → A → Bool) → List A → Type κ
IsUniqueBy {K} has_key xs = (k : K) → count_rows (has_key k) xs ≤ 1

-- A row whose key no row has may be added.
pub add_row-IsUniqueBy {ℓ κ} :
    {A : Type ℓ} {K : Type κ} (has_key : K → A → Bool) (xs : List A) (k : K) (x : A)
    → ((j : K) → has_key j x ≡ true → j ≡ k)
    → find_one (has_key k) xs ≡ none
    → IsUniqueBy has_key xs
    → IsUniqueBy has_key (add_row x xs)
add_row-IsUniqueBy has_key xs k x same fresh h j = elim (Bool-cases (has_key j x)) [
  | inl e ↦
      subst (λ i. count_rows (has_key i) (add_row x xs) ≤ 1) (sym (same j e))
        (ground (arith, count_rows-add_row (has_key k) xs x, count_rows-none (has_key k) xs fresh))
  | inr e ↦ omega (arith, rw e at (count_rows-add_row (has_key j) xs x), h j)
]

-- Writes that leave the keys alone.
pub update_rows-IsUniqueBy {ℓ κ} :
    {A : Type ℓ} {K : Type κ} (has_key : K → A → Bool) (q : A → Bool) (f : A → A) (xs : List A)
    → ((k : K) (x : A) → has_key k (f x) ≡ has_key k x)
    → IsUniqueBy has_key xs
    → IsUniqueBy has_key (update_rows q f xs)
update_rows-IsUniqueBy has_key q f xs same h k =
    omega (arith, count_rows-update_rows (has_key k) q f xs (same k), h k)
