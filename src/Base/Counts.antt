-- ===== src/Base/Counts.antt =====
-- Dictionaries by key: `select(key, count()).group_by(key)` as a list of keys with their counts, and
-- `d.setdefault(key, []).append(x)`. The order of the entries is the order of the first keys.
use Prim.Native.Nat.{ℕ, ◌+◌}
use mathlib.Core.Path.{◌≡◌, refl, sym, ◌∙◌, ap}
use mathlib.Core.Logic.{inl, inr}
use mathlib.Core.Bool.{Bool, true, false}
use mathlib.Core.List.{List, [], ◌∷◌, ◌++◌, append-nil, append_assoc}
use native.Mathlib.Omega.{arith}
use core_desappsii.Base.Tests.{if◌then◌else◌, Bool-cases}
use core_desappsii.Base.Lists.{length}
use core_desappsii.Base.Tables.{count_rows}

module _ {ℓ} {A : Type ℓ} (eq : A → A → Bool) where
  unfoldable pub bump : A → List (A × ℕ) → List (A × ℕ)
  bump k [] = (k, 1) ∷ []
  bump k ((x, n) ∷ rest) = if eq x k then (x, n + 1) ∷ rest else (x, n) ∷ bump k rest

  unfoldable pub group_count : List A → List (A × ℕ)
  unfolding bump
  group_count [] = []
  group_count (x ∷ xs) = bump x (group_count xs)

  -- `d.get(key, 0)`
  unfoldable pub get_count : A → List (A × ℕ) → ℕ
  get_count k [] = 0
  get_count k ((x, n) ∷ rest) = if eq x k then n else get_count k rest

-- `sum(d.values())`
unfoldable pub sum_values {ℓ} : {A : Type ℓ} → List (A × ℕ) → ℕ
sum_values [] = 0
sum_values ((x, n) ∷ rest) = n + sum_values rest

module _ {ℓ κ} {A : Type ℓ} {B : Type κ} (eq : A → A → Bool) where
  unfoldable pub append_to : A → B → List (A × List B) → List (A × List B)
  append_to k b [] = (k, b ∷ []) ∷ []
  append_to k b ((x, bs) ∷ rest) =
      if eq x k then (x, bs ++ b ∷ []) ∷ rest else (x, bs) ∷ append_to k b rest

  -- `d.get(key, [])`
  unfoldable pub get_list : A → List (A × List B) → List B
  get_list k [] = []
  get_list k ((x, bs) ∷ rest) = if eq x k then bs else get_list k rest

  -- The loop that fills the dictionary.
  unfoldable pub group_lists : List (A × B) → List (A × List B) → List (A × List B)
  unfolding append_to
  group_lists [] dict = dict
  group_lists ((k, b) ∷ rest) dict = group_lists rest (append_to k b dict)

  -- The values that are filed under a key.
  unfoldable pub values_of : A → List (A × B) → List B
  values_of k [] = []
  values_of k ((x, b) ∷ rest) = if eq x k then b ∷ values_of k rest else values_of k rest

module _ {ℓ} {A : Type ℓ} (eq : A → A → Bool) where
  sum_values-bump : (k : A) (d : List (A × ℕ)) → sum_values (bump eq k d) ≡ sum_values d + 1
  unfolding sum_values bump
  sum_values-bump k [] = refl
  sum_values-bump k ((x, n) ∷ rest) = ground (arith, sum_values-bump k rest)

  -- The counts of the groups add up to the number of rows.
  pub sum_values-group_count : (xs : List A) → sum_values (group_count eq xs) ≡ length xs
  unfolding sum_values group_count
  sum_values-group_count [] = refl
  sum_values-group_count (x ∷ xs) =
      omega (arith, sum_values-bump x (group_count eq xs), sum_values-group_count xs)

module _ {ℓ} {A : Type ℓ} (eq : A → A → Bool) (eq-eq : (a b : A) → eq a b ≡ true → a ≡ b)
    (eq_refl : (a : A) → eq a a ≡ true) where
  -- Which of three keys are equal.
  data Keys (x j k : A) : Type ℓ where
    met : eq x j ≡ true → eq x k ≡ eq j k → Keys x j k
    passed : eq x j ≡ false → eq x k ≡ false → Keys x j k
    other : eq x j ≡ false → eq x k ≡ true → eq j k ≡ false → Keys x j k

  Keys-cases : (x j k : A) → Keys x j k
  Keys-cases x j k = elim (Bool-cases (eq x j)) [
    | inl e ↦ met e (ap (λ a. eq a k) (eq-eq x j e))
    | inr e ↦ elim (Bool-cases (eq x k)) [
      | inr f ↦ passed e f
      | inl f ↦ elim (Bool-cases (eq j k)) [
        | inr g ↦ other e f g
        | inl g ↦ absurd (cc (eq_refl j, ap (λ a. eq a j) (eq-eq j k g ∙ sym (eq-eq x k f)), e))
      ]
    ]
  ]

  get_count-bump :
      (k j : A) (d : List (A × ℕ))
      → get_count eq k (bump eq j d) ≡ (if eq j k then get_count eq k d + 1 else get_count eq k d)
  unfolding get_count bump
  get_count-bump k j [] = refl
  get_count-bump k j ((x, n) ∷ rest) = elim (Keys-cases x j k) [
    | met e f ↦ rw (e, f) (ground arith)
    | passed e f ↦ rw (e, f) (get_count-bump k j rest)
    | other e f g ↦ rw (e, f, g) refl
  ]

  -- The group of a key counts the rows that have it.
  pub get_count-group_count :
      (k : A) (xs : List A) → get_count eq k (group_count eq xs) ≡ count_rows (λ x. eq x k) xs
  unfolding get_count group_count
  get_count-group_count k [] = refl
  get_count-group_count k (x ∷ xs) =
      ground (arith, get_count-bump k x (group_count eq xs), get_count-group_count k xs)

  get_list-append_to {κ} :
      {B : Type κ} (k j : A) (b : B) (d : List (A × List B))
      → get_list eq k (append_to eq j b d)
        ≡ (if eq j k then get_list eq k d ++ b ∷ [] else get_list eq k d)
  unfolding get_list append_to
  get_list-append_to k j b [] = refl
  get_list-append_to k j b ((x, bs) ∷ rest) = elim (Keys-cases x j k) [
    | met e f ↦ rw (e, f) (two_cases (eq j k))
    | passed e f ↦ rw (e, f) (get_list-append_to k j b rest)
    | other e f g ↦ rw (e, f, g) refl
  ]
    where
      two_cases :
          (t : Bool)
          → (if t then bs ++ b ∷ [] else get_list eq k rest) ≡ (
              if t
              then (if t then bs else get_list eq k rest) ++ b ∷ []
              else (if t then bs else get_list eq k rest))
      two_cases true = refl
      two_cases false = refl

  -- A key's list holds what is filed under it, in order.
  pub get_list-group_lists {κ} :
      {B : Type κ} (k : A) (xs : List (A × B)) (d : List (A × List B))
      → get_list eq k (group_lists eq xs d) ≡ get_list eq k d ++ values_of eq k xs
  unfolding group_lists values_of
  get_list-group_lists k [] d = sym (append-nil (get_list eq k d))
  get_list-group_lists k ((j, b) ∷ rest) d =
      get_list-group_lists k rest (append_to eq j b d)
      ∙ ap (λ l. l ++ values_of eq k rest) (get_list-append_to k j b d)
      ∙ filed (eq j k)
    where
      filed :
          (t : Bool)
          → (if t then get_list eq k d ++ b ∷ [] else get_list eq k d) ++ values_of eq k rest
            ≡ get_list eq k d ++ (if t then b ∷ values_of eq k rest else values_of eq k rest)
      filed true = append_assoc (get_list eq k d) (b ∷ []) (values_of eq k rest)
      filed false = refl
