-- ===== src/Stats/Words/Similar.antt =====
-- When `_is_near_duplicate` calls two names nearly the same.
use mathlib.Core.List.{Permᴰ}
use mathlib.Core.List.Permᴰ
use core_desappsii.Base.{
  ℕ, ◌≤◌, ◌≡◌, refl, sym, subst, true, false, min, [], ◌∷◌, length, ◌↔◌, ◌⊎◌, inl, inr, Bool-cases,
  arith,
}
use core_desappsii.Text.{Text, lower, text_eq}
use core_desappsii.Stats.Distance.Alignments.{Alignment, Alignment-length}
use core_desappsii.Stats.Distance.Answer.{
  edit_distance_at_most-Alignment, edit_distance_at_most_comm,
}
use core_desappsii.Stats.Words.{split_camel, is_near_duplicate, sorted, texts_eq}
use core_desappsii.Stats.Words.Order.{
  text_eq_comm, texts_eq_comm, texts_eq_refl, texts_eq-eq, sorted-Permᴰ, Permᴰ-sorted,
}

-- The order of the names does not matter to `_is_near_duplicate`.
pub is_near_duplicate_comm :
    (left right : Text) → is_near_duplicate left right ≡ is_near_duplicate right left
unfolding is_near_duplicate
is_near_duplicate_comm left right = ground (
  arith,
  text_eq_comm left right,
  texts_eq_comm (sorted (split_camel left)) (sorted (split_camel right)),
  edit_distance_at_most_comm (lower left) (lower right) 2,
)

pub length-lower : (t : Text) → length (lower t) ≡ length t
unfolding lower
length-lower [] = refl
length-lower (c ∷ cs) = omega (arith, length-lower cs)

-- The same words in any order.
abbrev pub HasSameWords : Text → Text → Type 0
HasSameWords left right = Permᴰ (split_camel left) (split_camel right)

-- Two long names that an alignment with at most two edits relates, but for capitals.
abbrev pub IsTypo : Text → Text → Type 0
IsTypo left right =
    (8 ≤ min (length left) (length right))
    × ((n : ℕ) × (n ≤ 2)
        × Alignment (lower left) (lower right) (length (lower left)) (length (lower right)) n)

pub HasSameWords-sorted :
    (left right : Text)
    → texts_eq (sorted (split_camel left)) (sorted (split_camel right)) ≡ true
    → HasSameWords left right
HasSameWords-sorted left right h = Permᴰ.trans (Permᴰ.symm (sorted-Permᴰ (split_camel left))) (
    subst (λ ws. Permᴰ ws (split_camel right))
      (sym (texts_eq-eq (sorted (split_camel left)) (sorted (split_camel right)) h))
      (sorted-Permᴰ (split_camel right)))

pub sorted-HasSameWords :
    (left right : Text)
    → HasSameWords left right
    → texts_eq (sorted (split_camel left)) (sorted (split_camel right)) ≡ true
sorted-HasSameWords left right p = rw (Permᴰ-sorted p) (texts_eq_refl (sorted (split_camel right)))

-- `_is_near_duplicate` answers True exactly for two different names that have the same words in
-- some order, or that have at least 8 characters each and, in lower case, an alignment with at most
-- 2 edits, in which each character takes part in one edit at most.
pub is_near_duplicate_lem :
    (left right : Text)
    → (is_near_duplicate left right ≡ true)
      ↔ ((text_eq left right ≡ false) × (HasSameWords left right ⊎ IsTypo left right))
unfolding is_near_duplicate
is_near_duplicate_lem left right = (
  λ h. (
    ground arith,
    elim (Bool-cases (texts_eq (sorted (split_camel left)) (sorted (split_camel right)))) [
      | inl e ↦ inl (HasSameWords-sorted left right e)
      | inr e ↦ inr (
        ground arith,
        (edit_distance_at_most-Alignment (lower left) (lower right) 2).0 (ground arith),
      )
    ],
  ),
  λ w. elim w.1 [
    | inl p ↦ ground (arith, w.0, sorted-HasSameWords left right p)
    | inr t ↦ ground (
      arith,
      w.0,
      t.0,
      t.1.1,
      Alignment-length t.1.2,
      length-lower left,
      length-lower right,
      (edit_distance_at_most-Alignment (lower left) (lower right) 2).1 t.1,
    )
  ],
)
