-- ===== src/Stats/Words.antt =====
-- backend/app/services/stats_service.py, `_split_camel` and `_is_near_duplicate`: the words of a
-- name in camelCase, and the test for two names that are nearly the same. `isupper` is that of
-- Python on ASCII and Latin-1.
pub mod Split
pub mod Order
pub mod Similar
use core_desappsii.Base.{
  ℕ, ◌-◌, min, Bool, true, false, ◌&&◌, ◌||◌, not, List, [], ◌∷◌, ◌++◌, length, leb, ◌==◌,
  if◌then◌else◌, is_empty, filterb,
}
use core_desappsii.Text.{Text, lower, text_eq, text_le}
use core_desappsii.Stats.Distance.{edit_distance_at_most}

unfoldable pub is_upper : ℕ → Bool
is_upper c = (leb 65 c && leb c 90) || (leb 0xc0 c && leb c 0xde && not (c == 0xd7))

-- The loop of `_split_camel` with its `current`, and the last word after it.
unfoldable pub split_from : Text → Text → List Text
unfolding is_upper
split_from current [] = if is_empty current then [] else lower current ∷ []
split_from current (char ∷ rest) =
    let cut = split_from (char ∷ []) rest in
    let longer = split_from (current ++ char ∷ []) rest in
    if is_upper char && not (is_empty current) then lower current ∷ cut else longer

unfoldable pub split_camel : Text → List Text
unfolding split_from
split_camel name = filterb (λ w. not (is_empty w)) (split_from [] name)

-- `sorted` of a list of texts: the order of equal texts cannot be told.
unfoldable pub insert_text : Text → List Text → List Text
insert_text t [] = t ∷ []
insert_text t (x ∷ xs) = if text_le t x then t ∷ x ∷ xs else x ∷ insert_text t xs

unfoldable pub sorted : List Text → List Text
unfolding insert_text
sorted [] = []
sorted (x ∷ xs) = insert_text x (sorted xs)

unfoldable pub texts_eq : List Text → List Text → Bool
texts_eq [] [] = true
texts_eq [] (y ∷ ys) = false
texts_eq (x ∷ xs) [] = false
texts_eq (x ∷ xs) (y ∷ ys) = text_eq x y && texts_eq xs ys

-- `_is_near_duplicate`
unfoldable pub is_near_duplicate : Text → Text → Bool
unfolding split_camel sorted texts_eq
is_near_duplicate left right =
    let lower_left = lower left in
    let lower_right = lower right in
    if text_eq left right
    then false
    else if texts_eq (sorted (split_camel left)) (sorted (split_camel right))
    then true
    else if leb (length lower_left - length lower_right) 2
        && (leb (length lower_right - length lower_left) 2
            && leb 8 (min (length left) (length right)))
    then edit_distance_at_most lower_left lower_right 2
    else false
