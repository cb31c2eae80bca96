-- ===== src/Stats/Words/Split.antt =====
-- What `_split_camel` keeps of a name.
use mathlib.Core.List.{append-nil, append_assoc}
use core_desappsii.Base.{
  ◌≡◌, refl, ap, ◌∙◌, sym, Bool, true, false, ◌&&◌, not, List, [], ◌∷◌, ◌++◌, All, is_empty,
  filterb, if◌then◌else◌,
}
use core_desappsii.Text.{Text, lower, lower_code}
use core_desappsii.Stats.Words.{split_from, split_camel, is_upper}

-- `"".join(words)`
unfoldable pub join : List Text → Text
join [] = []
join (w ∷ ws) = w ++ join ws

lower-append : (a b : Text) → lower (a ++ b) ≡ lower a ++ lower b
unfolding lower
lower-append [] b = refl
lower-append (c ∷ cs) b = ap (λ l. lower_code c ∷ l) (lower-append cs b)

-- The filter of `_split_camel` drops nothing but empty words.
join-filterb : (ws : List Text) → join (filterb (λ w. not (is_empty w)) ws) ≡ join ws
unfolding join
join-filterb [] = refl
join-filterb ([] ∷ ws) = join-filterb ws
join-filterb ((c ∷ cs) ∷ ws) = ap (λ l. (c ∷ cs) ++ l) (join-filterb ws)

join-split_from : (current name : Text) → join (split_from current name) ≡ lower (current ++ name)
unfolding join split_from lower
join-split_from [] [] = refl
join-split_from (c ∷ cs) [] = append-nil (lower (c ∷ cs)) ∙ ap lower (sym (append-nil (c ∷ cs)))
join-split_from current (c ∷ cs) =
    join-if (lower current ∷ split_from (c ∷ []) cs) (split_from (current ++ c ∷ []) cs)
      (is_upper c && not (is_empty current))
      (lower-append current (c ∷ cs)
        ∙ ap (λ l. lower current ++ l) (sym (join-split_from (c ∷ []) cs)))
      (join-split_from (current ++ c ∷ []) cs ∙ ap lower (append_assoc current (c ∷ []) cs))
  where
    join-if :
        (xs ys : List Text) {t : Text} (b : Bool)
        → t ≡ join xs
        → join ys ≡ t
        → join (if b then xs else ys) ≡ t
    join-if xs ys true e f = sym e
    join-if xs ys false e f = f

-- No empty word.
abbrev pub IsWord : Text → Type 0
IsWord w = is_empty w ≡ false

filterb-IsWord : (ws : List Text) → All IsWord (filterb (λ w. not (is_empty w)) ws)
filterb-IsWord [] = tt
filterb-IsWord ([] ∷ ws) = filterb-IsWord ws
filterb-IsWord ((c ∷ cs) ∷ ws) = (refl, filterb-IsWord ws)

-- The words that `_split_camel` makes of a name are not empty and, one after the other, spell the
-- name in lower case: no character is lost or moved.
pub join-split_camel :
    (name : Text) → (join (split_camel name) ≡ lower name) × All IsWord (split_camel name)
unfolding split_camel
join-split_camel name = (
  join-filterb (split_from [] name) ∙ join-split_from [] name,
  filterb-IsWord (split_from [] name),
)
