-- ===== src/Stats/Words/Order.antt =====
-- `sorted` on texts does not depend on the order of its argument.
use core_desappsii.Base.{
  ap, ◌∙◌, Bool-cases, inl, inr, ◌≡◌, refl, true, false, List, [], ◌∷◌, arith,
}
use core_desappsii.Text.{Text, text_eq, text_eq_refl, text_eq-eq, text_le}
use mathlib.Core.List.{Permᴰ}
use mathlib.Core.List.Permᴰ
use core_desappsii.Stats.Words.{insert_text, sorted, texts_eq}

pub text_eq_comm : (a b : Text) → text_eq a b ≡ text_eq b a
unfolding text_eq
text_eq_comm [] [] = refl
text_eq_comm [] (y ∷ ys) = refl
text_eq_comm (x ∷ xs) [] = refl
text_eq_comm (x ∷ xs) (y ∷ ys) = ground (arith, text_eq_comm xs ys)

pub texts_eq_comm : (a b : List Text) → texts_eq a b ≡ texts_eq b a
unfolding texts_eq
texts_eq_comm [] [] = refl
texts_eq_comm [] (y ∷ ys) = refl
texts_eq_comm (x ∷ xs) [] = refl
texts_eq_comm (x ∷ xs) (y ∷ ys) = rw (text_eq_comm x y, texts_eq_comm xs ys) refl

pub texts_eq_refl : (a : List Text) → texts_eq a a ≡ true
unfolding texts_eq
texts_eq_refl [] = refl
texts_eq_refl (x ∷ xs) = ground (arith, text_eq_refl x, texts_eq_refl xs)

-- `<=` on texts is a total order.
text_le_antisymm : (a b : Text) → text_le a b ≡ true → text_le b a ≡ true → a ≡ b
unfolding text_le
text_le_antisymm [] [] h k = refl
text_le_antisymm [] (y ∷ ys) h k = cc
text_le_antisymm (x ∷ xs) [] h k = cc
text_le_antisymm (x ∷ xs) (y ∷ ys) h k = ground (arith, text_le_antisymm xs ys)

text_le_total : (a b : Text) → text_le a b ≡ false → text_le b a ≡ true
unfolding text_le
text_le_total [] b h = cc
text_le_total (x ∷ xs) [] h = refl
text_le_total (x ∷ xs) (y ∷ ys) h = ground (arith, text_le_total xs ys)

text_le_trans : (a b c : Text) → text_le a b ≡ true → text_le b c ≡ true → text_le a c ≡ true
unfolding text_le
text_le_trans [] b c h k = refl
text_le_trans (x ∷ xs) [] c h k = cc
text_le_trans (x ∷ xs) (y ∷ ys) [] h k = cc
text_le_trans (x ∷ xs) (y ∷ ys) (z ∷ zs) h k = ground (arith, text_le_trans xs ys zs)

-- Two insertions may change places.
insert_text_comm :
    (a b : Text) (xs : List Text)
    → insert_text a (insert_text b xs) ≡ insert_text b (insert_text a xs)
unfolding insert_text
insert_text_comm a b [] = ground (arith, text_le_antisymm a b, text_le_total a b)
insert_text_comm a b (x ∷ xs) = ground (
  arith,
  insert_text_comm a b xs,
  text_le_antisymm a b,
  text_le_total a b,
  text_le_trans a b x,
  text_le_trans b a x,
  text_le_total a x,
  text_le_total b x,
)

pub insert_text-Permᴰ : (t : Text) (xs : List Text) → Permᴰ (insert_text t xs) (t ∷ xs)
unfolding insert_text
insert_text-Permᴰ t [] = Permᴰ.refl (t ∷ [])
insert_text-Permᴰ t (x ∷ xs) = elim (Bool-cases (text_le t x)) [
  | inl e ↦ rw e (Permᴰ.refl (t ∷ x ∷ xs))
  | inr e ↦ rw e (Permᴰ.trans (Permᴰ.cons refl (insert_text-Permᴰ t xs)) (Permᴰ.swap refl refl))
]

pub sorted-Permᴰ : (xs : List Text) → Permᴰ (sorted xs) xs
unfolding sorted
sorted-Permᴰ [] = Permᴰ.nil
sorted-Permᴰ (x ∷ xs) =
    Permᴰ.trans (insert_text-Permᴰ x (sorted xs)) (Permᴰ.cons refl (sorted-Permᴰ xs))

pub Permᴰ-sorted : {xs ys : List Text} → Permᴰ xs ys → sorted xs ≡ sorted ys
unfolding sorted
Permᴰ-sorted Permᴰ.nil = refl
Permᴰ-sorted (Permᴰ.cons {b} e p) = rw e (ap (insert_text b) (Permᴰ-sorted p))
Permᴰ-sorted (Permᴰ.swap {a} {b} {l} e f) = rw (← e, ← f) (insert_text_comm a b (sorted l))
Permᴰ-sorted (Permᴰ.trans p q) = Permᴰ-sorted p ∙ Permᴰ-sorted q

pub texts_eq-eq : (a b : List Text) → texts_eq a b ≡ true → a ≡ b
unfolding texts_eq
texts_eq-eq [] [] h = refl
texts_eq-eq [] (y ∷ ys) h = cc
texts_eq-eq (x ∷ xs) [] h = cc
texts_eq-eq (x ∷ xs) (y ∷ ys) h = ground (arith, text_eq-eq x y, texts_eq-eq xs ys)
