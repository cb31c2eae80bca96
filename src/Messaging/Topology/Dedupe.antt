-- ===== src/Messaging/Topology/Dedupe.antt =====
-- `_dedupe`, generic in the test that two entries have one key, and the sorted list of a set of names.
use core_desappsii.Base.{
  inl, inr, Bool, List, [], ◌∷◌, ◌++◌, if◌then◌else◌, any, In, head, tail, Bool-cases,
}
use core_desappsii.Text.{Text, text_eq, text_le, text_eq-eq}

module _ {ℓ} {A : Type ℓ} (same : A → A → Bool) where
  -- The loop of `_dedupe`: `out` is what it returns so far, whose keys are the set `seen`.
  unfoldable pub dedupe_from : List A → List A → List A
  dedupe_from out [] = out
  dedupe_from out (x ∷ xs) = dedupe_from (if any (λ y. same x y) out then out else out ++ x ∷ []) xs

  unfoldable pub dedupe : List A → List A
  unfolding dedupe_from
  dedupe items = dedupe_from [] items

-- Insertion in order, once.
unfoldable pub insert_name : Text → List Text → List Text
insert_name a [] = a ∷ []
insert_name a (x ∷ xs) =
    if text_eq a x then x ∷ xs else if text_le a x then a ∷ x ∷ xs else x ∷ insert_name a xs

unfoldable pub sorted_set : List Text → List Text
unfolding insert_name
sorted_set [] = []
sorted_set (a ∷ names) = insert_name a (sorted_set names)

-- A name is in the sorted set exactly when it is in the list.
pub In-insert_name_self : (a : Text) (xs : List Text) → In a (insert_name a xs)
unfolding insert_name
In-insert_name_self a [] = head
In-insert_name_self a (x ∷ xs) = elim (Bool-cases (text_eq a x)) [
  | inl e ↦ rw e (rw (text_eq-eq a x e) head)
  | inr e ↦ rw e (elim (Bool-cases (text_le a x)) [
    | inl l ↦ rw l head
    | inr l ↦ rw l (tail (In-insert_name_self a xs))
  ])
]

In-cons_mono :
    (b x : Text) (xs ys : List Text) → (In b xs → In b ys) → In b (x ∷ xs) → In b (x ∷ ys)
In-cons_mono b x xs ys f head = head
In-cons_mono b x xs ys f (tail m) = tail (f m)

pub In-insert_name : (a b : Text) (xs : List Text) → In b xs → In b (insert_name a xs)
unfolding insert_name
In-insert_name a b [] m = elim m [ ]
In-insert_name a b (x ∷ xs) m = elim (Bool-cases (text_eq a x)) [
  | inl e ↦ rw e m
  | inr e ↦ rw e (elim (Bool-cases (text_le a x)) [
    | inl l ↦ rw l (tail m)
    | inr l ↦ rw l (In-cons_mono b x xs (insert_name a xs) (In-insert_name a b xs) m)
  ])
]

pub In-sorted_set : (b : Text) (names : List Text) → In b names → In b (sorted_set names)
unfolding sorted_set
In-sorted_set b (a ∷ names) head = In-insert_name_self b (sorted_set names)
In-sorted_set b (a ∷ names) (tail m) =
    In-insert_name a b (sorted_set names) (In-sorted_set b names m)
In-sorted_set b [] m = elim m [ ]
