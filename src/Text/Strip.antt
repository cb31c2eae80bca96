-- ===== src/Text/Strip.antt =====
-- `strip` and `lower` together: a text that went through both is left as it is by both.
use core_desappsii.Base.{ℕ, ◌≡◌, refl, ap, ◌∙◌, [], ◌∷◌, arith, is_empty, Bool-cases, inl, inr}
use core_desappsii.Text.{Text, strip, lstrip, rstrip, lower, lower_code, is_space, lower-lower}

is_space-lower_code : (c : ℕ) → is_space (lower_code c) ≡ is_space c
unfolding is_space lower_code
is_space-lower_code c = ground arith

lstrip-lower : (s : Text) → lstrip (lower s) ≡ lower (lstrip s)
unfolding lstrip lower
lstrip-lower [] = refl
lstrip-lower (c ∷ cs) = ground (arith, is_space-lower_code c, lstrip-lower cs)

is_empty-lower : (s : Text) → is_empty (lower s) ≡ is_empty s
unfolding lower
is_empty-lower [] = refl
is_empty-lower (c ∷ cs) = refl

rstrip-lower : (s : Text) → rstrip (lower s) ≡ lower (rstrip s)
unfolding rstrip lower
rstrip-lower [] = refl
rstrip-lower (c ∷ cs) =
    rw (rstrip-lower cs, is_space-lower_code c, is_empty-lower (rstrip cs)) (ground arith)

rstrip-rstrip : (s : Text) → rstrip (rstrip s) ≡ rstrip s
unfolding rstrip
rstrip-rstrip [] = refl
rstrip-rstrip (c ∷ cs) = ground (arith, rstrip-rstrip cs)

lstrip-strip : (s : Text) → lstrip (rstrip (lstrip s)) ≡ rstrip (lstrip s)
unfolding lstrip rstrip
lstrip-strip [] = refl
lstrip-strip (c ∷ cs) = elim (Bool-cases (is_space c)) [
  | inl e ↦ rw e (lstrip-strip cs)
  | inr e ↦ simp e
]

-- What `.strip().lower()` gives is not changed by it.
pub normal_lem : (s : Text) → lower (strip (lower (strip s))) ≡ lower (strip s)
unfolding strip
normal_lem s =
    ap (λ t. lower (rstrip t)) (lstrip-lower (rstrip (lstrip s)))
    ∙ ap lower (rstrip-lower (lstrip (rstrip (lstrip s))))
    ∙ lower-lower (rstrip (lstrip (rstrip (lstrip s))))
    ∙ ap (λ t. lower (rstrip t)) (lstrip-strip s)
    ∙ ap lower (rstrip-rstrip (lstrip s))
