-- ===== src/Catalog/Slugs.antt =====
-- A code is a slug: words of small letters and digits with single hyphens between them, which
-- neither `strip` nor `lower` changes.
use core_desappsii.Base.{
  ℕ, ◌≡◌, refl, Bool, true, false, ◌||◌, [], ◌∷◌, ◌++◌, ◌==◌, Bool-cases, inl, inr, ◌↔◌, subst,
  arith, if◌then◌else◌, is_empty,
}
use core_desappsii.Text.{Text, strip, lstrip, rstrip, is_space, lower, lower_code}
use core_desappsii.Errors.{Result, ok, err, validation}
use core_desappsii.Catalog.{is_slug, is_slug_char, matches_from, normalizar_codigo, lookup_key}

matches_from-lower : (must : Bool) (s : Text) → matches_from must s ≡ true → lower s ≡ s
unfolding matches_from lower lower_code
matches_from-lower must [] h = refl
matches_from-lower must (c ∷ cs) h =
    ground (arith, matches_from-lower true cs, matches_from-lower false cs)

is_slug_char-is_space : (c : ℕ) → (is_slug_char c || c == 45) ≡ true → is_space c ≡ false
unfolding is_space
is_slug_char-is_space c h = ground arith

-- The first character of a match, and the rest of it.
matches_from-head :
    (must : Bool) (c : ℕ) (cs : Text) → matches_from must (c ∷ cs) ≡ true → is_space c ≡ false
unfolding matches_from
matches_from-head must c cs h = is_slug_char-is_space c (ground arith)

matches_from-tail :
    (must : Bool) (c : ℕ) (cs : Text)
    → matches_from must (c ∷ cs) ≡ true
    → (b : Bool) × (matches_from b cs ≡ true)
unfolding matches_from
matches_from-tail must c cs h = elim (Bool-cases (is_slug_char c)) [
  | inl e ↦ (false, ground arith)
  | inr e ↦ (true, ground arith)
]

matches_from-rstrip : (must : Bool) (s : Text) → matches_from must s ≡ true → rstrip s ≡ s
unfolding rstrip
matches_from-rstrip must [] h = refl
matches_from-rstrip must (c ∷ cs) h =
    let (b, k) = matches_from-tail must c cs h in
    rw (matches_from-head must c cs h, matches_from-rstrip b cs k) refl

matches_from-lstrip : (s : Text) → matches_from true s ≡ true → lstrip s ≡ s
unfolding lstrip
matches_from-lstrip [] h = refl
matches_from-lstrip (c ∷ cs) h = rw (matches_from-head true c cs h) refl

pub lookup_key-is_slug : (s : Text) → is_slug s ≡ true → lookup_key s ≡ s
unfolding lookup_key is_slug
lookup_key-is_slug s h =
    rw (matches_from-lstrip s h, matches_from-rstrip true s h) (matches_from-lower true s h)

-- The grammar of the codes.
pub data Word : Text → Type 0 where
  one : {c : ℕ} → is_slug_char c ≡ true → Word (c ∷ [])
  more : {c : ℕ} {w : Text} → is_slug_char c ≡ true → Word w → Word (c ∷ w)

pub data Slug : Text → Type 0 where
  word : {w : Text} → Word w → Slug w
  hyphen : {w s : Text} → Word w → Slug s → Slug (w ++ 45 ∷ s)

Word-matches_from : {w : Text} (must : Bool) → Word w → matches_from must w ≡ true
unfolding matches_from
Word-matches_from must (one e) = rw e refl
Word-matches_from must (more e w) = rw e (Word-matches_from false w)

Word-hyphen :
    {w : Text} (s : Text) (must : Bool)
    → Word w
    → matches_from true s ≡ true
    → matches_from must (w ++ 45 ∷ s) ≡ true
unfolding matches_from
Word-hyphen s must (one e) h = rw e h
Word-hyphen s must (more e w) h = rw e (Word-hyphen s false w h)

Slug-is_slug : {s : Text} → Slug s → is_slug s ≡ true
unfolding is_slug
Slug-is_slug (word w) = Word-matches_from true w
Slug-is_slug (hyphen {s} w t) = Word-hyphen s true w (Slug-is_slug t)

Slug-more : {c : ℕ} {s : Text} → is_slug_char c ≡ true → Slug s → Slug (c ∷ s)
Slug-more e (word w) = word (more e w)
Slug-more e (hyphen w t) = hyphen (more e w) t

-- What follows a character of a word, with that character in front.
Slug-after : (c : ℕ) (s : Text) → is_slug_char c ≡ true → matches_from false s ≡ true → Slug (c ∷ s)
unfolding matches_from
Slug-after c [] e h = word (one e)
Slug-after c (d ∷ []) e h = elim (Bool-cases (is_slug_char d)) [
  | inl f ↦ word (more e (one f))
  | inr f ↦ absurd (ground arith)
]
Slug-after c (d ∷ (k ∷ ks)) e h = elim (Bool-cases (is_slug_char d)) [
  | inl f ↦ Slug-more e (Slug-after d (k ∷ ks) f (ground arith))
  | inr f ↦
      subst (λ n. Slug (c ∷ n ∷ k ∷ ks)) (ground arith)
        (hyphen (one e) (Slug-after k ks (ground arith) (ground arith)))
]

is_slug-Slug : (s : Text) → is_slug s ≡ true → Slug s
unfolding is_slug matches_from
is_slug-Slug [] h = absurd (ground arith)
is_slug-Slug (c ∷ cs) h = Slug-after c cs (ground arith) (ground arith)

is_slug-is_empty : (s : Text) → is_slug s ≡ true → is_empty s ≡ false
unfolding is_slug matches_from
is_slug-is_empty [] h = cc
is_slug-is_empty (c ∷ cs) h = refl

checked_ok :
    (empty slug : Bool) (s codigo : Text)
    → ◌≡◌ {A = Result Text}
        (if empty then err validation else if slug then ok s else err validation)
        (ok codigo)
    → (s ≡ codigo) × (slug ≡ true)
checked_ok true slug s codigo h = absurd (cc h)
checked_ok false true s codigo h = (cc h, refl)
checked_ok false false s codigo h = absurd (cc h)

-- What `normalizar_codigo` returns is what `strip` leaves, and a slug.
pub normalizar_codigo-is_slug :
    (valor codigo : Text)
    → ◌≡◌ {A = Result Text} (normalizar_codigo valor) (ok codigo)
    → (strip valor ≡ codigo) × (is_slug codigo ≡ true)
unfolding normalizar_codigo
normalizar_codigo-is_slug valor codigo h =
    let (e, k) =
      checked_ok (is_empty (strip valor)) (is_slug (strip valor)) (strip valor) codigo h in
    (e, subst (λ s. is_slug s ≡ true) e k)

-- `normalizar_codigo` accepts a text exactly when what `strip` leaves of it is a slug, and returns
-- that: words of small letters and digits with single hyphens between them.
pub normalizar_codigo-Slug :
    (valor codigo : Text)
    → (◌≡◌ {A = Result Text} (normalizar_codigo valor) (ok codigo))
      ↔ ((strip valor ≡ codigo) × Slug codigo)
unfolding normalizar_codigo
normalizar_codigo-Slug valor codigo = (
  λ h. let (e, k) = normalizar_codigo-is_slug valor codigo h in (e, is_slug-Slug codigo k),
  λ w. rw (w.0, Slug-is_slug w.1, is_slug-is_empty codigo (Slug-is_slug w.1)) refl,
)
