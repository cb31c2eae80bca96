-- ===== src/Repositories/Paging/Cover.antt =====
-- The pages of a listing, one after the other, are the listing.
use native.Mathlib.Nat.{mod-lt, div-add-mod', suc-mul}
use core_desappsii.Base.{
  ℕ, zero, suc, ◌+◌, ◌-◌, ◌*◌, ◌/◌, ◌≤◌, ◌<◌, min, max, ◌≡◌, refl, ap, sym, ◌∙◌, List, [], ◌∷◌,
  ◌++◌, length, take, drop, arith, length-take, if◌then◌else◌, ◌==◌,
}
use core_desappsii.Base.Integers.{ℤ, pos, negsuc}
use core_desappsii.Base.Selections.{take_all}
use core_desappsii.Repositories.Paging.{pages, paginate, at_least_one, max_page_size}

-- The size that a page has for a size asked for.
abbrev page_size : ℤ → ℕ
page_size size = min (at_least_one size) max_page_size

page_size_bounds : (size : ℤ) → (0 < page_size size) × (page_size size ≤ 200)
unfolding at_least_one
page_size_bounds (pos n) = omega arith
page_size_bounds (negsuc n) = omega arith

offset : (n : ℕ) → max (suc n) 1 - 1 ≡ n
offset n = omega arith

module _ {ℓ} {A : Type ℓ} where
  take_nil : (n : ℕ) → take {A = A} n [] ≡ []
  take_nil zero = refl
  take_nil (suc n) = refl

  take_at : (m n : ℕ) (xs : List A) → m ≡ n → take m xs ≡ take n xs
  take_at m n xs e = ap (λ k. take k xs) e

  take-drop : (m n : ℕ) (xs : List A) → take m xs ++ take n (drop m xs) ≡ take (m + n) xs
  take-drop zero n xs = take_at n (zero + n) xs (omega arith)
  take-drop (suc m) n [] = take_nil n ∙ sym (take_nil (suc m + n))
  take-drop (suc m) n (x ∷ xs) =
      ap (λ l. x ∷ l) (take-drop m n xs) ∙ take_at (suc (m + n)) (suc m + n) (x ∷ xs) (omega arith)

  -- The items of the first `n` pages, as a client reads them.
  unfoldable pub first_pages : List A → ℤ → ℕ → List A
  unfolding paginate
  first_pages rows size zero = []
  first_pages rows size (suc n) =
      first_pages rows size n ++ (paginate rows (pos (suc n)) size).items

  first_pages_lem :
      (rows : List A) (size : ℤ) (n : ℕ) → first_pages rows size n ≡ take (n * page_size size) rows
  unfolding first_pages paginate
  first_pages_lem rows size zero = take_at 0 (0 * page_size size) rows (omega arith)
  first_pages_lem rows size (suc n) =
      let s = page_size size in
      rw (first_pages_lem rows size n, offset n)
        (take-drop (n * s) s rows
          ∙ take_at (n * s + s) (suc n * s) rows (omega (arith, suc-mul n s)))

-- Rounded up, the quotient reaches the whole.
pages_reach : (total size : ℕ) → 0 < size → total ≤ (total + (size - 1)) / size * size
pages_reach total size h =
    omega (arith, div-add-mod' (total + (size - 1)) size, mod-lt (total + (size - 1)) {m = size} h)

pages_positive :
    (total size : ℕ)
    → 0 < size
    → (if size == 0 then 0 else (total + (size - 1)) / size) ≡ (total + (size - 1)) / size
pages_positive total zero h = absurd (omega arith)
pages_positive total (suc n) h = ground arith

-- The pages of a listing, read one after the other up to the number that `Page.pages` gives, are the
-- listing: no row is skipped or shown twice, whatever size is asked for. A page has at most 200 items.
pub paginate-pages {ℓ} :
    {A : Type ℓ} (rows : List A) (page size : ℤ)
    → (first_pages rows size (pages (paginate rows page size)) ≡ rows)
      × (length (paginate rows page size).items ≤ 200)
unfolding paginate pages
paginate-pages rows page size =
    let (low, high) = page_size_bounds size in
    (
      first_pages_lem rows size (pages (paginate rows page size))
          ∙ take_all (pages (paginate rows page size) * page_size size) rows (
              rw (pages_positive (length rows) (page_size size) low)
                (pages_reach (length rows) (page_size size) low)),
      omega (
        arith,
        high,
        length-take (page_size size) (drop ((at_least_one page - 1) * page_size size) rows),
      ),
    )
