-- ===== src/Repositories/Paging.antt =====
-- backend/app/repositories/base.py: `Page` and `paginate`, over the rows that the statement selects, in
-- its order. A page number and a size of the caller are integers: one below 1 counts as 1.
pub mod Cover
use core_desappsii.Base.{
  ℕ, zero, suc, ◌+◌, ◌-◌, ◌*◌, ◌/◌, min, max, Bool, List, length, take, drop, ltb, ◌==◌,
  if◌then◌else◌,
}
use core_desappsii.Base.Integers.{ℤ, pos, negsuc}

pub record Page {ℓ} (A : Type ℓ) : Type ℓ where
  pub items : List A
  pub total : ℕ
  pub page : ℕ
  pub size : ℕ

-- `Page.pages`: the quotient, rounded up. The source divides in floating point, which is exact for
-- any number of rows that a table has.
unfoldable pub pages {ℓ} : {A : Type ℓ} → Page A → ℕ
pages p = if p.size == 0 then 0 else (p.total + (p.size - 1)) / p.size

abbrev pub max_page_size : ℕ
max_page_size = 200

-- `max(n, 1)`
unfoldable pub at_least_one : ℤ → ℕ
at_least_one (pos n) = max n 1
at_least_one (negsuc n) = 1

-- `paginate`
unfoldable pub paginate {ℓ} : {A : Type ℓ} → List A → (page size : ℤ) → Page A
unfolding at_least_one
paginate rows page size =
    let page' = at_least_one page in
    let size' = min (at_least_one size) max_page_size in
    record {
      items = take size' (drop ((page' - 1) * size') rows);
      total = length rows;
      page = page';
      size = size';
    }
