-- ===== src/Httpapi/Pages/Params.antt =====
-- The page and the page size that a request gets.
use cindex.Prelude.{◌≡◌, ◌≤◌, Option, some, [], arith}
use cindex.Prelude.Int.{ℤ, pos}
use cindex.Httpapi.Validation.{validate_pagination, validate_page, validate_per_page}
use cindex.Httpapi.Pages.{page_params}

-- The page is at least 1 and its size from 1 to 50, whatever the request says; and the numbers of a
-- request without errors are kept as they are.
pub page_params-bounds :
    (page per_page : Option ℤ)
    → (1 ≤ (page_params page per_page).0)
      × (1 ≤ (page_params page per_page).1)
      × ((page_params page per_page).1 ≤ 50)
      × ((p n : ℤ)
          → page ≡ some p
          → per_page ≡ some n
          → validate_pagination page per_page ≡ []
          → (p ≡ pos (page_params page per_page).0) × (n ≡ pos (page_params page per_page).1))
unfolding page_params validate_pagination validate_page validate_per_page
page_params-bounds page per_page =
    (ground arith, ground arith, ground arith, λ p n e f v. (ground arith, ground arith))
