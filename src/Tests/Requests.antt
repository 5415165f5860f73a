-- ===== src/Tests/Requests.antt =====
-- Requests for pages of sample hits.
use cindex.Prelude.{ℕ, ◌≡◌, ◌≤◌, refl, arith, none, some, List, [], ◌∷◌, length, codes}
use cindex.Prelude.Int.{ℤ, pos}
use cindex.Go.Floats.{ceil, div, float, round, rounded, nearest, coarse, fine}
use cindex.Domain.SearchJob.{SearchHit}
use cindex.Go.Strings.{trim_space}
use cindex.Go.Unicode.{byte_len}
use cindex.Httpapi.Validation.{
  validate_pagination, validate_job_create, validate_query, validate_expression, validate_years,
  validate_year, validate_sort_by,
}
use cindex.Httpapi.Pages.{paginate_hits, page_start, page_end, wrap, slice_page, slice, page_params}
use cindex.Httpapi.Pages.Partition.{pages_up_to, pages_up_to-total}
use cindex.Httpapi.Pages.Overflow.{paginate_hits-none}
use cindex.Httpapi.Pages.Params.{page_params-bounds}

abbrev hit : ℕ → SearchHit
hit id = record {
  id = id;
  title = codes "On sets";
  year = none;
  journal = [];
  doi = [];
  authors = [];
  quotes = [];
  tldr = [];
}

abbrev three_hits : List SearchHit
three_hits = hit 1 ∷ hit 2 ∷ hit 3 ∷ []

pages_up_to-total_example :
    pages_up_to three_hits 2 (paginate_hits three_hits 1 2).1.total_pages ≡ three_hits
pages_up_to-total_example = pages_up_to-total three_hits 2 (omega arith) (omega arith) (omega arith)

-- Three hits make two pages of two. Beyond 2^53 a float64 skips numbers.
two_pages : ceil (div (float 3) (float 2)) ≡ 2
unfolding ceil div float round rounded nearest coarse fine
two_pages = refl

skipped : ceil (div (float 9007199254740993) (float 1)) ≡ 9007199254740992
unfolding ceil div float round rounded nearest coarse fine
skipped = refl

last_page : (paginate_hits three_hits 2 2).0 ≡ some (hit 3 ∷ [])
unfolding paginate_hits page_start page_end wrap slice_page slice
last_page = refl

paginate_hits-none_example :
    (validate_pagination (some (pos 4611686018427387904)) (some (pos 4)) ≡ [])
    × ((paginate_hits three_hits 4611686018427387904 4).0 ≡ none)
paginate_hits-none_example =
    paginate_hits-none three_hits 4611686018427387904 4 (omega arith) (omega arith) (omega arith)
      (omega arith) (omega arith)

page_params-bounds_example :
    (1 ≤ (page_params (some (pos 3)) none).0)
    × (1 ≤ (page_params (some (pos 3)) none).1)
    × ((page_params (some (pos 3)) none).1 ≤ 50)
    × ((p n : ℤ)
        → some (pos 3) ≡ some p
        → none ≡ some n
        → validate_pagination (some (pos 3)) none ≡ []
        → (p ≡ pos (page_params (some (pos 3)) none).0)
          × (n ≡ pos (page_params (some (pos 3)) none).1))
page_params-bounds_example = page_params-bounds (some (pos 3)) none

-- A blank query and a year of five digits.
two_items : length (validate_job_create (codes " ") [] (some (pos 10000)) none none) ≡ 2
unfolding validate_job_create validate_query validate_expression validate_years validate_year
    validate_sort_by trim_space codes byte_len
two_items = refl
