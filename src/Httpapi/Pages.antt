-- ===== src/Httpapi/Pages.antt =====
-- `pageParams` and `paginateHits` of backend/internal/httpapi/search_handlers.go. An int has 64 bits:
-- products and sums wrap around. A slice out of range is a panic, here `none`.
pub mod Partition
pub mod Overflow
pub mod Params
use cindex.Prelude.{
  ℕ, suc, ◌+◌, ◌-◌, ◌*◌, ◌/◌, ◌%◌, Bool, true, false, Option, none, some, List, [], ◌∷◌, ltb, leb,
  ◌&&◌, if◌then◌else◌, length, take, drop,
}
use cindex.Prelude.Int.{ℤ, pos, negsuc, ltb_ℤ, pos_part}
use cindex.Go.Floats.{float, div, ceil}
use cindex.Domain.SearchJob.{SearchHit}

pub record Pagination : Type 0 where
  pub page : ℕ
  pub per_page : ℕ
  pub total_pages : ℕ
  pub total_results : ℕ

-- An int with the bits of a number.
unfoldable pub wrap : ℕ → ℤ
wrap n =
    let bits = n % 18446744073709551616 in
    if ltb bits 9223372036854775808 then pos bits else negsuc (18446744073709551615 - bits)

abbrev pub at_most : ℕ → ℕ → ℕ
at_most bound n = if ltb bound n then bound else n

-- hits[start:end]
unfoldable pub slice : List SearchHit → ℕ → ℕ → Option (List SearchHit)
slice hits start end = if leb start end then some (take (end - start) (drop start hits)) else none

-- The page, with both ends moved into the list.
unfoldable pub slice_page : List SearchHit → ℤ → ℤ → Option (List SearchHit)
unfolding slice
slice_page hits (pos start) (pos end) =
    slice hits (at_most (length hits) start) (at_most (length hits) end)
slice_page hits (negsuc start) end = none
slice_page hits (pos start) (negsuc end) = none

-- The ends of the page, for a page and a size of at least 1.
unfoldable pub page_start : ℕ → ℕ → ℤ
unfolding wrap
page_start page per_page = wrap ((page - 1) * per_page)

-- start + perPage; a negative start is n below 2^64.
unfoldable pub page_end : ℤ → ℕ → ℤ
unfolding wrap
page_end (pos start) per_page = wrap (start + per_page)
page_end (negsuc start) per_page = wrap (18446744073709551615 - start + per_page)

-- paginateHits for a size of at least 1; the number of pages is a quotient of float64s, rounded up.
unfoldable pub paginate_hits : List SearchHit → ℕ → ℕ → Option (List SearchHit) × Pagination
unfolding slice_page page_start page_end ceil div float
paginate_hits hits page per_page =
    let start = page_start page per_page in
    (
      slice_page hits start (page_end start per_page),
      record {
        page = page;
        per_page = per_page;
        total_pages = ceil (div (float (length hits)) (float per_page));
        total_results = length hits;
      },
    )

-- pageParams: the first page, and five hits on it, where a number is missing or out of range.
unfoldable pub page_params : Option ℤ → Option ℤ → ℕ × ℕ
page_params page per_page = (
  elim page [ none ↦ 1 | some p ↦ if ltb_ℤ p (pos 1) then 1 else pos_part p ],
  elim per_page [
    | none ↦ 5
    | some n ↦ if ltb_ℤ n (pos 1) then 5 else if ltb_ℤ (pos 50) n then 5 else pos_part n
  ],
)
