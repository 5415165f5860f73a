-- ===== src/Httpapi/Validation.antt =====
-- The checks of a request in backend/internal/httpapi/search_handlers.go. A number of a request is
-- an integer; a field that is left out is `none`.
use cindex.Prelude.{
  Option, none, some, List, [], ◌∷◌, ◌++◌, ltb, if◌then◌else◌, Text, codes, is_empty,
}
use cindex.Prelude.Int.{ℤ, pos, ltb_ℤ}
use cindex.Go.Strings.{trim_space}
use cindex.Go.Unicode.{byte_len}
use cindex.Domain.Filters.{valid_sorts}

-- The attribute and the detail of an item; its code is always "error".
abbrev pub ErrorItem : Type 0
ErrorItem = Text × Text

unfoldable pub validate_query : Text → List ErrorItem
validate_query query =
    if is_empty (trim_space query)
    then (codes "query", codes "This field is required.") ∷ []
    else if ltb 512 (byte_len query)
    then (codes "query", codes "Ensure this field has at most 512 characters.") ∷ []
    else []

unfoldable pub validate_expression : Text → List ErrorItem
validate_expression expression =
    if ltb 1024 (byte_len expression)
    then (codes "expression", codes "Ensure this field has at most 1024 characters.") ∷ []
    else []

-- The two checks of one year.
unfoldable pub validate_year : Text → Option ℤ → List ErrorItem
validate_year attr none = []
validate_year attr (some year) =
    (if ltb_ℤ year (pos 0)
      then (attr, codes "Ensure this value is greater than or equal to 0.") ∷ []
      else [])
    ++ (if ltb_ℤ (pos 9999) year
        then (attr, codes "Ensure this value is less than or equal to 9999.") ∷ []
        else [])

unfoldable pub validate_years : Option ℤ → Option ℤ → List ErrorItem
unfolding validate_year
validate_years year_from year_to =
    validate_year (codes "year_from") year_from ++ validate_year (codes "year_to") year_to

unfoldable pub validate_page : Option ℤ → List ErrorItem
validate_page none = []
validate_page (some page) =
    if ltb_ℤ page (pos 1)
    then (codes "page", codes "Ensure this value is greater than or equal to 1.") ∷ []
    else []

unfoldable pub validate_per_page : Option ℤ → List ErrorItem
validate_per_page none = []
validate_per_page (some per_page) =
    if ltb_ℤ per_page (pos 1)
    then (codes "per_page", codes "Ensure this value is greater than or equal to 1.") ∷ []
    else if ltb_ℤ (pos 50) per_page
    then (codes "per_page", codes "Ensure this value is less than or equal to 50.") ∷ []
    else []

unfoldable pub validate_pagination : Option ℤ → Option ℤ → List ErrorItem
unfolding validate_page validate_per_page
validate_pagination page per_page = validate_page page ++ validate_per_page per_page

-- The check of an optional sort mode.
unfoldable pub validate_sort_by : Option Text → List ErrorItem
unfolding valid_sorts
validate_sort_by none = []
validate_sort_by (some s) =
    if valid_sorts s
    then []
    else (codes "sort_by", codes "\"" ++ (s ++ codes "\" is not a valid choice.")) ∷ []

-- validateJobCreate on the fields of the request.
unfoldable pub validate_job_create :
    Text → Text → Option ℤ → Option ℤ → Option Text → List ErrorItem
unfolding validate_query validate_expression validate_years validate_sort_by
validate_job_create query expression year_from year_to sort_by =
    validate_query query
    ++ (validate_expression expression
        ++ (validate_years year_from year_to ++ validate_sort_by sort_by))
