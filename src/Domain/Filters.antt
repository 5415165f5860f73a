-- ===== src/Domain/Filters.antt =====
-- backend/internal/domain/search.go: the search filters and their signature.
pub mod Signature
use cindex.Prelude.{
  ◌≡◌, Bool, true, false, not, ◌&&◌, ◌||◌, Option, none, some, [], ◌∷◌, if◌then◌else◌, Text, codes,
  text_eq,
}
use cindex.Prelude.Int.{ℤ}
use cindex.Go.Strings.{join}
use cindex.Go.Strconv.{itoa}

pub record SearchFilters : Type 0 where
  pub peer_reviewed_only : Bool
  pub indexed_only : Bool
  pub exclude_preprints : Bool
  pub exclude_retracted : Bool
  pub year_from : Option ℤ
  pub year_to : Option ℤ
  pub sort_by : Text

abbrev pub sort_relevance : Text
sort_relevance = codes "relevance"

abbrev pub sort_newest : Text
sort_newest = codes "newest"

abbrev pub sort_metadata : Text
sort_metadata = codes "metadata"

-- ValidSorts, as a test.
unfoldable pub valid_sorts : Text → Bool
valid_sorts s = text_eq s sort_relevance || text_eq s sort_newest || text_eq s sort_metadata

unfoldable pub normalized_sort : SearchFilters → Text
unfolding valid_sorts
normalized_sort f = if valid_sorts f.sort_by then f.sort_by else sort_relevance

abbrev is_nil : Option ℤ → Bool
is_nil none = true
is_nil (some _) = false

unfoldable pub is_default : SearchFilters → Bool
is_default f =
    not f.peer_reviewed_only
    && not f.indexed_only
    && not f.exclude_preprints
    && not f.exclude_retracted
    && is_nil f.year_from
    && is_nil f.year_to
    && text_eq (normalized_sort f) sort_relevance

unfoldable pub bool_int : Bool → Text
bool_int true = codes "1"
bool_int false = codes "0"

-- `yr`, the local function of Signature.
year_text : Option ℤ → Text
year_text none = []
year_text (some y) = itoa y

unfoldable pub signature : SearchFilters → Text
unfolding bool_int year_text
signature f = join (codes "|") (
    bool_int f.peer_reviewed_only
    ∷ bool_int f.indexed_only
    ∷ bool_int f.exclude_preprints
    ∷ bool_int f.exclude_retracted
    ∷ year_text f.year_from
    ∷ year_text f.year_to
    ∷ normalized_sort f
    ∷ [])

abbrev pub default_filters : SearchFilters
default_filters = record {
  peer_reviewed_only = false;
  indexed_only = false;
  exclude_preprints = false;
  exclude_retracted = false;
  year_from = none;
  year_to = none;
  sort_by = [];
}
