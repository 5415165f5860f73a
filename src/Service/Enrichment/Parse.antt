-- ===== src/Service/Enrichment/Parse.antt =====
-- The parsers of service/doi_enrichment.go. A number of JSON is of a type `N`, with the conversion of Go
-- to int and strconv.FormatFloat as parameters; sort.Slice, which may order equal positions as it
-- likes, is one too.
use cindex.Prelude.{Option, none, some, List, [], ◌∷◌, ◌++◌, Text, codes, is_empty, if◌then◌else◌}
use cindex.Prelude.Int.{ℤ}
use cindex.Go.Json.{
  Json, null, number, string, object, Members, get, as_array, as_object, as_string, entries,
}
use cindex.Go.Strings.{trim_space, join}
use cindex.Service.Enrichment.{Enrichment}

-- A name in front of the others, unless it is empty.
unfoldable pub push_name : Text → List Text → List Text
push_name [] names = names
push_name (c ∷ s) names = (c ∷ s) ∷ names

module _ {N : Type 0} (to_int : N → ℤ) (format : N → Text)
    (sort : List (ℤ × Text) → List (ℤ × Text)) where
  -- strOf
  unfoldable pub str_of : Json N → Text
  str_of (string s) = trim_space s
  str_of (number n) = format n
  str_of _ = []

  -- A year, if the value is a number.
  unfoldable pub year_of : Json N → Option ℤ
  year_of (number n) = some (to_int n)
  year_of _ = none

  unfoldable pub crossref_authors : List (Json N) → List Text
  unfolding push_name get as_string as_object
  crossref_authors [] = []
  crossref_authors (a ∷ rest) =
      let m = as_object a in
      push_name
        (trim_space
          (as_string (get (codes "given") m) ++ (codes " " ++ as_string (get (codes "family") m))))
        (crossref_authors rest)

  first_number : List (Json N) → Option ℤ
  first_number [] = none
  first_number (v ∷ rest) = year_of v

  first_date : List (Json N) → Option ℤ
  first_date [] = none
  first_date (parts ∷ rest) = first_number (as_array parts)

  or_online : Json N → Json N → Json N
  or_online null online = online
  or_online print online = print

  -- parseCrossref
  unfoldable pub parse_crossref : Members N → Enrichment
  unfolding crossref_authors first_date first_number or_online year_of str_of get as_array as_object
  parse_crossref payload =
      let published =
        or_online (get (codes "published-print") payload)
          (get (codes "published-online") payload) in
      record {
        authors = crossref_authors (as_array (get (codes "author") payload));
        abstract = [];
        year = first_date (as_array (get (codes "date-parts") (as_object published)));
        volume = str_of (get (codes "volume") payload);
        issue = str_of (get (codes "issue") payload);
        pages = str_of (get (codes "page") payload);
      }

  unfoldable pub openalex_authors : List (Json N) → List Text
  unfolding push_name get as_string as_object
  openalex_authors [] = []
  openalex_authors (a ∷ rest) =
      push_name
        (as_string (get (codes "display_name") (as_object (get (codes "author") (as_object a)))))
        (openalex_authors rest)

  -- The positions of one word.
  word_positions : Text → List (Json N) → List (ℤ × Text)
  word_positions word [] = []
  word_positions word (number n ∷ rest) = (to_int n, word) ∷ word_positions word rest
  word_positions word (_ ∷ rest) = word_positions word rest

  positions : List (Text × Json N) → List (ℤ × Text)
  positions [] = []
  positions ((word, raw) ∷ rest) = word_positions word (as_array raw) ++ positions rest

  words : List (ℤ × Text) → List Text
  words [] = []
  words ((at, word) ∷ rest) = word ∷ words rest

  -- reconstructAbstract
  unfoldable pub reconstruct_abstract : Members N → Text
  unfolding positions word_positions words join as_array
  reconstruct_abstract index = join (codes " ") (words (sort (positions (entries index))))

  abstract_of : Json N → Text
  abstract_of (object index) = reconstruct_abstract index
  abstract_of _ = []

  page_range : Text → Text → Text
  page_range first last =
      if is_empty first then [] else if is_empty last then first else first ++ (codes "-" ++ last)

  -- parseOpenAlex
  unfoldable pub parse_open_alex : Members N → Enrichment
  unfolding openalex_authors abstract_of reconstruct_abstract page_range year_of str_of get as_array
      as_object
  parse_open_alex payload =
      let biblio = as_object (get (codes "biblio") payload) in
      record {
        authors = openalex_authors (as_array (get (codes "authorships") payload));
        abstract = abstract_of (get (codes "abstract_inverted_index") payload);
        year = year_of (get (codes "publication_year") payload);
        volume = str_of (get (codes "volume") biblio);
        issue = str_of (get (codes "issue") biblio);
        pages =
            page_range (str_of (get (codes "first_page") biblio))
              (str_of (get (codes "last_page") biblio));
      }

  unfoldable pub scholar_authors : List (Json N) → List Text
  unfolding push_name get as_string as_object
  scholar_authors [] = []
  scholar_authors (a ∷ rest) =
      push_name (as_string (get (codes "name") (as_object a))) (scholar_authors rest)

  -- parseSemanticScholar
  unfoldable pub parse_semantic_scholar : Members N → Enrichment
  unfolding scholar_authors year_of get as_array as_object as_string
  parse_semantic_scholar payload = record {
    authors = scholar_authors (as_array (get (codes "authors") payload));
    abstract = trim_space (as_string (get (codes "abstract") payload));
    year = year_of (get (codes "year") payload);
    volume = [];
    issue = [];
    pages = [];
  }
