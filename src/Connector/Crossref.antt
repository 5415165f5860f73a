-- ===== src/Connector/Crossref.antt =====
-- `crossrefC` of backend/internal/connector/api_connectors.go. The records are decoded by the transport;
-- the case table of package unicode is the parameter `lower`.
use cindex.Prelude.{
  ℕ, ◌*◌, Bool, true, false, ◌||◌, Option, none, some, List, [], ◌∷◌, ◌++◌, if◌then◌else◌, Text,
  codes, text_eq, is_empty, any,
}
use cindex.Prelude.Int.{ℤ, pos, ltb_ℤ}
use cindex.Go.Strings.{trim_space, contains}
use cindex.Go.Strconv.{itoa_ℕ}
use cindex.Go.Unicode.{to_lower}
use cindex.Connector.{RawArticle}
use cindex.Connector.Errors.{Reply, got, ◌>>=◌}
use cindex.Connector.EuropePmc.{doi_or, tier_a, tier_b}

pub record CrossrefAuthor : Type 0 where
  pub given : Text
  pub family : Text

pub record CrossrefAssertion : Type 0 where
  pub name : Text
  pub value : Text

pub record CrossrefRelation : Type 0 where
  pub id : Text
  pub assertion_type : Text

-- crossrefItem, with the two relations that are read.
pub record CrossrefItem : Type 0 where
  pub title : List Text
  pub abstract : Text
  pub doi : Text
  pub kind : Text
  pub container_title : List Text
  pub volume : Text
  pub issue : Text
  pub page : Text
  pub is_referenced_by_count : ℕ
  pub published_print : List (List ℤ)
  pub published_online : List (List ℤ)
  pub author : List CrossrefAuthor
  pub assertion : List CrossrefAssertion
  pub retraction : List CrossrefRelation
  pub is_update_to : List CrossrefRelation

-- firstString
unfoldable pub first_string : List Text → Text
first_string [] = []
first_string (s ∷ rest) = trim_space s

-- crossrefDateParts
unfoldable pub crossref_date_parts : List (List ℤ) → List ℤ
crossref_date_parts [] = []
crossref_date_parts (parts ∷ rest) = parts

positive_first : List ℤ → Option ℤ
positive_first [] = none
positive_first (y ∷ rest) = if ltb_ℤ (pos 0) y then some y else none

or_year : Option ℤ → Option ℤ → Option ℤ
or_year none other = other
or_year (some y) other = some y

names_of : List CrossrefAuthor → List Text
names_of [] = []
names_of (a ∷ authors) =
    let name = trim_space (a.given ++ (codes " " ++ a.family)) in
    let rest = names_of authors in if is_empty name then rest else name ∷ rest

is_dated : CrossrefAssertion → Bool
is_dated a = text_eq a.name (codes "received") || text_eq a.name (codes "accepted")

-- The evidence of peer review and of a preprint.
unfoldable pub crossref_evidence : CrossrefItem → Text × Text
unfolding is_dated
crossref_evidence item =
    if text_eq item.kind (codes "posted-content")
    then ([], tier_a ++ codes " Crossref: posted-content (preprint)")
    else if text_eq item.kind (codes "journal-article")
    then (if any is_dated item.assertion
        then (tier_a ++ codes " Crossref: received/accepted assertion", [])
        else (tier_b ++ codes " Crossref: journal-article", []))
    else ([], [])

module _ (lower : ℕ → ℕ) where
  retracting_update : List CrossrefRelation → Bool × Text
  retracting_update [] = (false, [])
  retracting_update (rel ∷ rels) =
      let rest = retracting_update rels in
      if contains (to_lower lower rel.assertion_type) (codes "retract")
      then (true, trim_space rel.id)
      else rest

  by_relation : List CrossrefRelation → List CrossrefRelation → Bool × Text
  by_relation [] updates = retracting_update updates
  by_relation (rel ∷ rels) updates = (true, trim_space rel.id)

  by_assertion : List CrossrefAssertion → Bool × Text → Bool × Text
  by_assertion [] other = other
  by_assertion (a ∷ assertions) other =
      let rest = by_assertion assertions other in
      if contains (to_lower lower a.name) (codes "retract")
      then (true, trim_space a.value)
      else rest

  -- crossrefRetraction
  unfoldable pub crossref_retraction : CrossrefItem → Bool × Text
  unfolding by_assertion by_relation retracting_update
  crossref_retraction item =
      by_assertion item.assertion (by_relation item.retraction item.is_update_to)

  -- The record of one item, by its title, abstract and DOI.
  raw_of : Text → CrossrefItem → Text → Text → Text → RawArticle
  raw_of key item title abstract doi = record {
    source_key = key;
    title = title;
    url = codes "https://doi.org/" ++ doi;
    abstract = abstract;
    full_text = title ++ (codes " " ++ abstract);
    language = codes "en";
    year =
        or_year (positive_first (crossref_date_parts item.published_print))
          (positive_first (crossref_date_parts item.published_online));
    doi = doi;
    journal = first_string item.container_title;
    authors = names_of item.author;
    volume = item.volume;
    issue = item.issue;
    pages = item.page;
    peer_review_evidence = (crossref_evidence item).0;
    indexing_evidence = tier_b ++ codes " Crossref (DOI registry)";
    preprint_evidence = (crossref_evidence item).1;
    is_retracted = (crossref_retraction item).0;
    retraction_note = (crossref_retraction item).1;
    cited_by_count = item.is_referenced_by_count;
  }

  -- The body of the loop of Fetch.
  unfoldable pub build_item : Text → CrossrefItem → Option RawArticle
  unfolding raw_of crossref_retraction crossref_evidence names_of or_year positive_first
      crossref_date_parts first_string doi_or
  build_item key item =
      let title = first_string item.title in
      let abstract = trim_space item.abstract in
      let doi = doi_or (title ++ (codes " " ++ item.abstract)) item.doi in
      if is_empty title
      then none
      else if is_empty doi
      then none
      else if is_empty abstract
      then none
      else some (raw_of key item title abstract doi)

  push_raw : Option RawArticle → List RawArticle → List RawArticle
  push_raw none raws = raws
  push_raw (some raw) raws = raw ∷ raws

  unfoldable pub build_items : Text → List CrossrefItem → List RawArticle
  unfolding push_raw build_item
  build_items key [] = []
  build_items key (item ∷ items) = push_raw (build_item key item) (build_items key items)

  -- The URL of Fetch, over the profile's search URL and url.QueryEscape.
  unfoldable pub search_url : (Text → Text) → Text → Text → ℕ → Text
  unfolding itoa_ℕ
  search_url quote_plus api_url query limit =
      api_url
      ++ (codes "?query="
          ++ (quote_plus query ++ (codes "&filter=has-abstract:true&rows=" ++ itoa_ℕ (limit * 3))))

  -- Fetch, over the answer of GetJSON to its URL.
  unfoldable pub fetch : Text → Reply (List CrossrefItem) → Reply (List RawArticle)
  unfolding build_items
  fetch key answer = answer >>= (λ items. got (build_items key items))
