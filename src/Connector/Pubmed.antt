-- ===== src/Connector/Pubmed.antt =====
-- `pubmed` of backend/internal/connector/api_connectors.go: the three calls of Fetch, whose answers are
-- decoded, and the records. url.QueryEscape is a parameter.
use cindex.Prelude.{
  ℕ, false, Option, none, some, List, [], ◌∷◌, ◌++◌, if◌then◌else◌, Text, codes, text_eq, is_empty,
}
use cindex.Prelude.Int.{ℤ, pos, ltb_ℤ}
use cindex.Go.Strings.{trim_space, fields, join}
use cindex.Go.Strconv.{itoa_ℕ}
use cindex.Domain.SearchJob.{lookup, insert}
use cindex.Connector.{RawArticle}
use cindex.Connector.Errors.{Reply, got, refused}
use cindex.Connector.Texts.{full_text_for, to_int}
use cindex.Connector.Patterns.{extract_doi}
use cindex.Connector.EuropePmc.{tier_b}

-- One record of pubmedSummary; an article id is its type and its value.
pub record PubmedRecord : Type 0 where
  pub title : Text
  pub pubdate : Text
  pub full_journal_name : Text
  pub source : Text
  pub article_ids : List (Text × Text)
  pub authors : List Text

-- pubmedSummary
abbrev pub Summary : Type 0
Summary = List (Text × PubmedRecord)

-- The parts of the abstract of one pubmedArticle, with their labels.
abbrev pub AbstractParts : Type 0
AbstractParts = List (Text × Text)

part_texts : AbstractParts → List Text
part_texts [] = []
part_texts ((label, value) ∷ parts) =
    (if is_empty label then value else label ++ (codes ": " ++ value)) ∷ part_texts parts

set_abstract : Text → AbstractParts → List (Text × Text) → List (Text × Text)
set_abstract id [] abstracts = abstracts
set_abstract id (part ∷ parts) abstracts =
    insert id (join (codes " ") (part_texts (part ∷ parts))) abstracts

-- The abstracts by id: the articles are paired with the ids in order.
unfoldable pub pair_abstracts :
    List Text → List AbstractParts → List (Text × Text) → List (Text × Text)
unfolding set_abstract part_texts insert join
pair_abstracts [] articles abstracts = abstracts
pair_abstracts (id ∷ ids) [] abstracts = abstracts
pair_abstracts (id ∷ ids) (parts ∷ articles) abstracts =
    pair_abstracts ids articles (set_abstract id parts abstracts)

-- The value of the last id of the type doi.
doi_among : Text → List (Text × Text) → Text
doi_among doi [] = doi
doi_among doi ((kind, value) ∷ ids) =
    doi_among (if text_eq kind (codes "doi") then value else doi) ids

or_extracted : Text → Text → Text
or_extracted [] title = extract_doi title
or_extracted (c ∷ doi) title = c ∷ doi

value_of : Option Text → Text
value_of none = []
value_of (some s) = s

positive : ℤ → Option ℤ
positive y = if ltb_ℤ (pos 0) y then some y else none

first_year : List Text → Option ℤ
first_year [] = none
first_year (f ∷ rest) = positive (to_int f)

trimmed_names : List Text → List Text
trimmed_names [] = []
trimmed_names (n ∷ names) =
    let rest = trimmed_names names in if is_empty (trim_space n) then rest else trim_space n ∷ rest

raw_of : Text → List (Text × Text) → Text → PubmedRecord → Text → RawArticle
raw_of key abstracts uid rec title =
    let abstract = value_of (lookup uid abstracts) in
    record {
      source_key = key;
      title = title;
      url = codes "https://pubmed.ncbi.nlm.nih.gov/" ++ (uid ++ codes "/");
      abstract = abstract;
      full_text = full_text_for title abstract;
      language = codes "en";
      year = first_year (fields rec.pubdate);
      doi = or_extracted (doi_among [] rec.article_ids) title;
      journal = if is_empty rec.full_journal_name then rec.source else rec.full_journal_name;
      authors = trimmed_names rec.authors;
      volume = [];
      issue = [];
      pages = [];
      peer_review_evidence = tier_b ++ codes " MEDLINE-indexed (PubMed)";
      indexing_evidence = tier_b ++ codes " medline pubmed";
      preprint_evidence = [];
      is_retracted = false;
      retraction_note = [];
      cited_by_count = 0;
    }

push_record :
    Text → List (Text × Text) → Text → Option PubmedRecord → List RawArticle → List RawArticle
push_record key abstracts uid none raws = raws
push_record key abstracts uid (some rec) raws =
    let title = trim_space rec.title in
    if is_empty title then raws else raw_of key abstracts uid rec title ∷ raws

-- The second loop of Fetch.
unfoldable pub build_records : Text → Summary → List (Text × Text) → List Text → List RawArticle
unfolding push_record raw_of value_of first_year positive trimmed_names doi_among or_extracted
    lookup full_text_for to_int extract_doi fields
build_records key summary abstracts [] = []
build_records key summary abstracts (uid ∷ ids) =
    push_record key abstracts uid (lookup uid summary) (build_records key summary abstracts ids)

-- The abstracts of efetch; an error leaves them out.
abstracts_of : List Text → Option (List AbstractParts) → List (Text × Text)
abstracts_of ids none = []
abstracts_of ids (some articles) = pair_abstracts ids articles []

with_summary :
    Text → List Text → Option (List AbstractParts) → Reply Summary → Reply (List RawArticle)
with_summary key ids articles (refused e) = refused e
with_summary key ids articles (got summary) =
    got (build_records key summary (abstracts_of ids articles) ids)

with_ids :
    Text
    → Reply (List Text)
    → (List Text → Reply Summary)
    → (List Text → Option (List AbstractParts))
    → Reply (List RawArticle)
with_ids key (refused e) esummary efetch = refused e
with_ids key (got []) esummary efetch = got []
with_ids key (got (id ∷ ids)) esummary efetch =
    with_summary key (id ∷ ids) (efetch (id ∷ ids)) (esummary (id ∷ ids))

-- Fetch, over the answers of its three calls to the URLs below; `none` is an efetch that fails or that
-- cannot be decoded.
unfoldable pub fetch :
    Text
    → Reply (List Text)
    → (List Text → Reply Summary)
    → (List Text → Option (List AbstractParts))
    → Reply (List RawArticle)
unfolding with_ids with_summary abstracts_of pair_abstracts build_records
fetch key esearch esummary efetch = with_ids key esearch esummary efetch

unfoldable pub esearch_url : (Text → Text) → Text → Text → ℕ → Text
unfolding itoa_ℕ
esearch_url quote_plus base query limit =
    base
    ++ (codes "/esearch.fcgi?db=pubmed&term="
        ++ (quote_plus query ++ (codes "&retmax=" ++ (itoa_ℕ limit ++ codes "&retmode=json"))))

unfoldable pub esummary_url : Text → List Text → Text
unfolding join
esummary_url base ids =
    base
    ++ (codes "/esummary.fcgi?db=pubmed&id=" ++ (join (codes ",") ids ++ codes "&retmode=json"))

unfoldable pub efetch_url : Text → List Text → Text
unfolding join
efetch_url base ids =
    base ++ (codes "/efetch.fcgi?db=pubmed&id=" ++ (join (codes ",") ids ++ codes "&retmode=xml"))
