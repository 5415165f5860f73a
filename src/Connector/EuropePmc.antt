-- ===== src/Connector/EuropePmc.antt =====
-- `europePMC` of backend/internal/connector/api_connectors.go: Europe PMC, and PubMed Central with its
-- filter. The records are decoded by the transport; url.QueryEscape and the case table are parameters.
pub mod Evidence
use cindex.Prelude.{
  ℕ, suc, ◌*◌, Bool, true, false, ◌||◌, not, Option, none, some, List, [], ◌∷◌, ◌++◌, if◌then◌else◌,
  Text, codes, text_eq, is_empty, any, map,
}
use cindex.Prelude.Int.{ℤ, pos, ltb_ℤ}
use cindex.Go.Strings.{trim_space, contains}
use cindex.Go.Strconv.{itoa_ℕ}
use cindex.Go.Unicode.{to_lower}
use cindex.Connector.{RawArticle}
use cindex.Connector.Errors.{Reply, got, ◌>>=◌}
use cindex.Connector.Texts.{split_authors, to_int}
use cindex.Connector.Patterns.{extract_doi, extract_year, year_text, clean_pmc_title}

pub record EpmcAuthor : Type 0 where
  pub full_name : Text
  pub first_name : Text
  pub last_name : Text

-- europePMCRecord, its nested objects flattened.
pub record EuropePmcRecord : Type 0 where
  pub id : Text
  pub pmcid : Text
  pub title : Text
  pub abstract_text : Text
  pub doi : Text
  pub pub_year : Text
  pub first_publication_date : Text
  pub cited_by_count : ℕ
  pub journal_title : Text
  pub authors : List EpmcAuthor
  pub author_string : Text
  pub pub_types : List Text
  pub full_text_urls : List Text

unfoldable pub doi_or : Text → Text → Text
unfolding extract_doi
doi_or blob [] = extract_doi blob
doi_or blob (c ∷ doi) = c ∷ doi

author_name : EpmcAuthor → Text
author_name a =
    if is_empty a.full_name
    then trim_space (a.first_name ++ (codes " " ++ a.last_name))
    else a.full_name

names_of : List EpmcAuthor → List Text
names_of [] = []
names_of (a ∷ authors) =
    let rest = names_of authors in if is_empty (author_name a) then rest else author_name a ∷ rest

or_split : List Text → Text → List Text
or_split [] s = if is_empty s then [] else split_authors s
or_split (n ∷ names) s = n ∷ names

-- epmcAuthors
unfoldable pub epmc_authors : EuropePmcRecord → List Text
unfolding names_of author_name or_split split_authors
epmc_authors r = or_split (names_of r.authors) r.author_string

-- epmcJournal
unfoldable pub epmc_journal : EuropePmcRecord → Text
epmc_journal r = if is_empty r.journal_title then codes "Europe PMC" else r.journal_title

abbrev pub tier_a : Text
tier_a = codes "TIER_A"

abbrev pub tier_b : Text
tier_b = codes "TIER_B"

-- The evidence of peer review and of a preprint, by the types in lower case.
evidence_of : List Text → Text × Text
evidence_of lowered =
    if any (λ t. contains t (codes "preprint")) lowered
    then ([], tier_a ++ codes " Europe PMC: preprint")
    else if any (λ t. text_eq t (codes "journal article") || text_eq t (codes "research-article"))
        lowered
    then (tier_a ++ codes " Europe PMC: Journal Article", [])
    else ([], [])

-- epmcTierEvidence
unfoldable pub epmc_tier_evidence : (ℕ → ℕ) → List Text → Text × Text
unfolding evidence_of
epmc_tier_evidence lower pub_types = evidence_of (map (to_lower lower) pub_types)

-- epmcRetracted
unfoldable pub epmc_retracted : (ℕ → ℕ) → List Text → Bool
epmc_retracted lower = any (λ t. contains (to_lower lower t) (codes "retracted"))

-- pmcYear, in the year `now`.
unfoldable pub pmc_year : ℕ → EuropePmcRecord → ℤ
unfolding to_int extract_year year_text
pmc_year now r =
    if ltb_ℤ (pos 0) (to_int r.pub_year)
    then to_int r.pub_year
    else pos (extract_year now (year_text r.first_publication_date))

positive : ℤ → Option ℤ
positive y = if ltb_ℤ (pos 0) y then some y else none

first_or : Text → List Text → Text
first_or other [] = other
first_or other (url ∷ urls) = url

module _ (lower : ℕ → ℕ) (key : Text) where
  -- The record that both builds share, by its title, abstract, URL and year.
  raw_of : EuropePmcRecord → Text → Text → Text → ℤ → RawArticle
  raw_of r title abstract url year =
      let evidence = epmc_tier_evidence lower r.pub_types in
      record {
        source_key = key;
        title = title;
        url = url;
        abstract = abstract;
        full_text = [];
        language = codes "en";
        year = positive year;
        doi = doi_or (title ++ (codes " " ++ abstract)) r.doi;
        journal = epmc_journal r;
        authors = epmc_authors r;
        volume = [];
        issue = [];
        pages = [];
        peer_review_evidence = if is_empty evidence.1 then evidence.0 else [];
        indexing_evidence = tier_b ++ codes " Europe PMC (MEDLINE/PubMed)";
        preprint_evidence = evidence.1;
        is_retracted = epmc_retracted lower r.pub_types;
        retraction_note = [];
        cited_by_count = r.cited_by_count;
      }

  -- build
  unfoldable pub build : EuropePmcRecord → Option RawArticle
  unfolding raw_of epmc_tier_evidence epmc_retracted epmc_authors epmc_journal doi_or positive
      first_or to_int
  build r =
      let title = trim_space r.title in
      let abstract = trim_space r.abstract_text in
      let url = first_or r.id r.full_text_urls in
      if is_empty title
      then none
      else if is_empty abstract
      then none
      else if is_empty url
      then none
      else some (raw_of r title abstract url (to_int r.pub_year))

  pmc_peer : Text × Text → Text
  pmc_peer (peer, preprint) =
      if not (is_empty preprint)
      then []
      else if not (is_empty peer)
      then peer
      else tier_b ++ codes " PubMed Central (published article)"

  pmc_url : EuropePmcRecord → Text
  pmc_url r =
      if is_empty r.pmcid
      then first_or [] r.full_text_urls
      else codes "https://www.ncbi.nlm.nih.gov/pmc/articles/" ++ (r.pmcid ++ codes "/")

  -- The record of PubMed Central, in the body of the loop of Fetch.
  unfoldable pub build_pmc : ℕ → EuropePmcRecord → Option RawArticle
  unfolding raw_of epmc_tier_evidence epmc_retracted epmc_authors epmc_journal doi_or positive
      first_or pmc_year pmc_peer pmc_url clean_pmc_title
  build_pmc now r =
      let title = clean_pmc_title lower (trim_space r.title) r.pub_types in
      let abstract = trim_space r.abstract_text in
      let raw = raw_of r title abstract (pmc_url r) (pmc_year now r) in
      if is_empty (trim_space r.title) || is_empty abstract
      then none
      else if is_empty (pmc_url r)
      then none
      else some (record raw {
        peer_review_evidence = pmc_peer (epmc_tier_evidence lower r.pub_types);
        indexing_evidence = tier_b ++ codes " pmc pubmed central";
      })

  push_raw : Option RawArticle → List RawArticle → List RawArticle
  push_raw none raws = raws
  push_raw (some raw) raws = raw ∷ raws

  -- The loop of Fetch.
  unfoldable pub build_all : Bool → ℕ → List EuropePmcRecord → List RawArticle
  unfolding push_raw build build_pmc
  build_all open_access_only now [] = []
  build_all open_access_only now (r ∷ rs) =
      push_raw (if open_access_only then build_pmc now r else build r)
        (build_all open_access_only now rs)

  -- The URL of Fetch, over the profile's search URL and url.QueryEscape.
  unfoldable pub search_url : (Text → Text) → Text → Bool → Text → ℕ → Text
  unfolding itoa_ℕ
  search_url quote_plus api_url open_access_only query limit =
      let url =
        api_url
        ++ (codes "?query="
            ++ (quote_plus query
                ++ (codes "&format=json&pageSize="
                    ++ (itoa_ℕ (limit * 3) ++ codes "&resultType=core")))) in
      if open_access_only then url ++ codes "%20AND%20OPEN_ACCESS:y" else url

  -- Fetch, over the answer of GetJSON to its URL.
  unfoldable pub fetch : Bool → ℕ → Reply (List EuropePmcRecord) → Reply (List RawArticle)
  unfolding build_all
  fetch open_access_only now answer = answer >>= (λ rs. got (build_all open_access_only now rs))
