-- ===== src/Connector/Profile.antt =====
-- The source profiles and their keys of backend/internal/connector/profile.go.
use cindex.Prelude.{Option, none, some, List, [], ◌∷◌, if◌then◌else◌, map, Text, codes, text_eq}

pub record SourceProfile : Type 0 where
  pub source_key : Text
  pub name : Text
  pub search_url : Text
  pub mode : Text
  pub query_param : Text
  pub language : Text
  pub peer_review_ev : Text
  pub indexing_ev : Text
  pub preprint_ev : Text
  pub result_selector : Text
  pub link_selector : Text
  pub title_selector : Text
  pub abstract_selector : Text
  pub journal_selector : Text

-- A profile with the fields that every source has; the others are empty.
abbrev plain_profile : Text → Text → Text → Text → Text → SourceProfile
plain_profile source_key name search_url mode language = record {
  source_key = source_key;
  name = name;
  search_url = search_url;
  mode = mode;
  query_param = [];
  language = language;
  peer_review_ev = [];
  indexing_ev = [];
  preprint_ev = [];
  result_selector = [];
  link_selector = [];
  title_selector = [];
  abstract_selector = [];
  journal_selector = [];
}

abbrev europe_pmc : SourceProfile
europe_pmc =
    plain_profile (codes "europe_pmc") (codes "Europe PMC")
      (codes "https://www.ebi.ac.uk/europepmc/webservices/rest/search") (codes "api") (codes "en")

abbrev openalex : SourceProfile
openalex =
    plain_profile (codes "openalex") (codes "OpenAlex") (codes "https://api.openalex.org/works")
      (codes "api") (codes "en")

abbrev crossref : SourceProfile
crossref =
    plain_profile (codes "crossref") (codes "Crossref") (codes "https://api.crossref.org/works")
      (codes "api") (codes "en")

abbrev pubmed : SourceProfile
pubmed =
    plain_profile (codes "pubmed") (codes "PubMed")
      (codes "https://eutils.ncbi.nlm.nih.gov/entrez/eutils") (codes "api") (codes "en")

abbrev arxiv : SourceProfile
arxiv =
    plain_profile (codes "arxiv") (codes "arXiv") (codes "http://export.arxiv.org/api/query")
      (codes "api") (codes "en")

abbrev doaj : SourceProfile
doaj =
    plain_profile (codes "doaj") (codes "DOAJ") (codes "https://doaj.org/api/search/articles")
      (codes "api") (codes "en")

abbrev pmc : SourceProfile
pmc =
    plain_profile (codes "pmc") (codes "PubMed Central")
      (codes "https://www.ebi.ac.uk/europepmc/webservices/rest/search") (codes "api") (codes "en")

abbrev core : SourceProfile
core =
    plain_profile (codes "core") (codes "CORE") (codes "https://api.core.ac.uk/v3/search/works")
      (codes "api") (codes "en")

abbrev dblp : SourceProfile
dblp =
    plain_profile (codes "dblp") (codes "DBLP") (codes "https://dblp.org/search/publ/api")
      (codes "api") (codes "en")

abbrev hal : SourceProfile
hal =
    plain_profile (codes "hal") (codes "HAL") (codes "https://api.archives-ouvertes.fr/search/")
      (codes "api") (codes "fr")

abbrev zenodo : SourceProfile
zenodo =
    plain_profile (codes "zenodo") (codes "Zenodo") (codes "https://zenodo.org/api/records")
      (codes "api") (codes "en")

abbrev iacr : SourceProfile
iacr =
    plain_profile (codes "iacr") (codes "IACR ePrint") (codes "https://eprint.iacr.org/rss/rss.xml")
      (codes "rss") (codes "en")

abbrev exa : SourceProfile
exa =
    plain_profile (codes "exa") (codes "Exa") (codes "https://api.exa.ai/search") (codes "exa")
      (codes "multi")

abbrev cinii : SourceProfile
cinii =
    record (plain_profile (codes "cinii") (codes "CiNii")
      (codes "https://cir.nii.ac.jp/opensearch/v2/articles") (codes "api") ([])) {
        query_param = codes "q";
        result_selector = codes ".search-result__item, .item, article, li";
        link_selector = codes "a[href]";
        title_selector = codes "h3 a, .title a, a[href]";
        abstract_selector = codes ".snippet, .description, p";
        journal_selector = codes ".publisher, .journal, .source";
      }

abbrev sciengine : SourceProfile
sciengine =
    record (plain_profile (codes "sciengine") (codes "SciEngine")
      (codes "https://www.sciengine.com/SciSearch/searchNew") (codes "api") (codes "zh-CN")) {
        query_param = codes "queryField_a";
      }

abbrev cyberleninka : SourceProfile
cyberleninka =
    record (plain_profile (codes "cyberleninka") (codes "CyberLeninka")
      (codes "https://cyberleninka.ru/search") (codes "api") (codes "ru")) {
        query_param = codes "q";
        result_selector = codes ".article-item, article, li";
        link_selector = codes "a[href]";
        title_selector = codes ".title a, h2 a, h3 a, a[href]";
        abstract_selector = codes ".annotation, .abstract, p";
        journal_selector = codes ".journal, .source, .publication";
      }

abbrev mathnet : SourceProfile
mathnet =
    record (plain_profile (codes "mathnet") (codes "MathNet.Ru")
      (codes "https://www.mathnet.ru/php/search.phtml") (codes "api") (codes "ru")) {
        query_param = codes "query";
        result_selector = codes "article, .source-row, .paper, .result, li";
        link_selector = codes "a[href]";
        title_selector = codes ".title a, h3 a, a[href]";
        abstract_selector = codes ".abstract, .summary, p";
        journal_selector = codes ".journal, .source";
      }

abbrev scielo : SourceProfile
scielo =
    record (plain_profile (codes "scielo") (codes "SciELO")
      (codes "https://www.scielo.org/en/search/") (codes "rss") (codes "es")) {
        query_param = codes "q";
        result_selector = codes ".item, article, li";
        link_selector = codes "a[href]";
        title_selector = codes "h3 a, h2 a, .title a, a[href]";
        abstract_selector = codes ".abstract, .snippet, p";
        journal_selector = codes ".publication, .journal, .source";
      }

abbrev persee : SourceProfile
persee =
    record (plain_profile (codes "persee") (codes "Persée") (codes "https://www.persee.fr/search")
      (codes "html") (codes "fr")) {
        query_param = codes "q";
        result_selector = codes ".doc-result";
        link_selector = codes "a.title";
        title_selector = codes "a.title";
        abstract_selector = codes ".searchContext";
        journal_selector = codes ".documentBibRef .collection a";
      }

abbrev openedition : SourceProfile
openedition =
    record (plain_profile (codes "openedition") (codes "OpenEdition")
      (codes "https://search-api.openedition.org/rss") (codes "rss") ([])) {
        query_param = codes "q";
      }

abbrev medknow : SourceProfile
medknow =
    plain_profile (codes "medknow") (codes "Medknow") (codes "https://api.openalex.org/works")
      (codes "api") (codes "en")

abbrev dergipark : SourceProfile
dergipark =
    record (plain_profile (codes "dergipark") (codes "DergiPark")
      (codes "https://dergipark.org.tr/en/search") (codes "oai") (codes "en")) {
        query_param = codes "q";
        result_selector = codes ".article-card, article, li";
        link_selector = codes "a[href]";
        title_selector = codes "h3 a, .title a, a[href]";
        abstract_selector = codes ".article-abstract, .abstract, p";
        journal_selector = codes ".journal-title, .journal, .source";
      }

abbrev hrcak : SourceProfile
hrcak =
    record (plain_profile (codes "hrcak") (codes "Hrčak") (codes "https://hrcak.srce.hr/oai/")
      (codes "oai") (codes "en")) {
        query_param = codes "q";
        result_selector = codes ".search-result, article, li";
        link_selector = codes "a[href]";
        title_selector = codes "h3 a, .title a, a[href]";
        abstract_selector = codes ".summary, .abstract, p";
        journal_selector = codes ".journal, .source";
      }

abbrev ajol : SourceProfile
ajol =
    record (plain_profile (codes "ajol") (codes "AJOL")
      (codes "https://www.ajol.info/index.php/ajol/search") (codes "oai") (codes "en")) {
        query_param = codes "query";
        result_selector = codes ".obj_article_summary, article, li";
        link_selector = codes "a[href]";
        title_selector = codes ".title a, h3 a, a[href]";
        abstract_selector = codes ".summary, .abstract, p";
        journal_selector = codes ".journal, .source";
      }

-- Profiles
unfoldable pub profiles : List SourceProfile
profiles =
    europe_pmc ∷ openalex ∷ crossref ∷ pubmed ∷ arxiv ∷ doaj ∷ pmc ∷ core ∷ dblp ∷ hal ∷ zenodo
    ∷ iacr ∷ exa ∷ cinii ∷ sciengine ∷ cyberleninka ∷ mathnet ∷ scielo ∷ persee ∷ openedition
    ∷ medknow ∷ dergipark ∷ hrcak ∷ ajol ∷ []

unfoldable pub find_profile : Text → List SourceProfile → Option SourceProfile
find_profile key [] = none
find_profile key (p ∷ ps) = if text_eq p.source_key key then some p else find_profile key ps

-- ProfileFor
unfoldable pub profile_for : Text → Option SourceProfile
unfolding find_profile profiles
profile_for key = find_profile key profiles

-- Keys
unfoldable pub keys : List Text
unfolding profiles
keys = map (λ p. p.source_key) profiles
