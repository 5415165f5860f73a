-- ===== src/Service/Enrichment/Lookup.antt =====
-- The requests of a DOI lookup in service/doi_enrichment.go. The HTTP client, the escapes of package
-- url and the decoder are parameters.
use cindex.Prelude.{
  ℕ, Bool, true, false, ◌||◌, ◌&&◌, Option, none, some, List, [], ◌∷◌, ◌++◌, ◌==◌, not,
  if◌then◌else◌, Text, codes, is_empty,
}
use cindex.Go.Errors.{Result, ok, err}
use cindex.Go.Strconv.{itoa_ℕ}
use cindex.Service.Enrichment.{EnrichCandidate, Fields, Enrichment}

-- The answer of a server: the status, and the decoded body.
pub record Answer (A : Type 0) : Type 0 where
  pub status : ℕ
  -- The map that is decoded, none for a nil map.
  pub body : Result (Option A)

-- The calls of one lookup: the limiter, http.NewRequestWithContext and Client.Do. Each request shows
-- its URL and its two headers.
pub record Net (A : Type 0) : Type 0 where
  pub wait : Text → Option Text
  pub new_request : Text → Option Text
  pub send : Text → List (Text × Text) → Result (Answer A)
  pub path_escape : Text → Text
  pub query_escape : Text → Text

-- DoiEnrichmentService, the fields of its configuration.
pub record Config : Type 0 where
  pub mailto : Text
  pub open_alex_key : Text

-- MailtoUserAgent
unfoldable pub mailto_user_agent : Config → Text
mailto_user_agent c = if is_empty c.mailto then codes "cindex@app.local" else c.mailto

module _ {A : Type 0} (net : Net A) (config : Config) where
  checked : Text → Answer A → Result (Option A)
  checked api answer =
      if answer.status == 404
      then err (codes "not found")
      else if not (answer.status == 200)
      then err (codes "doi_enrichment: " ++ (api ++ (codes " status " ++ itoa_ℕ answer.status)))
      else answer.body

  received : Text → Result (Answer A) → Result (Option A)
  received api (ok answer) = checked api answer
  received api (err text) = err text

  requested : Option Text → Result (Option A) → Result (Option A)
  requested none rest = rest
  requested (some text) rest = err text

  -- getJSON
  unfoldable pub get_json : Text → Text → Result (Option A)
  unfolding requested received checked mailto_user_agent itoa_ℕ
  get_json url api = requested (net.wait api) (
      requested (net.new_request url) (
        received api (
          net.send url (
            (codes "Accept", codes "application/json")
            ∷ (codes "User-Agent", mailto_user_agent config)
            ∷ []))))

  -- The payload, none behind an error.
  found : Result (Option A) → Option A
  found (ok a) = a
  found (err _) = none

  unfoldable pub fetch_crossref : Text → Option A
  unfolding get_json found mailto_user_agent
  fetch_crossref doi = found (
      get_json
        (codes "https://api.crossref.org/works/"
          ++ (net.path_escape doi
              ++ (codes "?mailto=" ++ net.query_escape (mailto_user_agent config))))
        (codes "crossref"))

  api_key_suffix : Text → Text
  api_key_suffix [] = []
  api_key_suffix key = codes "?api_key=" ++ net.query_escape key

  unfoldable pub fetch_open_alex : Text → Option A
  unfolding get_json found api_key_suffix
  fetch_open_alex doi = found (
      get_json
        (codes "https://api.openalex.org/works/doi:"
          ++ (net.path_escape doi ++ api_key_suffix config.open_alex_key))
        (codes "openalex"))

  unfoldable pub fetch_semantic_scholar : Text → Option A
  unfolding get_json found
  fetch_semantic_scholar doi = found (
      get_json
        (codes "https://api.semanticscholar.org/graph/v1/paper/DOI:"
          ++ (net.path_escape doi ++ codes "?fields=title,authors,year,abstract,venue,journal"))
        (codes "s2"))

-- The fields that a source can fill, met with the missing ones.
unfoldable pub intersect : Fields → Fields → Bool
intersect missing want =
    (want.authors && missing.authors)
    || (want.abstract && missing.abstract)
    || (want.year && missing.year)
    || (want.volume && missing.volume)
    || (want.issue && missing.issue)
    || (want.pages && missing.pages)

abbrev pub crossref_fields : Fields
crossref_fields = record {
  authors = true;
  abstract = false;
  year = true;
  volume = true;
  issue = true;
  pages = true;
}

abbrev pub openalex_fields : Fields
openalex_fields = record {
  authors = true;
  abstract = true;
  year = true;
  volume = true;
  issue = true;
  pages = true;
}

abbrev pub s2_fields : Fields
s2_fields = record {
  authors = true;
  abstract = true;
  year = true;
  volume = false;
  issue = false;
  pages = false;
}

-- The enrichment of a source that is asked and that has an answer, in front of the others.
unfoldable pub add_enrichment : Bool → Option Enrichment → List Enrichment → List Enrichment
add_enrichment true (some e) rest = e ∷ rest
add_enrichment _ _ rest = rest

-- fetchOne, over the three fetches with their parsers.
unfoldable pub fetch_one :
    (Text → Option Enrichment)
    → (Text → Option Enrichment)
    → (Text → Option Enrichment)
    → EnrichCandidate
    → Fields
    → List Enrichment
unfolding intersect add_enrichment
fetch_one crossref openalex s2 c missing =
    let doi = c.article.doi in
    add_enrichment (intersect missing crossref_fields) (crossref doi) (
      add_enrichment (intersect missing openalex_fields) (openalex doi)
        (add_enrichment (intersect missing s2_fields) (s2 doi) []))
