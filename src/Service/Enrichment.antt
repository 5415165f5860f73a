-- ===== src/Service/Enrichment.antt =====
-- The metadata of a DOI lookup in backend/internal/service/doi_enrichment.go: which fields of an
-- article are missing, and how the answers of the sources fill them.
pub mod Cascade
pub mod Lookup
pub mod Service
pub mod Parse
pub mod Limiter
use cindex.Prelude.{
  ℕ, Bool, true, false, not, ◌&&◌, ◌||◌, Option, none, some, List, [], ◌∷◌, ltb, if◌then◌else◌,
  Text, codes, text_eq, is_empty, take, length, any,
}
use cindex.Prelude.Int.{ℤ}
use cindex.Domain.Article.{Article}
use cindex.Go.Strings.{trim_space}

-- EnrichCandidate
pub record EnrichCandidate : Type 0 where
  pub article : Article
  pub authors : List Text

-- The set of the names of missing fields.
pub record Fields : Type 0 where
  pub authors : Bool
  pub abstract : Bool
  pub year : Bool
  pub volume : Bool
  pub issue : Bool
  pub pages : Bool

pub record Enrichment : Type 0 where
  pub authors : List Text
  pub abstract : Text
  pub year : Option ℤ
  pub volume : Text
  pub issue : Text
  pub pages : Text

abbrev pub is_nil : Option ℤ → Bool
is_nil none = true
is_nil (some _) = false

abbrev pub no_names : List Text → Bool
no_names = is_empty

unfoldable pub is_unknown : Text → Bool
is_unknown name = text_eq (trim_space name) (codes "Unknown author")

-- missingFields
unfoldable pub missing_fields : EnrichCandidate → Fields
unfolding is_unknown
missing_fields c = record {
  authors = no_names c.authors || any is_unknown c.authors;
  abstract = is_empty c.article.abstract;
  year = is_nil c.article.pub_year;
  volume = is_empty c.article.volume;
  issue = is_empty c.article.issue;
  pages = is_empty c.article.pages;
}

unfoldable pub truncate_runes : Text → ℕ → Text
truncate_runes value max = if ltb max (length value) then take max value else value

-- What the loop of applyCascade keeps.
pub record Progress : Type 0 where
  pub article : Article
  pub missing : Fields
  pub changed : Bool
  pub pending_authors : List Text

-- A text and a year that are filled if they are missing.
unfoldable pub fill_text : Bool → Text → Text → Text
fill_text missing old found = if not (is_empty found) && missing then found else old

unfoldable pub fill_year : Bool → Option ℤ → Option ℤ → Option ℤ
fill_year missing old found = if not (is_nil found) && missing then found else old

-- The names of an enrichment that become the pending authors.
unfoldable pub takes_authors : Bool → List Text → List Text → Bool
takes_authors missing pending found = not (no_names found) && missing && no_names pending

unfoldable pub takes_text : Bool → Text → Bool
takes_text missing found = not (is_empty found) && missing

unfoldable pub takes_year : Bool → Option ℤ → Bool
takes_year missing found = not (is_nil found) && missing

-- One enrichment, and the fields that are filled behind it.
unfoldable pub apply_step : Progress → Enrichment → Progress
unfolding fill_text fill_year takes_authors takes_text takes_year truncate_runes
apply_step p e =
    let pending =
      if takes_authors p.missing.authors p.pending_authors e.authors
      then e.authors
      else p.pending_authors in
    let abstract =
      fill_text p.missing.abstract p.article.abstract (truncate_runes e.abstract 8000) in
    let year = fill_year p.missing.year p.article.pub_year e.year in
    let volume = fill_text p.missing.volume p.article.volume e.volume in
    let issue = fill_text p.missing.issue p.article.issue e.issue in
    let pages = fill_text p.missing.pages p.article.pages e.pages in
    record {
      article = record (p.article) {
        abstract = abstract;
        pub_year = year;
        volume = volume;
        issue = issue;
        pages = pages;
      };
      missing = record {
        authors = p.missing.authors && no_names pending;
        abstract = p.missing.abstract && is_empty abstract;
        year = p.missing.year && is_nil year;
        volume = p.missing.volume && is_empty volume;
        issue = p.missing.issue && is_empty issue;
        pages = p.missing.pages && is_empty pages;
      };
      changed =
          p.changed
          || takes_authors p.missing.authors p.pending_authors e.authors
          || takes_text p.missing.abstract e.abstract
          || takes_year p.missing.year e.year
          || takes_text p.missing.volume e.volume
          || takes_text p.missing.issue e.issue
          || takes_text p.missing.pages e.pages;
      pending_authors = pending;
    }

unfoldable pub apply_steps : Progress → List Enrichment → Progress
apply_steps p [] = p
apply_steps p (e ∷ es) = apply_steps (apply_step p e) es

-- applyCascade: the article, whether it changed, and the pending authors.
unfoldable pub apply_cascade : Article → Fields → List Enrichment → Progress
unfolding apply_steps apply_step
apply_cascade article missing es =
    apply_steps
      (record { article = article; missing = missing; changed = false; pending_authors = [] }) es
