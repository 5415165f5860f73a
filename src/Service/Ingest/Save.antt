-- ===== src/Service/Ingest/Save.antt =====
-- `saveArticle` of backend/internal/service/ingest_live.go.
use cindex.Prelude.{
  ℕ, false, ◌||◌, Option, none, some, List, [], ◌∷◌, if◌then◌else◌, Text, codes, is_empty,
}
use cindex.Go.Errors.{Result}
use cindex.Go.Steps.{Step, stopped, next, ◌>>=◌}
use cindex.Go.Strings.{trim_space}
use cindex.Connector.{RawArticle}
use cindex.Domain.Article.{Article}
use cindex.Domain.Eligibility.{apply_eligibility}
use cindex.Repository.Sources.{Source, get_by_key}
use cindex.Service.Ingest.{Calls, Scan, statement, answer, add_source}

unfoldable pub found : Option Source → Scan → Step Scan Source
found (some s) r = next r s
found none r = stopped r (codes "not found")

unfoldable pub load_or_add : Calls → Text → Option Source → Scan → Step Scan Source
unfolding statement add_source get_by_key found
load_or_add calls key (some s) r = next r s
load_or_add calls key none r =
    add_source calls key r
    >>= (λ r _. statement calls r)
    >>= (λ r _. found (get_by_key key r.table.rows) r)

-- GetByKey, EnsureExists where there is no row, and GetByKey again.
unfoldable pub load_source : Calls → Text → Scan → Step Scan Source
unfolding statement get_by_key load_or_add
load_source calls key r =
    statement calls r >>= (λ r _. load_or_add calls key (get_by_key key r.table.rows) r)

-- The names that are not blank, trimmed.
unfoldable pub parse_authors : List Text → List Text
unfolding trim_space
parse_authors [] = []
parse_authors (name ∷ names) =
    let rest = parse_authors names in
    let trimmed = trim_space name in if is_empty trimmed then rest else trimmed ∷ rest

unfoldable pub journal_name : RawArticle → Text
journal_name raw = if is_empty raw.journal then raw.source_key else raw.journal

unfoldable pub article_from : ℕ → ℕ → RawArticle → Article
article_from source_id journal_id raw = record {
  id = 0;
  source_id = source_id;
  journal_id = some journal_id;
  title = raw.title;
  abstract = raw.abstract;
  full_text = raw.full_text;
  language = raw.language;
  pub_year = raw.year;
  url = raw.url;
  doi = raw.doi;
  volume = raw.volume;
  issue = raw.issue;
  pages = raw.pages;
  is_retracted = raw.is_retracted;
  retraction_note = raw.retraction_note;
  is_not_preprint_or_manuscript = false;
  peer_review_evidence = raw.peer_review_evidence;
  indexing_evidence = raw.indexing_evidence;
  preprint_evidence = raw.preprint_evidence;
  cited_by_count = raw.cited_by_count;
}

-- What an article takes over from the row of its DOI.
unfoldable pub merge_existing : Article → Option Article → Article
merge_existing a none = a
merge_existing a (some old) = record a {
  is_retracted = a.is_retracted || old.is_retracted;
  retraction_note = if is_empty a.retraction_note then old.retraction_note else a.retraction_note;
}

-- The authors that are written, `none` to keep those of the row, and those of the candidate.
unfoldable pub choose_authors : List Text → List Text → Option (List Text) × List Text
choose_authors (name ∷ parsed) persisted = (some (name ∷ parsed), name ∷ parsed)
choose_authors [] (name ∷ persisted) = (none, name ∷ persisted)
choose_authors [] [] = (some (codes "Unknown author" ∷ []), codes "Unknown author" ∷ [])

-- The authors of the row are read only for an article without any.
unfoldable pub persisted_authors : Calls → List Text → Option Article → Scan → Step Scan (List Text)
unfolding answer
persisted_authors calls [] (some old) r =
    answer (codes "load existing article authors: ") (calls.authors_of r.statements old.id) r
persisted_authors calls [] none r = next r []
persisted_authors calls (_ ∷ _) _ r = next r []

abbrev pub with_id : Article → List Text → Scan → ℕ → Step Scan (Article × List Text)
with_id a names r id = next r (record a { id = id }, names)

-- The call of SaveIngested, with the update of ApplyEligibility.
unfoldable pub save_merged : Calls → RawArticle → Article → Option (List Text) → ℕ → Result ℕ
unfolding journal_name apply_eligibility
save_merged calls raw a names statements =
    calls.save_ingested statements a names
      (apply_eligibility calls.lower a raw.source_key (journal_name raw))

unfoldable pub write_article :
    Calls
    → RawArticle
    → Article
    → Option Article
    → Scan
    → List Text
    → Step Scan (Article × List Text)
unfolding answer save_merged merge_existing choose_authors parse_authors
write_article calls raw a old r persisted =
    let merged = merge_existing a old in
    let (written, candidate) = choose_authors (parse_authors raw.authors) persisted in
    answer (codes "save ingested article: ") (save_merged calls raw merged written r.statements) r
    >>= with_id merged candidate

unfoldable pub with_existing :
    Calls → RawArticle → Article → Scan → Option Article → Step Scan (Article × List Text)
unfolding persisted_authors write_article parse_authors
with_existing calls raw a r old =
    persisted_authors calls (parse_authors raw.authors) old r >>= write_article calls raw a old

unfoldable pub with_journal :
    Calls → RawArticle → Source → Scan → ℕ → Step Scan (Article × List Text)
unfolding answer with_existing article_from
with_journal calls raw s r journal_id =
    answer (codes "load existing article: ") (calls.article_by_doi r.statements raw.doi) r
    >>= with_existing calls raw (article_from s.id journal_id raw)

unfoldable pub with_source : Calls → RawArticle → Scan → Source → Step Scan (Article × List Text)
unfolding answer with_journal journal_name
with_source calls raw r s =
    answer [] (calls.upsert_journal r.statements (journal_name raw)) r >>= with_journal calls raw s

-- saveArticle
unfoldable pub save_article : Calls → RawArticle → Scan → Step Scan (Article × List Text)
unfolding load_source with_source
save_article calls raw r = load_source calls raw.source_key r >>= with_source calls raw
