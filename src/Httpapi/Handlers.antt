-- ===== src/Httpapi/Handlers.antt =====
-- `GetSearchJob` and `ReindexArticles` of backend/internal/httpapi/search_handlers.go. The job, the page and
-- the pagination stand for the payload.
use cindex.Prelude.{
  not, Option, none, some, List, [], ◌∷◌, if◌then◌else◌, Text, codes, text_eq, is_empty,
}
use cindex.Prelude.Int.{ℤ}
use cindex.Go.Strings.{trim_space}
use cindex.Domain.SearchJob.{SearchJob, SearchHit}
use cindex.Repository.SearchJobs.{get_by_id}
use cindex.Httpapi.Validation.{ErrorItem, validate_pagination}
use cindex.Httpapi.Pages.{Pagination, page_params, paginate_hits}

pub data JobResponse : Type 0 where
  -- Status 400 with these items.
  bad_page : List ErrorItem → JobResponse
  -- Status 404.
  no_job : JobResponse
  -- Status 500.
  load_failed : JobResponse
  -- The handler panics.
  panicked : JobResponse
  -- Status 200 with the job, its page and the pagination.
  job_page : SearchJob → List SearchHit → Pagination → JobResponse

page_of : SearchJob → Option (List SearchHit) × Pagination → JobResponse
page_of job (none, pagination) = panicked
page_of job (some hits, pagination) = job_page job hits pagination

found_job : Option ℤ → Option ℤ → Option SearchJob → JobResponse
found_job page per_page none = no_job
found_job page per_page (some job) =
    let params = page_params page per_page in
    page_of job (paginate_hits job.results params.0 params.1)

loaded_job : Option ℤ → Option ℤ → Option Text → Option SearchJob → JobResponse
loaded_job page per_page (some text) found = load_failed
loaded_job page per_page none found = found_job page per_page found

valid_page : List ErrorItem → JobResponse → JobResponse
valid_page [] rest = rest
valid_page (item ∷ items) rest = bad_page (item ∷ items)

-- GetSearchJob over the table; `load_error` is an error of GetByID other than ErrNotFound.
unfoldable pub get_search_job :
    List SearchJob → Option Text → Text → Option ℤ → Option ℤ → JobResponse
unfolding valid_page loaded_job found_job page_of get_by_id page_params paginate_hits
    validate_pagination
get_search_job rows load_error id page per_page =
    valid_page (validate_pagination page per_page)
      (loaded_job page per_page load_error (get_by_id id rows))

pub data ReindexResponse : Type 0 where
  -- Status 503, 403, 500 and 200.
  disabled forbidden reindex_failed queued : ReindexResponse

-- The query of the request: that of its body, if it can be decoded and is not blank.
reindex_query : Option Text → Text
reindex_query none = codes "scientific research"
reindex_query (some q) =
    if is_empty (trim_space q) then codes "scientific research" else trim_space q

ingested : Option Text → ReindexResponse
ingested none = queued
ingested (some text) = reindex_failed

-- ReindexArticles: the response, and the query of the scan if there is one. `ingest` is the error of
-- IngestQuery; the body is `none` if it cannot be decoded or has no query.
unfoldable pub reindex_articles :
    Text → Text → Option Text → (Text → Option Text) → ReindexResponse × Option Text
unfolding reindex_query ingested text_eq trim_space
reindex_articles admin_key header body ingest =
    if is_empty admin_key
    then (disabled, none)
    else if not (text_eq header admin_key)
    then (forbidden, none)
    else (ingested (ingest (reindex_query body)), some (reindex_query body))
