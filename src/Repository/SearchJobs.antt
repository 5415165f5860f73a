-- ===== src/Repository/SearchJobs.antt =====
-- backend/internal/repository/searchjobs.go over the table search_searchjob: a list of rows, the
-- newest first. A statement that fails changes nothing; the callers model that. The JSON columns
-- hold the values themselves.
pub mod Rows
pub mod Attach
use cindex.Prelude.{
  ℕ, ◌+◌, ◌*◌, Bool, true, false, not, ◌&&◌, Option, none, some, List, [], ◌∷◌, map, ltb,
  if◌then◌else◌, Text, codes, text_eq,
}
use cindex.Go.Strings.{fields, join}
use cindex.Domain.Filters.{SearchFilters, signature}
use cindex.Domain.SearchJob.{SearchJob, JobStatus, queued, running, completed, partial, failed}

-- GetByID; `none` is ErrNotFound.
unfoldable pub get_by_id : Text → List SearchJob → Option SearchJob
get_by_id id [] = none
get_by_id id (j ∷ rows) = if text_eq j.id id then some j else get_by_id id rows

-- UPDATE ... WHERE id = $1
unfoldable pub modify : Text → (SearchJob → SearchJob) → List SearchJob → List SearchJob
modify id f rows = map (λ j. if text_eq j.id id then f j else j) rows

-- The INSERT of `create`; `none` where the primary key is taken.
unfoldable pub create : ℕ → SearchJob → List SearchJob → Option (List SearchJob)
unfolding get_by_id
create now j rows = elim (get_by_id j.id rows) [
  | none ↦ some (record j { created_at = now; updated_at = now; finished_at = none } ∷ rows)
  | some _ ↦ none
]

-- The columns that Update sets.
unfoldable pub update_columns : ℕ → SearchJob → SearchJob → SearchJob
update_columns now j row = record row {
  status = j.status;
  stage = j.stage;
  substage = j.substage;
  substage_label = j.substage_label;
  message = j.message;
  source_total = j.source_total;
  source_done = j.source_done;
  source_live = j.source_live;
  source_failed = j.source_failed;
  source_timings = j.source_timings;
  index_hits_before = j.index_hits_before;
  index_hits_after = j.index_hits_after;
  rescan_triggered = j.rescan_triggered;
  rescan_reason = j.rescan_reason;
  results = j.results;
  error = j.error;
  freshness_days_used = j.freshness_days_used;
  updated_at = now;
  finished_at = j.finished_at;
}

-- Update
unfoldable pub update : ℕ → SearchJob → List SearchJob → List SearchJob
unfolding update_columns
update now j = modify j.id (update_columns now j)

-- The columns that UpdateProgress sets: `status` is not among them.
unfoldable pub progress_columns : ℕ → SearchJob → SearchJob → SearchJob
progress_columns now j row = record row {
  stage = j.stage;
  substage = j.substage;
  substage_label = j.substage_label;
  message = j.message;
  source_total = j.source_total;
  source_done = j.source_done;
  source_live = j.source_live;
  source_failed = j.source_failed;
  source_timings = j.source_timings;
  index_hits_before = j.index_hits_before;
  index_hits_after = j.index_hits_after;
  rescan_triggered = j.rescan_triggered;
  rescan_reason = j.rescan_reason;
  freshness_days_used = j.freshness_days_used;
  updated_at = now;
}

-- UpdateProgress
unfoldable pub update_progress : ℕ → SearchJob → List SearchJob → List SearchJob
unfolding progress_columns
update_progress now j = modify j.id (progress_columns now j)

unfoldable pub normalize_job_text : Text → Text
normalize_job_text v = join (codes " ") (fields v)

abbrev pub is_active : JobStatus → Bool
is_active queued = true
is_active running = true
is_active _ = false

abbrev bool_eq : Bool → Bool → Bool
bool_eq true b = b
bool_eq false b = not b

-- The WHERE clause of FindActive and the test of its loop.
unfoldable pub attachable : Text → Text → Bool → SearchFilters → SearchJob → Bool
attachable query expression force_refresh filters j =
    bool_eq j.force_refresh_requested force_refresh
    && is_active j.status
    && text_eq (normalize_job_text j.query) (normalize_job_text query)
    && text_eq (normalize_job_text j.expression) (normalize_job_text expression)
    && text_eq (signature j.filters) (signature filters)

-- FindActive: the newest such job.
unfoldable pub find_active : Text → Text → Bool → SearchFilters → List SearchJob → Option SearchJob
unfolding attachable
find_active query expression force_refresh filters [] = none
find_active query expression force_refresh filters (j ∷ rows) =
    if attachable query expression force_refresh filters j
    then some j
    else find_active query expression force_refresh filters rows

abbrev pub is_scanned : JobStatus → Bool
is_scanned completed = true
is_scanned partial = true
is_scanned _ = false

-- The later of two times; NULLs are last.
abbrev later : Option ℕ → Option ℕ → Option ℕ
later none t = t
later (some a) none = some a
later (some a) (some b) = if ltb a b then some b else some a

-- The first row of ORDER BY finished_at DESC NULLS LAST; `none` for no row or a NULL.
latest_finish : Text → Text → List SearchJob → Option ℕ
latest_finish query exclude [] = none
latest_finish query exclude (j ∷ rows) =
    let rest = latest_finish query exclude rows in
    if text_eq j.query query && is_scanned j.status && not (text_eq j.id exclude)
    then later j.finished_at rest
    else rest

abbrev day : ℕ
day = 86400

-- HasFreshRecentScan: `finishedAt.After(now - days)`, with the days on the other side.
unfoldable pub has_fresh_recent_scan : ℕ → Text → ℕ → Text → List SearchJob → Bool
unfolding latest_finish
has_fresh_recent_scan now query freshness_days exclude rows =
    elim (latest_finish query exclude rows) [
      | none ↦ false
      | some t ↦ ltb now (t + freshness_days * day)
    ]
