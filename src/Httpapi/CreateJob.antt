-- ===== src/Httpapi/CreateJob.antt =====
-- `CreateSearchJob` of backend/internal/httpapi/search_handlers.go. The answers of Redis, which other
-- requests change at any time, of the transaction's calls and of uuid are an argument; the commands
-- to Redis are part of the outcome. SHA-256 and the case table are parameters. A call of the
-- transaction that fails leaves the database as it was.
pub mod Answers
use cindex.Prelude.{
  ℕ, Bool, true, false, not, ◌&&◌, Option, none, some, List, [], ◌∷◌, ◌++◌, if◌then◌else◌, Text,
  codes, text_eq, is_empty,
}
use cindex.Prelude.Int.{ℤ}
use cindex.Go.Errors.{Result, ok, err}
use cindex.Go.Strings.{fields, join}
use cindex.Go.Unicode.{to_lower}
use cindex.Domain.Filters.{SearchFilters, signature}
use cindex.Domain.SearchJob.{SearchJob, queued, stage_substage}
use cindex.Repository.SearchJobs.{create, find_active}
use cindex.Httpapi.Validation.{ErrorItem, validate_job_create}

-- SearchJobCreateRequest; a field that is left out is `none`.
pub record JobRequest : Type 0 where
  pub query : Text
  pub expression : Option Text
  pub force_refresh : Option Bool
  pub peer_reviewed_only : Option Bool
  pub indexed_only : Option Bool
  pub exclude_preprints : Option Bool
  pub exclude_retracted : Option Bool
  pub year_from : Option ℤ
  pub year_to : Option ℤ
  pub sort_by : Option Text

unfoldable pub deref_str : Option Text → Text
deref_str none = []
deref_str (some s) = s

unfoldable pub deref_bool : Option Bool → Bool
deref_bool none = false
deref_bool (some b) = b

-- The sort mode of the filters: empty for the default one.
unfoldable pub requested_sort : Option Text → Text
requested_sort none = []
requested_sort (some s) = if not (is_empty s) && not (text_eq s (codes "relevance")) then s else []

-- filtersFromRequest
unfoldable pub filters_from_request : JobRequest → SearchFilters
unfolding deref_bool requested_sort
filters_from_request req = record {
  peer_reviewed_only = deref_bool req.peer_reviewed_only;
  indexed_only = deref_bool req.indexed_only;
  exclude_preprints = deref_bool req.exclude_preprints;
  exclude_retracted = deref_bool req.exclude_retracted;
  year_from = req.year_from;
  year_to = req.year_to;
  sort_by = requested_sort req.sort_by;
}

-- normalizeJobText of this package, which lowers the case.
unfoldable pub normalize_key_text : (ℕ → ℕ) → Text → Text
normalize_key_text lower s = to_lower lower (join (codes " ") (fields s))

bool_int : Bool → Text
bool_int true = codes "1"
bool_int false = codes "0"

-- jobKeyMaterial
unfoldable pub job_key_material : (ℕ → ℕ) → Text → Text → Bool → SearchFilters → Text
unfolding normalize_key_text bool_int join
job_key_material lower query expression force_refresh filters = join (codes "|") (
    normalize_key_text lower query
    ∷ normalize_key_text lower expression
    ∷ codes "0"
    ∷ bool_int force_refresh
    ∷ signature filters
    ∷ [])

-- StageSubstage["queued"]
substage_of : Option (Text × Text) → Text × Text
substage_of none = ([], [])
substage_of (some sub) = sub

-- buildQueuedJob; the fields that it leaves out have their zero values.
unfoldable pub build_queued_job : ℕ → ℕ → Text → Text → Text → Bool → SearchFilters → SearchJob
unfolding substage_of stage_substage
build_queued_job days now id query expression force_refresh filters =
    let sub = substage_of (stage_substage (codes "queued")) in
    record {
      id = id;
      query = query;
      expression = expression;
      force_refresh_requested = force_refresh;
      freshness_days_used = days;
      status = queued;
      stage = codes "queued";
      substage = sub.0;
      substage_label = sub.1;
      message = codes "Задача поставлена в очередь";
      source_total = 0;
      source_done = 0;
      source_live = 0;
      source_failed = [];
      source_timings = [];
      index_hits_before = 0;
      index_hits_after = 0;
      rescan_triggered = false;
      rescan_reason = [];
      results = [];
      error = [];
      filters = filters;
      created_at = now;
      updated_at = now;
      finished_at = none;
    }

-- The table of jobs and the queue's tasks, by the ids of their jobs.
pub record Database : Type 0 where
  pub jobs : List SearchJob
  pub tasks : List Text

-- The errors of the transaction's calls.
pub record TxCalls : Type 0 where
  pub begin_error : Option Text
  pub create_error : Option Text
  pub insert_error : Option Text
  pub commit_error : Option Text

fail_or : Option Text → Text → Result Database → Result Database
fail_or none label rest = rest
fail_or (some text) label rest = err (label ++ text)

with_task : Text → Database → Option (List SearchJob) → Result Database
with_task id db none = err (codes "create search job: duplicate key")
with_task id db (some jobs) = ok (record { jobs = jobs; tasks = id ∷ db.tasks })

-- createJobWithTask
unfoldable pub create_job_with_task : ℕ → TxCalls → SearchJob → Database → Result Database
unfolding fail_or with_task create
create_job_with_task now tx job db = fail_or tx.begin_error (codes "begin tx: ") (
    fail_or tx.create_error (codes "create search job: ") (
      fail_or tx.insert_error (codes "insert river task: ") (
        fail_or tx.commit_error (codes "commit tx: ")
          (with_task job.id db (create now job db.jobs)))))

pub data Command : Type 0 where
  set_nx : Text → Command
  set : Text → Text → Command
  get : Text → Command
  del : Text → Text → Command

-- What the calls of one request answer. uuid.New is called at most twice.
pub record Calls : Type 0 where
  pub now : ℕ
  pub days : ℕ
  pub find_error : Option Text
  pub lock_won : Bool
  pub pending : Text
  pub parse_uuid : Text → Option Text
  pub first_id : Text
  pub second_id : Text
  pub tx : TxCalls

pub data Response : Type 0 where
  -- Status 400 with this text.
  malformed : Text → Response
  -- Status 400 with these items.
  invalid : List ErrorItem → Response
  -- Status 500.
  failed : Response
  -- The job of the payload and attached_to_existing: status 200 if it is set, 202 if not.
  accepted : SearchJob → Bool → Response

pub record Outcome : Type 0 where
  pub response : Response
  pub db : Database
  pub commands : List Command

-- findActiveJob
unfoldable pub find_active_job : Option Text → Option SearchJob → Option SearchJob
find_active_job none found = found
find_active_job (some text) found = none

-- A job that has been created, or not.
unfoldable pub created : SearchJob → Database → List Command → Result Database → Outcome
created job db commands (ok next) = record {
  response = accepted job false;
  db = next;
  commands = commands;
}
created job db commands (err text) = record { response = failed; db = db; commands = commands }

-- The id of another request that is creating the job.
pending_id : Calls → Option Text
pending_id c = if is_empty c.pending then none else c.parse_uuid c.pending

module _ (digest : Text → Text) (lower : ℕ → ℕ) (c : Calls) (req : JobRequest) (db : Database) where
  unfoldable pub filters : SearchFilters
  unfolding filters_from_request
  filters = filters_from_request req

  -- The queued job of this request with an id.
  unfoldable pub job_with : Text → SearchJob
  unfolding build_queued_job deref_str deref_bool filters
  job_with id =
      build_queued_job c.days c.now id req.query (deref_str req.expression)
        (deref_bool req.force_refresh) filters

  key_digest : Text
  key_digest = digest (
      job_key_material lower req.query (deref_str req.expression) (deref_bool req.force_refresh)
        filters)

  lock_key : Text
  lock_key = codes "search-job-create:" ++ key_digest

  pending_key : Text
  pending_key = codes "search-job-pending:" ++ key_digest

  -- The request that holds the lock.
  under_lock : Outcome
  under_lock =
      created (job_with c.first_id) db
        (set_nx lock_key ∷ set pending_key c.first_id ∷ del lock_key pending_key ∷ [])
        (create_job_with_task c.now c.tx (job_with c.first_id) db)

  beside_lock : Option Text → Outcome
  beside_lock (some id) = record {
    response = accepted (job_with id) true;
    db = db;
    commands = set_nx lock_key ∷ get pending_key ∷ [];
  }
  beside_lock none =
      created (job_with c.second_id) db (set_nx lock_key ∷ get pending_key ∷ [])
        (create_job_with_task c.now c.tx (job_with c.second_id) db)

  with_active : Option SearchJob → Outcome
  with_active (some job) = record { response = accepted job true; db = db; commands = [] }
  with_active none = if c.lock_won then under_lock else beside_lock (pending_id c)

  -- The request behind its checks.
  unfoldable pub create_valid : Outcome
  unfolding with_active under_lock beside_lock pending_id lock_key pending_key key_digest created
      job_with create_job_with_task job_key_material find_active_job deref_str deref_bool filters
  create_valid = with_active (
      find_active_job c.find_error (
        find_active req.query (deref_str req.expression) (deref_bool req.force_refresh) filters
          db.jobs))

  checked : List ErrorItem → Outcome
  checked [] = create_valid
  checked items = record { response = invalid items; db = db; commands = [] }

  -- The request behind its decoding.
  unfoldable pub create_decoded : Outcome
  unfolding checked create_valid deref_str
  create_decoded = checked (
      validate_job_create req.query (deref_str req.expression) req.year_from req.year_to
        req.sort_by)

module _ (digest : Text → Text) (lower : ℕ → ℕ) (c : Calls) where
  -- CreateSearchJob, over the answer of decodeJSON.
  unfoldable pub create_search_job : Result JobRequest → Database → Outcome
  unfolding create_decoded
  create_search_job (err text) db = record {
    response = malformed (codes "JSON parse error - " ++ text);
    db = db;
    commands = [];
  }
  create_search_job (ok req) db = create_decoded digest lower c req db
