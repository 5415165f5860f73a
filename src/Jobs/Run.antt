-- ===== src/Jobs/Run.antt =====
-- The state of `Work` in backend/internal/jobs/searchjob.go, what it asks of other services, and its
-- closures: a run holds the job in memory and the rows of the table; `writes` counts its writes. Each
-- answer of a service may be an error, and each write may fail.
use cindex.Prelude.Int.{pos}
use cindex.Prelude.{ℕ, suc, Option, none, some, List, [], ◌∷◌, Text, codes}
use cindex.Go.Errors.{Result, ok, err}
use cindex.Domain.Filters.{SearchFilters}
use cindex.Domain.SearchJob.{SearchJob, SearchHit, failed, stage_substage}
use cindex.Go.Steps.{Step, stopped, next}
use cindex.Service.SourceStats.{ScanEvent, progress, profile, IngestOptions}
use cindex.Repository.SearchJobs.{update, update_progress}
use cindex.Jobs.Keys.{sorted_keys}
use cindex.Jobs.Callbacks.{on_progress, on_profile}
use cindex.Jobs.Rescan.{JobFields, apply_job_update, truncate_error}

-- The services that Work calls. The ingestor calls its callbacks in the order of the list.
pub record Env : Type 0 where
  pub load_error : Option Text
  pub hits_before : Result ℕ
  pub fresh_error : Option Text
  pub ingest : Text → IngestOptions → List ScanEvent × Option Text
  pub health : Result (List (Text × Text))
  pub names : Result (List (Text × Text))
  pub ranked : Text → Text → SearchFilters → Result (List SearchHit)
  pub attach_authors : List SearchHit → Result (List SearchHit)
  pub hits_after : Result ℕ
  pub enrich : List SearchHit → List SearchHit
  pub freshness : ℕ
  pub clock : ℕ → ℕ
  pub write_error : ℕ → Option Text

pub record Run : Type 0 where
  pub job : SearchJob
  pub rows : List SearchJob
  pub writes : ℕ

abbrev pub written : Option Text → List SearchJob → List SearchJob → List SearchJob
written none new old = new
written (some _) new old = old

-- UpdateProgress; an error is only logged.
unfoldable pub persist : Env → Run → Run
persist env r = record r {
  rows =
      written (env.write_error r.writes) (update_progress (env.clock r.writes) r.job r.rows) r.rows;
  writes = suc r.writes;
}

-- The closure `update`.
unfoldable pub update_job : Env → JobFields → Run → Run
unfolding persist
update_job env fields r = persist env (record r { job = apply_job_update r.job fields })

-- The stage "failed" or "completed" with its substage.
unfoldable pub set_stage : Text → SearchJob → SearchJob
set_stage stage j = elim (stage_substage stage) [
  | none ↦ record j { stage = stage; substage = []; substage_label = [] }
  | some (sub, label) ↦ record j { stage = stage; substage = sub; substage_label = label }
]

unfoldable pub failed_job : Text → Text → ℕ → SearchJob → SearchJob
failed_job message e now j = record (set_stage (codes "failed") j) {
  status = failed;
  message = message;
  error = truncate_error e;
  finished_at = some now;
}

-- The closure `fail`.
unfoldable pub fail : {A : Type 0} → Env → Text → Text → Run → Step Run A
unfolding failed_job set_stage
fail env message e r =
    let now = env.clock r.writes in
    let j = failed_job message e now r.job in
    stopped
      (record {
        job = j;
        rows = written (env.write_error r.writes) (update now j r.rows) r.rows;
        writes = suc r.writes;
      })
      e

-- The value of a call, or `fail` with the message.
unfoldable pub ask : {A : Type 0} → Env → Text → Result A → Run → Step Run A
unfolding fail
ask env message (ok a) r = next r a
ask env message (err e) r = fail env message e r

unfoldable pub handle_event : Env → ScanEvent → Run → Run
unfolding persist
handle_event env (progress e) r = persist env (record r { job = on_progress e r.job })
handle_event env (profile e) r = elim (on_profile e r.job) [
  | none ↦ r
  | some j ↦ persist env (record r { job = j })
]

unfoldable pub handle_events : Env → List ScanEvent → Run → Run
unfolding handle_event
handle_events env [] r = r
handle_events env (e ∷ events) r = handle_events env events (handle_event env e r)

unfoldable pub after_ingest : Env → Option Text → Run → Step Run (Unit {0})
after_ingest env none r = next r tt
after_ingest env (some e) r = fail env (codes "Ошибка сбора статей") e r

-- The callbacks in their order, then the error of IngestQuery.
unfoldable pub run_scan : Env → List ScanEvent × Option Text → Run → Step Run (Unit {0})
unfolding handle_events after_ingest
run_scan env (events, error) r = after_ingest env error (handle_events env events r)

unfoldable pub ingest : Env → Run → Step Run (Unit {0})
unfolding run_scan
ingest env r =
    run_scan env
      (env.ingest r.job.query (record {
        source_keys = [];
        per_source_limit = pos 0;
        resume_completed_keys = sorted_keys r.job.source_timings;
        initial_done = r.job.source_done;
        initial_failed = r.job.source_failed;
      }))
      r
