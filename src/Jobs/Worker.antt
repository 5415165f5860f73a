-- ===== src/Jobs/Worker.antt =====
-- `Work` of backend/internal/jobs/searchjob.go, phase by phase.
pub mod Phases
pub mod Delivery
use cindex.Prelude.{
  ℕ, zero, suc, ◌≡◌, Bool, true, false, ◌||◌, Option, none, some, List, [], ◌∷◌, ◌++◌,
  if◌then◌else◌, Text, codes, text_eq, is_empty, length, ◌==◌, not,
}
use cindex.Go.Errors.{Result, ok, err}
use cindex.Domain.Filters.{SearchFilters}
use cindex.Domain.SearchJob.{
  SearchJob, SearchHit, JobStatus, running, completed, partial, failed, stage_substage,
}
use cindex.Jobs.Run.{
  Env, Run, written, persist, update_job, set_stage, failed_job, fail, ask, handle_event,
  handle_events, after_ingest, run_scan, ingest,
}
use cindex.Go.Steps.{Step, stopped, next, ◌>>=◌}
use cindex.Service.SourceStats.{
  ScanEvent, progress, profile, ProgressEvent, ProfileEvent, IngestOptions, compute_source_stats,
}
use cindex.Repository.SearchJobs.{get_by_id, update, update_progress, has_fresh_recent_scan}
use cindex.Jobs.Keys.{sorted_keys}
use cindex.Jobs.Callbacks.{on_progress, on_profile}
use cindex.Jobs.Rescan.{
  JobFields, no_fields, apply_job_update, is_terminal, truncate_error, partial_message,
  finished_live_scan, determine_rescan,
}

set_counters : List (Text × Text) → List (Text × Text) → SearchJob → SearchJob
set_counters health names j =
    let (total, down, live) = compute_source_stats health names in
    record j { source_total = total; source_done = total; source_live = live; source_failed = down }

-- `recordSourceHealth` on the answers of SourceHealth and SourceNames; its errors are only logged.
record_health : Env → Result (List (Text × Text)) → Result (List (Text × Text)) → Run → Run
unfolding set_counters persist
record_health env (err _) names r = r
record_health env (ok []) names r = r
record_health env (ok (h ∷ health)) (err _) r = r
record_health env (ok (h ∷ health)) (ok names) r =
    persist env (record r { job = set_counters (h ∷ health) names r.job })

record_source_health : Env → Run → Run
unfolding record_health
record_source_health env = record_health env env.health env.names

abbrev to_ranking : JobFields
to_ranking = record no_fields {
  stage = some (codes "searching_index");
  message = some (codes "Ранжируем найденные статьи и собираем выдачу");
}

start : Env → Run → Run
unfolding update_job
start env = update_job env (record no_fields {
  status = some running;
  stage = some (codes "checking_index");
  message = some (codes "Проверяем, есть ли уже подходящие статьи в корпусе");
})

-- `w.Freshness`, or two weeks where it is not set.
abbrev freshness_days : Env → ℕ
freshness_days env = if env.freshness == 0 then 14 else env.freshness

-- determineRescan with its query of the table; the answer says whether to scan.
decide_rescan : Env → ℕ → Run → Step Run Bool
unfolding update_job
decide_rescan env hits r =
    let fresh : Option Bool = elim env.fresh_error [
      | some _ ↦ none
      | none ↦ some (
          has_fresh_recent_scan (env.clock r.writes) r.job.query (freshness_days env) r.job.id
            r.rows)
    ] in
    let (triggered, reason) = determine_rescan r.job hits fresh in
    next
      (update_job env
        (record no_fields {
          index_hits_before = some hits;
          freshness_days_used = some (freshness_days env);
          rescan_triggered = some triggered;
          rescan_reason = some reason;
        })
        r)
      triggered

live_scan : Env → Bool → Run → Step Run (Unit {0})
unfolding ingest record_source_health update_job
live_scan env true r = ingest env r
live_scan env false r =
    next
      (if finished_live_scan r.job then update_job env to_ranking r else record_source_health env r)
      tt

enter_ranking : Env → Run → Run
unfolding update_job
enter_ranking env r =
    if text_eq r.job.stage (codes "searching_index") then r else update_job env to_ranking r

start_extraction : Env → Run → Run
unfolding update_job
start_extraction env = update_job env (record no_fields {
  stage = some (codes "searching_index");
  substage = some (codes "quote_extraction");
  substage_label = some (codes "Извлекаем цитаты (PERELMAN)");
  message = some (codes "Извлекаем релевантные цитаты из статей");
})

completed_job : List SearchHit → ℕ → ℕ → SearchJob → SearchJob
unfolding set_stage
completed_job results hits_after now j =
    let all_live = is_empty j.source_failed in
    record (set_stage (codes "completed") j) {
      status = if all_live then completed else partial;
      message = if all_live then codes "Готово" else partial_message (length j.source_failed);
      index_hits_after = hits_after;
      results = results;
      finished_at = some now;
    }

-- The last write; its error is returned.
complete : Env → List SearchHit → ℕ → Run → Step Run (Unit {0})
unfolding completed_job
complete env results hits_after r =
    let now = env.clock r.writes in
    let j = completed_job results hits_after now r.job in
    elim (env.write_error r.writes) [
      | none ↦ next (record { job = j; rows = update now j r.rows; writes = suc r.writes }) tt
      | some e ↦
          stopped (record { job = j; rows = r.rows; writes = suc r.writes })
            (codes "persist completed job: " ++ e)
    ]

-- The rest of Work, one phase after the other: each is handed to `>>=` as what follows a call.
count_after : Env → Run → List SearchHit → Step Run (Unit {0})
unfolding ask complete start_extraction
count_after env r hits =
    ask env (codes "Ошибка подсчёта результатов") env.hits_after r
    >>= (λ r' hits_after. complete env (env.enrich hits) hits_after (start_extraction env r'))

with_authors : Env → Run → List SearchHit → Step Run (Unit {0})
unfolding ask count_after
with_authors env r hits =
    ask env (codes "Ошибка загрузки авторов") (env.attach_authors hits) r >>= count_after env

rank : Env → Run → Unit {0} → Step Run (Unit {0})
unfolding ask enter_ranking with_authors
rank env r _ =
    let r' = enter_ranking env r in
    ask env (codes "Ошибка ранжирования") (env.ranked r'.job.query r'.job.expression r'.job.filters)
      r'
    >>= with_authors env

scan_and_rank : Env → Run → Bool → Step Run (Unit {0})
unfolding live_scan rank
scan_and_rank env r triggered = live_scan env triggered r >>= rank env

decide_and_scan : Env → Run → ℕ → Step Run (Unit {0})
unfolding decide_rescan scan_and_rank
decide_and_scan env r hits = decide_rescan env hits r >>= scan_and_rank env

-- Everything behind the tests on the loaded row, but the statistics of waiting times.
pub pipeline : Env → Run → Step Run (Unit {0})
unfolding ask start decide_and_scan
pipeline env r =
    ask env (codes "Ошибка проверки корпуса") env.hits_before (start env r) >>= decide_and_scan env

abbrev pub has_time : Option ℕ → Bool
has_time none = false
has_time (some _) = true

abbrev outcome : Step Run (Unit {0}) → List SearchJob × Option Text
outcome (stopped r e) = (r.rows, some e)
outcome (next r _) = (r.rows, none)

pub work_on : Env → List SearchJob → SearchJob → List SearchJob × Option Text
unfolding pipeline
work_on env rows j =
    if is_terminal j.status || has_time j.finished_at
    then (rows, none)
    else outcome (pipeline env (record { job = j; rows = rows; writes = 0 }))

-- What follows the answer of GetByID.
abbrev pub loaded :
    Env → List SearchJob → Option Text → Option SearchJob → List SearchJob × Option Text
loaded env rows (some e) _ = (rows, some (codes "load search job: " ++ e))
loaded env rows none none = (rows, none)
loaded env rows none (some j) = work_on env rows j

-- Work: the rows that it leaves, and the error that it returns.
unfoldable pub work : Env → Text → List SearchJob → List SearchJob × Option Text
work env id rows = loaded env rows env.load_error (get_by_id id rows)
