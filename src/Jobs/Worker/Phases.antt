-- ===== src/Jobs/Worker/Phases.antt =====
-- What the phases of a run keep: the job's id, and of the stored rows all but the columns of
-- progress of the job's own row.
pub mod Outcome
use mathlib.Core.Option
use cindex.Prelude.{
  ℕ, suc, ◌≡◌, ◌≢◌, refl, ap, sym, ◌∙◌, Bool, true, false, Option, none, some, List, [], ◌∷◌, arith,
  if◌then◌else◌, Text, text_eq, text_eq_iff, text_eq_refl,
}
use mathlib.Core.Logic.{inl, inr}
use cindex.Prelude.{Bool-cases, codes, is_empty}
use cindex.Go.Errors.{Result, ok, err}
use cindex.Domain.SearchJob.{SearchJob, JobStatus, stage_substage}
use cindex.Repository.SearchJobs.{
  get_by_id, update, update_progress, progress_columns, update_columns,
}
use cindex.Repository.SearchJobs.Rows.{get_by_id-modify}
use cindex.Service.SourceStats.{ScanEvent, progress, profile, IngestOptions}
use cindex.Jobs.Callbacks.{on_progress, on_profile}
use cindex.Jobs.Rescan.{apply_job_update, JobFields, finished_live_scan}
use cindex.Jobs.Run.{Env, Run, persist, update_job, handle_event, handle_events, written, set_stage}
use cindex.Jobs.Worker.{
  record_source_health, record_health, start, enter_ranking, start_extraction, set_counters,
  to_ranking,
}

-- What the phases leave alone in the stored row.
pub record SameRow (old new : SearchJob) : Type 0 where
  pub status : new.status ≡ old.status
  pub finished_at : new.finished_at ≡ old.finished_at
  pub results : new.results ≡ old.results
  pub error : new.error ≡ old.error

-- The row of the id, and the rows of the others.
pub record Rows (id : Text) (before : List SearchJob) (P : SearchJob → Type 0)
    (now : List SearchJob) : Type 0 where
  pub row : SearchJob
  pub found : get_by_id id now ≡ some row
  pub holds : P row
  pub others : (k : Text) → k ≢ id → get_by_id k now ≡ get_by_id k before

-- Between the first write and the last.
record Kept (id : Text) (before : List SearchJob) (old : SearchJob) (r : Run) : Type 0 where
  pub own : r.job.id ≡ id
  pub rows : Rows id before (SameRow old) r.rows

module _ (now : ℕ) (j : SearchJob) where
  get_by_id-update_progress :
      (k : Text) (rows : List SearchJob)
      → get_by_id k (update_progress now j rows) ≡ (
          if text_eq k j.id
          then Option.map (progress_columns now j) (get_by_id k rows)
          else get_by_id k rows)
  unfolding update_progress
  get_by_id-update_progress k rows =
      get_by_id-modify j.id k (progress_columns now j) rows (λ r. unfold progress_columns in refl)

  get_by_id-update :
      (k : Text) (rows : List SearchJob)
      → get_by_id k (update now j rows) ≡ (
          if text_eq k j.id
          then Option.map (update_columns now j) (get_by_id k rows)
          else get_by_id k rows)
  unfolding update
  get_by_id-update k rows =
      get_by_id-modify j.id k (update_columns now j) rows (λ r. unfold update_columns in refl)

written-Rows :
    {id : Text} {before : List SearchJob} (P : SearchJob → Type 0) (o : Option Text)
    (new prior : List SearchJob)
    → Rows id before P new
    → Rows id before P prior
    → Rows id before P (written o new prior)
written-Rows P none new prior h k = h
written-Rows P (some e) new prior h k = k

apply_job_update-id : (j : SearchJob) (f : JobFields) → (apply_job_update j f).id ≡ j.id
unfolding apply_job_update
apply_job_update-id j f = ground arith

module _ {id : Text} {before : List SearchJob} {old : SearchJob} where
  update_progress-Rows :
      (now : ℕ) (j : SearchJob) {rows : List SearchJob}
      → j.id ≡ id
      → Rows id before (SameRow old) rows
      → Rows id before (SameRow old) (update_progress now j rows)
  update_progress-Rows now j {rows} own h = record {
    row = progress_columns now j h.row;
    found =
        ground (arith, get_by_id-update_progress now j id rows, text_eq_iff id j.id, h.found, own);
    holds =
        unfold progress_columns in
        record {
          status = h.holds.status;
          finished_at = h.holds.finished_at;
          results = h.holds.results;
          error = h.holds.error;
        };
    others = λ k ne.
        ground
          (arith, get_by_id-update_progress now j k rows, text_eq_iff k j.id, h.others k ne, own);
  }

  module _ (env : Env) where
    persist-Kept : (r : Run) → Kept id before old r → Kept id before old (persist env r)
    unfolding persist
    persist-Kept r h = record {
      own = h.own;
      rows =
          written-Rows (SameRow old) (env.write_error r.writes) _ r.rows
            (update_progress-Rows (env.clock r.writes) r.job h.own h.rows) h.rows;
    }

    set_job-Kept :
        (r : Run) (j : SearchJob)
        → j.id ≡ r.job.id
        → Kept id before old r
        → Kept id before old (persist env (record r { job = j }))
    set_job-Kept r j same h =
        persist-Kept (record r { job = j }) (record { own = same ∙ h.own; rows = h.rows })

    update_job-Kept :
        (f : JobFields) (r : Run) → Kept id before old r → Kept id before old (update_job env f r)
    unfolding update_job
    update_job-Kept f r h =
        set_job-Kept r (apply_job_update r.job f) (apply_job_update-id r.job f) h

    handle_event-Kept :
        (e : ScanEvent) (r : Run) → Kept id before old r → Kept id before old (handle_event env e r)
    unfolding handle_event on_progress on_profile
    handle_event-Kept (progress e) r h = set_job-Kept r _ refl h
    handle_event-Kept (profile e) r h = elim (Bool-cases (is_empty e.source_key)) [
      | inl ignored ↦ rw (ignored, handle_event) h
      | inr named ↦ rw (named, handle_event) (set_job-Kept r _ refl h)
    ]

    handle_events-Kept :
        (events : List ScanEvent) (r : Run)
        → Kept id before old r
        → Kept id before old (handle_events env events r)
    unfolding handle_events
    handle_events-Kept [] r h = h
    handle_events-Kept (e ∷ events) r h =
        handle_events-Kept events (handle_event env e r) (handle_event-Kept e r h)

    record_health-Kept :
        (health names : Result (List (Text × Text))) (r : Run)
        → Kept id before old r
        → Kept id before old (record_health env health names r)
    unfolding record_health set_counters
    record_health-Kept (err _) names r h = h
    record_health-Kept (ok []) names r h = h
    record_health-Kept (ok (_ ∷ _)) (err _) r h = h
    record_health-Kept (ok (_ ∷ _)) (ok _) r h = set_job-Kept r _ refl h

    record_source_health-Kept :
        (r : Run) → Kept id before old r → Kept id before old (record_source_health env r)
    unfolding record_source_health
    record_source_health-Kept r h = record_health-Kept env.health env.names r h

    live_scan_skipped-Kept :
        (r : Run)
        → Kept id before old r
        → Kept id before old (
            if finished_live_scan r.job
            then update_job env to_ranking r
            else record_source_health env r)
    live_scan_skipped-Kept r h = elim (Bool-cases (finished_live_scan r.job)) [
      | inl done ↦ rw done (update_job-Kept to_ranking r h)
      | inr other ↦ rw other (record_source_health-Kept r h)
    ]

    enter_ranking-Kept : (r : Run) → Kept id before old r → Kept id before old (enter_ranking env r)
    unfolding enter_ranking
    enter_ranking-Kept r h = elim (Bool-cases (text_eq r.job.stage (codes "searching_index"))) [
      | inl there ↦ rw there h
      | inr other ↦ rw other (update_job-Kept to_ranking r h)
    ]
