-- ===== src/Jobs/Worker/Phases/Outcome.antt =====
-- What a run leaves in the table, on every path through it.
use mathlib.Core.Logic.{inl, inr}
use cindex.Prelude.Int.{pos}
use cindex.Prelude.{
  ℕ, ◌≡◌, ◌≢◌, refl, sym, ◌∙◌, Bool, true, false, Option, none, some, List, [], ◌∷◌, ◌++◌, arith,
  Text, codes, text_eq, text_eq_iff, is_empty, is_empty-eq-true_iff, Bool-cases, Option-cases,
}
use cindex.Go.Errors.{Result, ok, err}
use cindex.Domain.SearchJob.{SearchJob, SearchHit, completed, partial, failed}
use cindex.Repository.SearchJobs.{get_by_id, update, update_columns}
use cindex.Service.SourceStats.{IngestOptions}
use cindex.Jobs.Keys.{sorted_keys}
use cindex.Jobs.Rescan.{truncate_error}
use cindex.Go.Steps.{Step, stopped, next, ◌>>=◌}
use cindex.Jobs.Run.{Env, Run, run_scan, fail, ask, ingest, after_ingest, failed_job, set_stage}
use cindex.Jobs.Worker.{
  ScanEvent, start, decide_rescan, live_scan, enter_ranking, start_extraction, complete,
  count_after, with_authors, rank, scan_and_rank, decide_and_scan, outcome, pipeline, completed_job,
}
use cindex.Jobs.Worker.Phases.{
  SameRow, Rows, Kept, get_by_id-update, update_job-Kept, handle_events-Kept,
  live_scan_skipped-Kept, enter_ranking-Kept,
}

-- What the row says after a run that returned the error, or none. Only a failed write leaves a row
-- without a terminal status.
pub data Verdict (env : Env) (old new : SearchJob) : Option Text → Type 0 where
  all_sources :
      (t : ℕ)
      → new.status ≡ completed
      → new.source_failed ≡ []
      → new.finished_at ≡ some t
      → Verdict env old new none
  some_sources :
      (t : ℕ)
      → new.status ≡ partial
      → new.source_failed ≢ []
      → new.finished_at ≡ some t
      → Verdict env old new none
  reported :
      (e : Text) (t : ℕ)
      → new.status ≡ failed
      → new.error ≡ truncate_error e
      → new.finished_at ≡ some t
      → Verdict env old new (some e)
  lost :
      (e : Text) (n : ℕ) (x : Text)
      → env.write_error n ≡ some x
      → SameRow old new
      → Verdict env old new (some e)

completed_job-id :
    (results : List SearchHit) (hits_after now : ℕ) (j : SearchJob)
    → (completed_job results hits_after now j).id ≡ j.id
unfolding completed_job set_stage
completed_job-id results hits_after now j = ground arith

module _ (env : Env) (id : Text) (before : List SearchJob) (old : SearchJob) where
  abbrev pub Ended : Option Text → List SearchJob → Type 0
  Ended error = Rows id before (λ new. Verdict env old new error)

  abbrev Ensures : {A : Type 0} → (Run → Type 0) → Step Run A → Type 0
  Ensures Q (stopped r e) = Ended (some e) r.rows
  Ensures Q (next r a) = Q r

  bind-Ensures :
      {A B : Type 0} (Q : Run → Type 0) (m : Step Run A) (f : Run → A → Step Run B)
      → Ensures (Kept id before old) m
      → ((r : Run) (a : A) → Kept id before old r → Ensures Q (f r a))
      → Ensures Q (m >>= f)
  bind-Ensures Q (stopped r e) f h k = h
  bind-Ensures Q (next r a) f h k = k r a h

  -- A last write of the job.
  update-Rows :
      (P : SearchJob → Type 0) (now : ℕ) (j : SearchJob) {rows : List SearchJob}
      → j.id ≡ id
      → Rows id before (SameRow old) rows
      → ((row : SearchJob) → P (update_columns now j row))
      → Rows id before P (update now j rows)
  update-Rows P now j {rows} own h holds = record {
    row = update_columns now j h.row;
    found = ground (arith, get_by_id-update now j id rows, text_eq_iff id j.id, h.found, own);
    holds = holds h.row;
    others = λ k ne.
        ground (arith, get_by_id-update now j k rows, text_eq_iff k j.id, h.others k ne, own);
  }

  same-Ended :
      (e : Text) (n : ℕ) (x : Text) {rows : List SearchJob}
      → env.write_error n ≡ some x
      → Rows id before (SameRow old) rows
      → Ended (some e) rows
  same-Ended e n x w h = record {
    row = h.row;
    found = h.found;
    holds = lost e n x w h.holds;
    others = h.others;
  }

  set_stage-id : (s : Text) (j : SearchJob) → (set_stage s j).id ≡ j.id
  unfolding set_stage
  set_stage-id s j = ground arith

  fail-Ended :
      (A : Type 0) (Q : Run → Type 0) (message e : Text) (r : Run)
      → Kept id before old r
      → Ensures {A = A} Q (fail env message e r)
  unfolding fail failed_job
  fail-Ended A Q message e r h = elim (Option-cases (env.write_error r.writes)) [
    | inl fine ↦ rw fine (
        update-Rows _ (env.clock r.writes) _ (set_stage-id (codes "failed") r.job ∙ h.own) h.rows
          (λ row. unfold update_columns in reported e (env.clock r.writes) refl refl refl))
    | inr (x, bad) ↦ rw bad (same-Ended e r.writes x bad h.rows)
  ]

  ask-Ensures :
      {A : Type 0} (message : Text) (m : Result A) (r : Run)
      → Kept id before old r
      → Ensures (Kept id before old) (ask env message m r)
  unfolding ask
  ask-Ensures message (ok a) r h = h
  ask-Ensures {A} message (err e) r h = fail-Ended A (Kept id before old) message e r h

  after_ingest-Ensures :
      (error : Option Text) (r : Run)
      → Kept id before old r
      → Ensures (Kept id before old) (after_ingest env error r)
  unfolding after_ingest
  after_ingest-Ensures none r h = h
  after_ingest-Ensures (some e) r h = fail-Ended (Unit {0}) (Kept id before old) _ e r h

  abbrev options : Run → IngestOptions
  options r = record {
    source_keys = [];
    per_source_limit = pos 0;
    resume_completed_keys = sorted_keys r.job.source_timings;
    initial_done = r.job.source_done;
    initial_failed = r.job.source_failed;
  }

  run_scan-Ensures :
      (c : List ScanEvent × Option Text) (r : Run)
      → Kept id before old r
      → Ensures (Kept id before old) (run_scan env c r)
  unfolding run_scan
  run_scan-Ensures c r h = after_ingest-Ensures c.1 _ (handle_events-Kept env c.0 r h)

  live_scan-Ensures :
      (triggered : Bool) (r : Run)
      → Kept id before old r
      → Ensures (Kept id before old) (live_scan env triggered r)
  unfolding live_scan ingest
  live_scan-Ensures true r h = run_scan-Ensures (env.ingest r.job.query (options r)) r h
  live_scan-Ensures false r h = live_scan_skipped-Kept env r h

  set_stage-source_failed :
      (s : Text) (j : SearchJob) → (set_stage s j).source_failed ≡ j.source_failed
  unfolding set_stage
  set_stage-source_failed s j = ground arith

  completed_job-Verdict :
      (results : List SearchHit) (hits_after now : ℕ) (j row : SearchJob)
      → Verdict env old (update_columns now (completed_job results hits_after now j) row) none
  unfolding completed_job update_columns
  completed_job-Verdict results hits_after now j row =
      let same = set_stage-source_failed (codes "completed") j in
      elim (Bool-cases (is_empty j.source_failed)) [
        | inl all_live ↦
            all_sources now (rw all_live) (same ∙ (is_empty-eq-true_iff _).0 all_live) refl
        | inr down ↦
            some_sources now (rw down)
              (λ nil. ground (arith, (is_empty-eq-true_iff j.source_failed).1 (sym same ∙ nil)))
              refl
      ]

  complete-Ensures :
      (results : List SearchHit) (hits_after : ℕ) (r : Run)
      → Kept id before old r
      → Ensures (λ r'. Ended none r'.rows) (complete env results hits_after r)
  unfolding complete
  complete-Ensures results hits_after r h = elim (Option-cases (env.write_error r.writes)) [
    | inl fine ↦
        rw (fine, Ensures)
          (update-Rows (λ new. Verdict env old new none) (env.clock r.writes) _
            (completed_job-id results hits_after (env.clock r.writes) r.job ∙ h.own) h.rows
            (completed_job-Verdict results hits_after (env.clock r.writes) r.job))
    | inr (x, bad) ↦
        rw (bad, Ensures) (same-Ended (codes "persist completed job: " ++ x) r.writes x bad h.rows)
  ]

  start-Kept : (r : Run) → Kept id before old r → Kept id before old (start env r)
  unfolding start
  start-Kept r h = update_job-Kept env _ r h

  start_extraction-Kept :
      (r : Run) → Kept id before old r → Kept id before old (start_extraction env r)
  unfolding start_extraction
  start_extraction-Kept r h = update_job-Kept env _ r h

  decide_rescan-Ensures :
      (hits : ℕ) (r : Run)
      → Kept id before old r
      → Ensures (Kept id before old) (decide_rescan env hits r)
  unfolding decide_rescan
  decide_rescan-Ensures hits r h = update_job-Kept env _ r h

  module _ {A : Type 0} (Q : Run → Type 0) where
    then :
        (f : Run → A → Step Run (Unit {0}))
        → ((r : Run) (a : A) → Kept id before old r → Ensures Q (f r a))
        → (m : Step Run A) → Ensures (Kept id before old) m
        → Ensures Q (m >>= f)
    then f k m h = bind-Ensures Q m f h k

  abbrev Done : Run → Type 0
  Done r = Ended none r.rows

  count_after-Ensures :
      (r : Run) (hits : List SearchHit)
      → Kept id before old r
      → Ensures Done (count_after env r hits)
  unfolding count_after
  count_after-Ensures r hits h =
      then Done
        (λ r' hits_after. complete env (env.enrich hits) hits_after (start_extraction env r'))
        (λ r' n k. complete-Ensures (env.enrich hits) n _ (start_extraction-Kept r' k))
        (ask env (codes "Ошибка подсчёта результатов") env.hits_after r)
        (ask-Ensures (codes "Ошибка подсчёта результатов") env.hits_after r h)

  with_authors-Ensures :
      (r : Run) (hits : List SearchHit)
      → Kept id before old r
      → Ensures Done (with_authors env r hits)
  unfolding with_authors
  with_authors-Ensures r hits h =
      then Done (count_after env) count_after-Ensures _
        (ask-Ensures (codes "Ошибка загрузки авторов") (env.attach_authors hits) r h)

  rank-Ensures : (r : Run) (u : Unit {0}) → Kept id before old r → Ensures Done (rank env r u)
  unfolding rank
  rank-Ensures r u h = then Done (with_authors env) with_authors-Ensures _ (
      ask-Ensures (codes "Ошибка ранжирования") _ (enter_ranking env r)
        (enter_ranking-Kept env r h))

  scan_and_rank-Ensures :
      (r : Run) (triggered : Bool)
      → Kept id before old r
      → Ensures Done (scan_and_rank env r triggered)
  unfolding scan_and_rank
  scan_and_rank-Ensures r triggered h =
      then Done (rank env) rank-Ensures _ (live_scan-Ensures triggered r h)

  decide_and_scan-Ensures :
      (r : Run) (hits : ℕ) → Kept id before old r → Ensures Done (decide_and_scan env r hits)
  unfolding decide_and_scan
  decide_and_scan-Ensures r hits h =
      then Done (scan_and_rank env) scan_and_rank-Ensures (decide_rescan env hits r)
        (decide_rescan-Ensures hits r h)

  pub pipeline-Ensures : (r : Run) → Kept id before old r → Ensures Done (pipeline env r)
  unfolding pipeline
  pipeline-Ensures r h =
      then Done (decide_and_scan env) decide_and_scan-Ensures _ (
        ask-Ensures (codes "Ошибка проверки корпуса") env.hits_before (start env r)
          (start-Kept r h))

  pub outcome-Ended : (s : Step Run (Unit {0})) → Ensures Done s → Ended (outcome s).1 (outcome s).0
  outcome-Ended (stopped r e) h = h
  outcome-Ended (next r _) h = h

pub get_by_id-id :
    (id : Text) (rows : List SearchJob) (j : SearchJob) → get_by_id id rows ≡ some j → j.id ≡ id
unfolding get_by_id
get_by_id-id id [] j e = ground arith
get_by_id-id id (r ∷ rows) j e = elim (Bool-cases (text_eq r.id id)) [
  | inl same ↦ ground (arith, text_eq_iff r.id id)
  | inr other ↦ get_by_id-id id rows j (sym (rw other refl) ∙ e)
]
