-- ===== src/Jobs/Worker/Delivery.antt =====
-- A delivery of a search job's task: what `Work` does to the table, and what the queue's next
-- delivery of the same task finds.
use cindex.Prelude.{
  ℕ, ◌≡◌, refl, sym, subst, ◌∙◌, ap, ◌||◌, Bool, true, false, Option, none, some, List, arith, Text,
}
use cindex.Domain.SearchJob.{SearchJob}
use cindex.Repository.SearchJobs.{get_by_id}
use cindex.Jobs.Rescan.{is_terminal}
use cindex.Jobs.Run.{Env}
use cindex.Jobs.Worker.{loaded, work, work_on, has_time, pipeline}
use cindex.Jobs.Worker.Phases.{Rows}
use cindex.Jobs.Worker.Phases.Outcome.{
  Verdict, all_sources, some_sources, reported, lost, pipeline-Ensures, outcome-Ended, get_by_id-id,
}

-- The two tests on a loaded row.
abbrev pub is_finished : SearchJob → Bool
is_finished j = is_terminal j.status || has_time j.finished_at

work-eq-work_on :
    (env : Env) (id : Text) (rows : List SearchJob) (j : SearchJob)
    → env.load_error ≡ none
    → get_by_id id rows ≡ some j
    → work env id rows ≡ work_on env rows j
unfolding work
work-eq-work_on env id rows j loads found =
    ap (λ e. loaded env rows e (get_by_id id rows)) loads ∙ ap (loaded env rows none) found

-- A delivery for a finished job changes nothing and returns no error, so the queue drops the task.
work-finished :
    (env : Env) (id : Text) (rows : List SearchJob) (j : SearchJob)
    → env.load_error ≡ none
    → get_by_id id rows ≡ some j
    → is_finished j ≡ true
    → work env id rows ≡ (rows, none)
unfolding work_on
work-finished env id rows j loads found done =
    work-eq-work_on env id rows j loads found ∙ rw done refl

-- A delivery for an unfinished job ends with one of four verdicts on its row: it is completed with
-- no failed source, or partial with some, and no error is returned; or it is failed with the
-- returned error, cut to length; or a write failed, an error is returned, and the row's status,
-- finish, results and error are as they were. The finish time is set in the first three, and no
-- other row changes.
pub work-Verdict :
    (env : Env) (id : Text) (rows : List SearchJob) (j : SearchJob)
    → env.load_error ≡ none
    → get_by_id id rows ≡ some j
    → is_finished j ≡ false
    → Rows id rows (λ new. Verdict env j new (work env id rows).1) (work env id rows).0
unfolding work_on
work-Verdict env id rows j loads found live =
    subst (λ o. Rows id rows (λ new. Verdict env j new o.1) o.0)
      (sym (work-eq-work_on env id rows j loads found ∙ rw live refl))
      (outcome-Ended env id rows j (pipeline env (record { job = j; rows = rows; writes = 0 })) (
        pipeline-Ensures env id rows j (record { job = j; rows = rows; writes = 0 })
          (record {
            own = get_by_id-id id rows j found;
            rows = record {
              row = j;
              found = found;
              holds = record { status = refl; finished_at = refl; results = refl; error = refl };
              others = λ k ne. refl;
            };
          })))

Verdict-is_finished :
    (env : Env) (old new : SearchJob) (error : Option Text)
    → ((n : ℕ) → env.write_error n ≡ none)
    → Verdict env old new error
    → is_finished new ≡ true
unfolding is_terminal
Verdict-is_finished env old new error fine (all_sources t s f e) = rw s refl
Verdict-is_finished env old new error fine (some_sources t s f e) = rw s refl
Verdict-is_finished env old new error fine (reported e t s w f) = rw s refl
Verdict-is_finished env old new error fine (lost e n x w same) = ground (arith, fine n)

-- After a delivery for an unfinished job whose writes all succeed, the next delivery changes
-- nothing and returns no error, whatever its environment answers once it loads the row.
pub work-retry :
    (env again : Env) (id : Text) (rows : List SearchJob) (j : SearchJob)
    → env.load_error ≡ none
    → again.load_error ≡ none
    → ((n : ℕ) → env.write_error n ≡ none)
    → get_by_id id rows ≡ some j
    → is_finished j ≡ false
    → work again id (work env id rows).0 ≡ ((work env id rows).0, none)
work-retry env again id rows j loads loads' fine found live =
    let v = work-Verdict env id rows j loads found live in
    work-finished again id _ v.row loads' v.found (Verdict-is_finished env j v.row _ fine v.holds)
