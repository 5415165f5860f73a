-- ===== src/Httpapi/CreateJob/Answers.antt =====
-- What `CreateSearchJob` (httpapi/search_handlers.go) stores, and what a repeated request answers.
use mathlib.Core.Bool.{false≢true}
use cindex.Prelude.{
  ℕ, ◌≡◌, ◌≢◌, refl, sym, ap, subst, ◌∙◌, Bool, true, false, Option, none, some, List, [], ◌∷◌, map,
  Text, if-cases,
}
use cindex.Go.Errors.{Result, ok, err}
use cindex.Domain.SearchJob.{SearchJob}
use cindex.Repository.SearchJobs.{create, get_by_id}
use cindex.Domain.Filters.{SearchFilters}
use cindex.Httpapi.Validation.{ErrorItem}
use cindex.Httpapi.CreateJob.{
  JobRequest, Database, TxCalls, Calls, Response, invalid, failed, accepted, Outcome, Command,
  fail_or, with_task, create_job_with_task, created, pending_id, job_with, under_lock, beside_lock,
  with_active, create_valid, checked, create_decoded, create_search_job, filters,
}

-- The row of a job that is created at a time.
unfoldable pub stored : ℕ → SearchJob → SearchJob
stored now job = record job { created_at = now; updated_at = now; finished_at = none }

-- The database with the job and its task.
unfoldable pub added : ℕ → SearchJob → Database → Database
unfolding stored
added now job db = record { jobs = stored now job ∷ db.jobs; tasks = job.id ∷ db.tasks }

module _ (P : Result Database → Type 0) (fails : (text : Text) → P (err text)) where
  fail_or-cases :
      (e : Option Text) (label : Text) (rest : Result Database) → P rest → P (fail_or e label rest)
  unfolding fail_or
  fail_or-cases none label rest h = h
  fail_or-cases (some text) label rest h = fails _

  with_task-cases :
      (now : ℕ) (job : SearchJob) (db : Database) (found : Option SearchJob)
      → get_by_id job.id db.jobs ≡ found
      → P (ok (added now job db))
      → P (with_task job.id db (create now job db.jobs))
  unfolding with_task create added stored
  with_task-cases now job db none e h = rw (e, create) h
  with_task-cases now job db (some j) e h = rw (e, create) (fails _)

  -- The transaction fails, or it adds the row and the task.
  create_job_with_task-cases :
      (now : ℕ) (tx : TxCalls) (job : SearchJob) (db : Database)
      → P (ok (added now job db))
      → P (create_job_with_task now tx job db)
  unfolding create_job_with_task
  create_job_with_task-cases now tx job db h = fail_or-cases tx.begin_error _ _ (
      fail_or-cases tx.create_error _ _ (
        fail_or-cases tx.insert_error _ _ (
          fail_or-cases tx.commit_error _ _
            (with_task-cases now job db (get_by_id job.id db.jobs) refl h))))

-- Each job of the table has one task, in the same order.
unfoldable pub Tasked : Database → Type 0
Tasked db = map (λ j. j.id) db.jobs ≡ db.tasks

module _ (digest : Text → Text) (lower : ℕ → ℕ) (c : Calls) (req : JobRequest) (db : Database) where
  abbrev Mine : Text → SearchJob
  Mine = job_with digest lower c req db

  -- The outcome changes nothing and announces no new job, or it adds a job of the request and
  -- announces it.
  pub data Kept : Outcome → Type 0 where
    same : {o : Outcome} → o.db ≡ db → ((j : SearchJob) → o.response ≢ accepted j false) → Kept o
    fresh :
        {o : Outcome} (id : Text)
        → o.db ≡ added c.now (Mine id) db
        → o.response ≡ accepted (Mine id) false
        → Kept o

  is_new : Response → Bool
  is_new (accepted j false) = true
  is_new _ = false

  not_new : (r : Response) → is_new r ≡ false → (j : SearchJob) → r ≢ accepted j false
  unfolding is_new
  not_new r h j e = false≢true (sym h ∙ ap is_new e)

  created-Kept :
      (id : Text) (commands : List Command)
      → Kept (created (Mine id) db commands (create_job_with_task c.now c.tx (Mine id) db))
  unfolding created is_new
  created-Kept id commands =
      create_job_with_task-cases (λ r. Kept (created (Mine id) db commands r))
        (λ text. same refl (not_new failed refl)) c.now c.tx (Mine id) db (fresh id refl refl)

  beside_lock-Kept : (pending : Option Text) → Kept (beside_lock digest lower c req db pending)
  unfolding beside_lock is_new
  beside_lock-Kept (some id) = same refl (not_new (accepted (Mine id) true) refl)
  beside_lock-Kept none = created-Kept c.second_id _

  with_active-Kept : (active : Option SearchJob) → Kept (with_active digest lower c req db active)
  unfolding with_active under_lock is_new
  with_active-Kept (some job) = same refl (not_new (accepted job true) refl)
  with_active-Kept none =
      if-cases Kept c.lock_won _ _ (λ _. created-Kept c.first_id _)
        (λ _. beside_lock-Kept (pending_id c))

  checked-Kept : (items : List ErrorItem) → Kept (checked digest lower c req db items)
  unfolding checked create_valid is_new
  checked-Kept [] = with_active-Kept _
  checked-Kept (item ∷ items) = same refl (not_new (invalid (item ∷ items)) refl)

  create_decoded-Kept : Kept (create_decoded digest lower c req db)
  unfolding create_decoded
  create_decoded-Kept = checked-Kept _

  Kept-Tasked : (o : Outcome) → Kept o → Tasked db → Tasked o.db
  unfolding Tasked added job_with
  Kept-Tasked o (same e _) h = subst Tasked (sym e) h
  Kept-Tasked o (fresh id e _) h = subst Tasked (sym e) (ap (λ tasks. id ∷ tasks) h)

module _ (digest : Text → Text) (lower : ℕ → ℕ) (c : Calls) where
  -- Whatever Redis and the transaction answer, a request keeps the table and the queue in step: each
  -- job has exactly one task, and no task is without its job.
  pub create_search_job-Tasked :
      (body : Result JobRequest) (db : Database)
      → Tasked db
      → Tasked (create_search_job digest lower c body db).db
  unfolding create_search_job
  create_search_job-Tasked (err text) db h = h
  create_search_job-Tasked (ok req) db h =
      Kept-Tasked digest lower c req db _ (create_decoded-Kept digest lower c req db) h

is_accepted : Response → Bool
is_accepted (accepted _ _) = true
is_accepted _ = false

-- Two calls of one request, of which the first one creates a job.
module _ (digest : Text → Text) (lower : ℕ → ℕ) (c again : Calls) (req : JobRequest)
    (db : Database) where
  own_filters : SearchFilters
  own_filters = filters digest lower c req db

  job_of : SearchJob → Response → SearchJob
  job_of other (accepted j _) = j
  job_of other _ = other

  -- The second call on the rows that the first one leaves.
  Attaches : SearchJob → Database → Outcome → Type 0
  Attaches j next o =
      (o.response ≡ accepted (stored c.now j) true) × (o.db ≡ next) × (o.commands ≡ [])
