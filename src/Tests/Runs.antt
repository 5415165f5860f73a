-- ===== src/Tests/Runs.antt =====
-- Deliveries of the sample jobs.
use cindex.Prelude.{◌≡◌, refl, some, none, codes, text_eq}
use cindex.Repository.SearchJobs.{get_by_id}
use cindex.Jobs.Rescan.{is_terminal}
use cindex.Jobs.Worker.{work}
use cindex.Jobs.Worker.Phases.{Rows}
use cindex.Jobs.Worker.Phases.Outcome.{Verdict}
use cindex.Jobs.Worker.Delivery.{work-Verdict, work-retry}
use cindex.Tests.Samples.{queued_job, table, calm}

j1-found : get_by_id (codes "j1") table ≡ some queued_job
unfolding get_by_id text_eq codes
j1-found = refl

work-Verdict_example :
    Rows
      (codes "j1")
      table
      (λ new. Verdict calm queued_job new (work calm (codes "j1") table).1)
      (work calm (codes "j1") table).0
work-Verdict_example =
    work-Verdict calm (codes "j1") table queued_job refl j1-found (unfold is_terminal in refl)

work-retry_example :
    work calm (codes "j1") (work calm (codes "j1") table).0
    ≡ ((work calm (codes "j1") table).0, none)
work-retry_example =
    work-retry calm calm (codes "j1") table queued_job refl refl (λ n. refl) j1-found
      (unfold is_terminal in refl)
