-- ===== src/Tests/Rules.antt =====
-- The rules of package domain, of the repository and of the rescan, on sample data.
use cindex.Prelude.{
  ℕ, ◌≡◌, ◌<◌, ◌↔◌, ◌⊎◌, ◌+◌, refl, true, false, none, some, List, [], ◌∷◌, Text, text_eq, codes,
  any, All, map, length,
}
use mathlib.Core.List.{Perm}
use cindex.Go.Strings.{join, fields}
use cindex.Domain.Filters.{normalized_sort, signature, is_default, default_filters}
use cindex.Domain.Filters.Signature.{SameSearch, signature_iff, is_default_iff}
use cindex.Domain.Eligibility.{evaluate_eligibility, apply_eligibility, tier_label}
use cindex.Domain.Eligibility.Precedence.{tier_label-eq-none_iff}
use cindex.Domain.Eligibility.Apply.{
  stored, evaluate_eligibility-stored, apply_eligibility_idempotent,
}
use cindex.Domain.SearchJob.{SearchJob}
use cindex.Repository.SearchJobs.{find_active, has_fresh_recent_scan, normalize_job_text}
use cindex.Repository.SearchJobs.Attach.{
  SameRequest, find_active_exact, is_recent, has_fresh_recent_scan-eq-any, IsNewest,
}
use cindex.Service.SourceStats.{compute_source_stats, healthy_count, compute_source_stats-live}
use cindex.Jobs.Keys.{sorted_keys}
use cindex.Jobs.Keys.Order.{IsSorted, sorted_keys-IsSorted}
use cindex.Jobs.Rescan.{determine_rescan, determine_rescan-false_iff, finished_live_scan}
use cindex.Tests.Samples.{newest_first, paper, queued_job, table, healthy_scan}

signature_iff_example :
    (signature newest_first ≡ signature default_filters) ↔ SameSearch newest_first default_filters
signature_iff_example = signature_iff newest_first default_filters

is_default_iff_example :
    (is_default newest_first ≡ true) ↔ (signature newest_first ≡ signature default_filters)
is_default_iff_example = is_default_iff newest_first

abbrev doaj : Text
doaj = codes "doaj"

abbrev journal : Text
journal = codes "Annals"

abbrev same_case : ℕ → ℕ
same_case c = c

tier_label-eq-none_iff_example :
    ((tier_label
          (evaluate_eligibility same_case paper doaj journal).peer_reviewed
          (evaluate_eligibility same_case paper doaj journal).peer_review_conf
        ≡ codes "none")
      ↔ ((evaluate_eligibility same_case paper doaj journal).peer_reviewed ≡ false))
    × ((evaluate_eligibility same_case paper doaj journal).not_preprint ≡ false
        → (evaluate_eligibility same_case paper doaj journal).peer_reviewed ≡ false)
tier_label-eq-none_iff_example = tier_label-eq-none_iff same_case paper doaj journal

evaluate_eligibility-stored_example :
    evaluate_eligibility same_case
      (stored paper (apply_eligibility same_case paper doaj journal))
      doaj
      journal
    ≡ evaluate_eligibility same_case paper doaj journal
evaluate_eligibility-stored_example = evaluate_eligibility-stored same_case paper doaj journal

apply_eligibility_idempotent_example :
    apply_eligibility same_case
      (stored paper (apply_eligibility same_case paper doaj journal))
      doaj
      journal
    ≡ apply_eligibility same_case paper doaj journal
apply_eligibility_idempotent_example = apply_eligibility_idempotent same_case paper doaj journal

find_active_exact_example :
    ((j : SearchJob)
      → find_active (codes "graph theory") [] false default_filters table ≡ some j
        ↔ IsNewest (codes "graph theory") [] false default_filters table j)
    × ((find_active (codes "graph theory") [] false default_filters table ≡ none)
        ↔ All (λ j. ¬ SameRequest (codes "graph theory") [] false default_filters j) table)
find_active_exact_example = find_active_exact (codes "graph theory") [] false default_filters table

-- The queued job is the one that it finds.
found : find_active (codes "graph theory") [] false default_filters table ≡ some queued_job
unfolding find_active text_eq codes normalize_job_text join fields signature normalized_sort
found = refl

has_fresh_recent_scan-eq-any_example :
    has_fresh_recent_scan 60 (codes "graph  theory") 14 (codes "j1") table
    ≡ any (is_recent 60 (codes "graph  theory") 14 (codes "j1")) table
has_fresh_recent_scan-eq-any_example =
    has_fresh_recent_scan-eq-any 60 (codes "graph  theory") 14 (codes "j1") table

abbrev health : List (Text × Text)
health = (doaj, codes "healthy") ∷ (codes "arxiv", codes "down") ∷ []

compute_source_stats-live_example :
    ((compute_source_stats health []).2 ≡ healthy_count health)
    × (length (compute_source_stats health []).1 + (compute_source_stats health []).2
        ≡ (compute_source_stats health []).0)
compute_source_stats-live_example = compute_source_stats-live health []

sorted_keys-IsSorted_example :
    IsSorted (sorted_keys health) × Perm (sorted_keys health) (map (λ e. e.0) health)
sorted_keys-IsSorted_example = sorted_keys-IsSorted health

abbrev interrupted : SearchJob
interrupted = record queued_job { source_timings = (doaj, healthy_scan) ∷ [] }

determine_rescan-false_iff_example : ((determine_rescan interrupted 5 (some true)).0 ≡ false) ↔ (
    ((interrupted.source_timings ≡ []) ⊎ (finished_live_scan interrupted ≡ true))
    × (false ≡ false)
    × (0 < 5)
    × (some true ≡ some true))
determine_rescan-false_iff_example = determine_rescan-false_iff interrupted 5 (some true)
