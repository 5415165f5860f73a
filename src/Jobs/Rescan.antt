-- ===== src/Jobs/Rescan.antt =====
-- `determineRescan`, `partialMessage`, `isTerminal`, `truncateError` and `applyJobUpdate` of
-- backend/internal/jobs/searchjob.go.
use cindex.Prelude.{
  ℕ, ◌<◌, ◌≡◌, ◌↔◌, ◌⊎◌, Bool, true, false, not, ◌&&◌, Option, none, some, [], ◌++◌, arith, ltb,
  leb, ◌==◌, if◌then◌else◌, Text, codes, length, inl, inr, Bool-cases, is_empty,
  is_empty-eq-true_iff, take,
}
use cindex.Prelude.Int.{pos}
use cindex.Go.Strconv.{itoa}
use cindex.Domain.SearchJob.{SearchJob, JobStatus, completed, partial, failed, stage_substage}

unfoldable pub is_terminal : JobStatus → Bool
is_terminal completed = true
is_terminal partial = true
is_terminal failed = true
is_terminal _ = false

-- `[]rune(s)[:4000]`
unfoldable pub truncate_error : Text → Text
truncate_error s = if ltb 4000 (length s) then take 4000 s else s

unfoldable pub partial_message : ℕ → Text
partial_message n =
    codes "Готово, но "
    ++ (itoa (pos n)
        ++ (codes " "
            ++ (if n == 1
                then codes "источник недоступен"
                else if ltb n 5
                then codes "источника недоступно"
                else codes "источников недоступно")))

-- The keys that a call of `update` gives: a map from names to values of the right types.
pub record JobFields : Type 0 where
  pub status : Option JobStatus
  pub stage : Option Text
  pub message : Option Text
  pub index_hits_before : Option ℕ
  pub freshness_days_used : Option ℕ
  pub rescan_triggered : Option Bool
  pub rescan_reason : Option Text
  pub substage : Option Text
  pub substage_label : Option Text

abbrev pub no_fields : JobFields
no_fields = record {
  status = none;
  stage = none;
  message = none;
  index_hits_before = none;
  freshness_days_used = none;
  rescan_triggered = none;
  rescan_reason = none;
  substage = none;
  substage_label = none;
}

-- A stage brings its substage, where it has one.
set_stage : Text → SearchJob → SearchJob
set_stage s j = elim (stage_substage s) [
  | none ↦ record j { stage = s }
  | some (sub, label) ↦ record j { stage = s; substage = sub; substage_label = label }
]

abbrev given {ℓ} : {A : Type ℓ} → Option A → A → A
given none old = old
given (some v) old = v

abbrev given_stage : Option Text → SearchJob → SearchJob
given_stage none j = j
given_stage (some s) j = set_stage s j

unfoldable pub apply_job_update : SearchJob → JobFields → SearchJob
unfolding set_stage
apply_job_update j fields =
    let staged = given_stage fields.stage (record j { status = given fields.status j.status }) in
    record staged {
      message = given fields.message staged.message;
      index_hits_before = given fields.index_hits_before staged.index_hits_before;
      freshness_days_used = given fields.freshness_days_used staged.freshness_days_used;
      rescan_triggered = given fields.rescan_triggered staged.rescan_triggered;
      rescan_reason = given fields.rescan_reason staged.rescan_reason;
      substage = given fields.substage staged.substage;
      substage_label = given fields.substage_label staged.substage_label;
    }

-- The test on the counters that Work and determineRescan both make.
unfoldable pub finished_live_scan : SearchJob → Bool
finished_live_scan j =
    ltb 0 j.source_total && leb j.source_total j.source_done && not (is_empty j.source_timings)

-- `fresh` is the answer of HasFreshRecentScan; `none` is its error.
unfoldable pub determine_rescan : SearchJob → ℕ → Option Bool → Bool × Text
determine_rescan j hits_before fresh =
    if not (is_empty j.source_timings) && not (finished_live_scan j)
    then (true, codes "resumed_after_restart")
    else if j.force_refresh_requested
    then (true, codes "forced_by_user")
    else if hits_before == 0
    then (true, codes "empty_index_hits")
    else elim fresh [
      | none ↦ (true, codes "stale_query_scan")
      | some b ↦ if not b then (true, codes "stale_query_scan") else (false, [])
    ]

-- No scan runs exactly when no scan was interrupted, none is forced, the index has hits and a
-- recent scan is known to be fresh.
pub determine_rescan-false_iff :
    (j : SearchJob) (hits_before : ℕ) (fresh : Option Bool)
    → ((determine_rescan j hits_before fresh).0 ≡ false) ↔ (
        ((j.source_timings ≡ []) ⊎ (finished_live_scan j ≡ true))
        × (j.force_refresh_requested ≡ false)
        × (0 < hits_before)
        × (fresh ≡ some true))
unfolding determine_rescan
determine_rescan-false_iff j hits_before fresh = elim (Bool-cases (is_empty j.source_timings)) [
  | inl none_done ↦ (
    λ h. (
      inl ((is_empty-eq-true_iff j.source_timings).0 none_done),
      ground arith,
      ground arith,
      ground arith,
    ),
    λ h. ground arith,
  )
  | inr some_done ↦
      (λ h. (inr (ground arith), ground arith, ground arith, ground arith), λ h. ground arith)
]
