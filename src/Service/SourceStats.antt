-- ===== src/Service/SourceStats.antt =====
-- backend/internal/service/ingest.go: the events of a live scan and the health counters.
use cindex.Prelude.{
  ℕ, ◌-◌, ◌+◌, ◌≡◌, none, some, List, [], ◌∷◌, arith, leb, ◌&&◌, if◌then◌else◌, map, Text, codes,
  text_eq, is_empty, length,
}
use cindex.Prelude.Int.{ℤ}
use cindex.Domain.SearchJob.{lookup}

pub record ProgressEvent : Type 0 where
  pub substage : Text
  pub substage_label : Text
  pub done_sources : ℕ
  pub total_sources : ℕ
  pub failed_sources : List Text
  pub timing_source : Text

pub record ProfileEvent : Type 0 where
  pub source_key : Text
  pub status : Text
  pub articles_count : ℕ

-- A call of one of the two callbacks.
pub data ScanEvent : Type 0 where
  progress : ProgressEvent → ScanEvent
  profile : ProfileEvent → ScanEvent

-- IngestOptions; the two callbacks are the events. A negative InitialDone counts as 0.
pub record IngestOptions : Type 0 where
  pub source_keys : List Text
  pub per_source_limit : ℤ
  pub resume_completed_keys : List Text
  pub initial_done : ℕ
  pub initial_failed : List Text

-- `upperASCII`
unfoldable pub upper_ascii : Text → Text
upper_ascii = map (λ b. if leb b'a' b && leb b b'z' then b - 32 else b)

-- The display name of a key, where it has one that is not empty.
unfoldable pub name_of : List (Text × Text) → Text → Text
unfolding lookup upper_ascii
name_of names key = elim (lookup key names) [
  | none ↦ upper_ascii key
  | some name ↦ if is_empty name then upper_ascii key else name
]

-- The loop over the health map, in the order of its iteration.
unfoldable pub failed_names : List (Text × Text) → List (Text × Text) → List Text
failed_names [] names = []
failed_names ((key, status) ∷ health) names =
    let rest = failed_names health names in
    if text_eq status (codes "healthy") then rest else name_of names key ∷ rest

-- ComputeSourceStats: the total, the failed names and the live count. `-` stops at 0.
unfoldable pub compute_source_stats : List (Text × Text) → List (Text × Text) → ℕ × List Text × ℕ
unfolding failed_names name_of
compute_source_stats health names =
    let failed = failed_names health names in (length health, failed, length health - length failed)

pub healthy_count : List (Text × Text) → ℕ
healthy_count [] = 0
healthy_count ((key, status) ∷ health) =
    let rest = healthy_count health in if text_eq status (codes "healthy") then rest + 1 else rest

split_health :
    (health names : List (Text × Text))
    → length (failed_names health names) + healthy_count health ≡ length health
unfolding failed_names healthy_count
split_health [] names = omega arith
split_health ((key, status) ∷ health) names = ground (arith, split_health health names)

-- The live count is the number of healthy sources, and the failed and the live sources are all
-- sources.
pub compute_source_stats-live :
    (health names : List (Text × Text))
    → ((compute_source_stats health names).2 ≡ healthy_count health)
      × (length (compute_source_stats health names).1 + (compute_source_stats health names).2
          ≡ (compute_source_stats health names).0)
unfolding compute_source_stats
compute_source_stats-live health names = omega (arith, split_health health names)
