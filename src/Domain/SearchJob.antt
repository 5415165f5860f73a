-- ===== src/Domain/SearchJob.antt =====
-- backend/internal/domain/search.go and article.go: search jobs, their stages, search hits and
-- quotes. A time is a number of seconds; counters are natural numbers. A map is an association
-- list. A hit has the fields that the modelled code reads or writes.
use cindex.Prelude.{ℕ, Bool, Option, none, some, List, [], ◌∷◌, if◌then◌else◌, Text, codes, text_eq}
use cindex.Prelude.Int.{ℤ}
use cindex.Domain.Filters.{SearchFilters}

-- JobStatusQueued, ...: the code writes no other status.
pub data JobStatus : Type 0 where
  queued running completed partial failed : JobStatus

pub record Quote : Type 0 where
  pub text : Text
  pub location : Text
  pub relevance : ℕ
  pub rationale : Text

pub record SearchHit : Type 0 where
  pub id : ℕ
  pub title : Text
  pub year : Option ℤ
  pub journal : Text
  pub doi : Text
  pub authors : List Text
  pub quotes : List Quote
  pub tldr : Text

-- The durations of a timing are left out: only TotalSeconds is ever set, for display.
pub record SourceTiming : Type 0 where
  pub status : Text
  pub articles_count : ℕ

abbrev pub Timings : Type 0
Timings = List (Text × SourceTiming)

pub record SearchJob : Type 0 where
  pub id : Text
  pub query : Text
  pub expression : Text
  pub force_refresh_requested : Bool
  pub freshness_days_used : ℕ
  pub status : JobStatus
  pub stage : Text
  pub substage : Text
  pub substage_label : Text
  pub message : Text
  pub source_total : ℕ
  pub source_done : ℕ
  pub source_live : ℕ
  pub source_failed : List Text
  pub source_timings : Timings
  pub index_hits_before : ℕ
  pub index_hits_after : ℕ
  pub rescan_triggered : Bool
  pub rescan_reason : Text
  pub results : List SearchHit
  pub error : Text
  pub filters : SearchFilters
  pub created_at : ℕ
  pub updated_at : ℕ
  pub finished_at : Option ℕ

-- The first value of a key in an association list.
unfoldable pub lookup {ℓ} : {V : Type ℓ} → Text → List (Text × V) → Option V
lookup k [] = none
lookup k ((j, v) ∷ m) = if text_eq j k then some v else lookup k m

-- m[k] = v
unfoldable pub insert {ℓ} : {V : Type ℓ} → Text → V → List (Text × V) → List (Text × V)
insert k v [] = (k, v) ∷ []
insert k v ((j, w) ∷ m) = if text_eq j k then (k, v) ∷ m else (j, w) ∷ insert k v m

-- StageSubstage: the substage of a stage and its label.
unfoldable pub stage_substage : Text → Option (Text × Text)
unfolding lookup
stage_substage stage = lookup stage (
    (codes "queued", (codes "queued", codes "Запрос принят"))
    ∷ (codes "checking_index", (codes "index_checking", codes "Проверяем корпус"))
    ∷ (codes "live_scan", (codes "source_collection", codes "Собираем статьи"))
    ∷ (codes "searching_index", (codes "relevance_refresh", codes "Ранжируем статьи"))
    ∷ (codes "completed", (codes "done", codes "Выдача готова"))
    ∷ (codes "failed", (codes "failed", codes "Поиск остановлен"))
    ∷ [])

-- StageProgress
unfoldable pub stage_progress : Text → Option ℕ
unfolding lookup
stage_progress stage = lookup stage (
    (codes "queued", 5)
    ∷ (codes "checking_index", 20)
    ∷ (codes "live_scan", 55)
    ∷ (codes "searching_index", 85)
    ∷ (codes "completed", 100)
    ∷ (codes "partial", 100)
    ∷ (codes "failed", 100)
    ∷ [])
