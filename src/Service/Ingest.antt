-- ===== src/Service/Ingest.antt =====
-- backend/internal/service/ingest_live.go: the live scan of the sources. Its state is the table of
-- sources, the number of statements so far, the events of the two callbacks, and the variables of
-- IngestQuery; lists grow at the end, as the slices do.
pub mod Save
pub mod Query
pub mod Advance
pub mod Visit
pub mod Total
pub mod Retraction
use cindex.Prelude.{
  ℕ, zero, suc, ◌+◌, Bool, true, false, Option, none, some, List, [], ◌∷◌, ◌++◌, map, ltb,
  if◌then◌else◌, Text, codes, text_eq, is_empty, length, take,
}
use cindex.Prelude.Int.{ℤ}
use cindex.Go.Errors.{Result, ok, err}
use cindex.Go.Steps.{Step, stopped, next, ◌>>=◌}
use cindex.Connector.{RawArticle}
use cindex.Domain.Article.{Article}
use cindex.Domain.Eligibility.{EligibilityUpdate}
use cindex.Service.SourceStats.{ScanEvent, progress, profile}
use cindex.Repository.Sources.{Source, SourceTable, get_by_key, ensure_exists, new_source}

-- What the scan calls: the connectors, the translation, the local store, the tables of articles and
-- journals, the case maps of package unicode, and the clock. An answer of a table depends on the
-- number of statements before it; `source_error` is the failure of a statement on the sources.
pub record Calls : Type 0 where
  pub keys : List Text
  pub has_connector : Text → Bool
  pub translate : Text → Text → Text
  pub fetch : Text → Text → ℤ → Result (List RawArticle)
  pub enrich_raw : Text → RawArticle → Result (Option RawArticle)
  pub local_exists : Text → Bool
  pub to_raw : Text → RawArticle → Option RawArticle
  pub upsert_journal : ℕ → Text → Result ℕ
  pub article_by_doi : ℕ → Text → Result (Option Article)
  pub authors_of : ℕ → ℕ → Result (List Text)
  pub save_ingested : ℕ → Article → Option (List Text) → EligibilityUpdate → Result ℕ
  pub source_error : ℕ → Option Text
  pub lower : ℕ → ℕ
  pub upper : ℕ → ℕ
  pub clock : ℕ → ℕ

pub record Scan : Type 0 where
  pub table : SourceTable
  pub statements : ℕ
  pub events : List ScanEvent
  pub completed : List Text
  pub failed : List Text
  pub done : ℕ
  pub saved : List (Article × List Text)

unfoldable pub upsert_source_name : Calls → Text → Text
upsert_source_name calls key =
    if text_eq key (codes "local_import") then codes "LOCAL IMPORT" else map calls.upper key

unfoldable pub upsert_source_base_url : Text → Text
upsert_source_base_url key =
    if text_eq key (codes "local_import")
    then codes "https://local-import.invalid"
    else codes "https://" ++ (key ++ codes ".org")

-- `sourceName` of a source that is there.
unfoldable pub source_name : Calls → Source → Text → Text
source_name calls s key = if is_empty s.name then map calls.upper key else s.name

-- `truncateError` of this package.
unfoldable pub truncate_run_error : Text → Text
truncate_run_error msg = if ltb 2000 (length msg) then take 2000 msg else msg

-- One statement on the table of sources, or its failure.
unfoldable pub statement : Calls → Scan → Step Scan (Unit {0})
statement calls r = elim (calls.source_error r.statements) [
  | none ↦ next (record r { statements = suc r.statements }) tt
  | some e ↦ stopped (record r { statements = suc r.statements }) e
]

-- A call of a table of which the answer is a parameter; its error gets the caller's words in front.
unfoldable pub answer : {A : Type 0} → Text → Result A → Scan → Step Scan A
answer words (ok a) r = next (record r { statements = suc r.statements }) a
answer words (err e) r = stopped (record r { statements = suc r.statements }) (words ++ e)

-- EnsureExists with the name and the URL of a new source.
unfoldable pub add_source : Calls → Text → Scan → Step Scan ℕ
unfolding statement ensure_exists upsert_source_name upsert_source_base_url
add_source calls key r = statement calls r >>= (λ r _.
    let (id, table) =
      ensure_exists key (upsert_source_name calls key) (upsert_source_base_url key) r.table in
    next (record r { table = table }) id)

abbrev emit : ScanEvent → Scan → Scan
emit e r = record r { events = r.events ++ e ∷ [] }

-- A progress event with the counters as they are.
unfoldable pub report : ℕ → Text → Text → Text → Scan → Scan
report total timing_source substage label r =
    emit
      (progress (record {
        substage = substage;
        substage_label = label;
        done_sources = r.done;
        total_sources = total;
        failed_sources = r.failed;
        timing_source = timing_source;
      }))
      r

-- A profile event of a source.
unfoldable pub close : Text → Text → ℕ → Scan → Scan
close key status articles_count =
    emit (profile (record { source_key = key; status = status; articles_count = articles_count }))
