-- ===== src/Service/Ingest/Query.antt =====
-- `IngestQuery`, `processSource` and `enrichOne` of backend/internal/service/ingest_live.go.
use cindex.Prelude.{
  ℕ, ◌+◌, Bool, true, false, not, ◌&&◌, Option, none, some, List, [], ◌∷◌, ◌++◌, any, ltb, ◌==◌,
  ◌-◌, if◌then◌else◌, Text, codes, text_eq, is_empty, length,
}
use cindex.Prelude.Int.{ℤ}
use cindex.Go.Errors.{Result, ok, err}
use cindex.Go.Steps.{Step, next, ◌>>=◌}
use cindex.Go.Strings.{has_prefix}
use cindex.Connector.{RawArticle}
use cindex.Domain.Article.{Article}
use cindex.Repository.Sources.{
  Source, SourceTable, SourceRunOutcome, get_by_key, record_run, is_circuit_open, new_source,
}
use cindex.Service.SourceStats.{IngestOptions}
use cindex.Service.Ingest.{
  Calls, Scan, statement, add_source, source_name, truncate_run_error, report, close,
  upsert_source_name, upsert_source_base_url,
}
use cindex.Service.Ingest.Save.{save_article}

-- A connector's answer: the raw record where it fails, `none` to drop the record.
unfoldable pub keep_enriched : RawArticle → Result (Option RawArticle) → Option RawArticle
keep_enriched raw (err _) = some raw
keep_enriched raw (ok enriched) = enriched

-- enrichOne: the local store first.
unfoldable pub enrich_one : Calls → Text → RawArticle → Option RawArticle
unfolding keep_enriched
enrich_one calls key raw =
    let asked = keep_enriched raw (calls.enrich_raw key raw) in
    if calls.local_exists raw.doi
    then elim (calls.to_raw raw.doi raw) [ some local ↦ some local | none ↦ asked ]
    else asked

unfoldable pub enrich_all : Calls → Text → List RawArticle → List RawArticle
unfolding enrich_one
enrich_all calls key [] = []
enrich_all calls key (raw ∷ raws) =
    let rest = enrich_all calls key raws in
    elim (enrich_one calls key raw) [ none ↦ rest | some enriched ↦ enriched ∷ rest ]

-- RecordRun as one statement.
unfoldable pub mark : Calls → Source → SourceRunOutcome → Scan → Step Scan (Unit {0})
unfolding statement record_run
mark calls s outcome r = statement calls r >>= (λ r _.
    let now = calls.clock r.statements in
    let table = record r.table { rows = record_run s.id outcome now r.table.rows } in
    next (record r { table = table }) tt)

-- The DOI test of the loop that saves.
unfoldable pub has_valid_doi : RawArticle → Bool
has_valid_doi raw = not (is_empty raw.doi) && has_prefix raw.doi (codes "10.")

abbrev pub keep_saved : Scan → Article × List Text → Step Scan (Unit {0})
keep_saved r candidate = next (record r { saved = r.saved ++ candidate ∷ [] }) tt

-- Saves the records with a valid DOI; the others are dropped.
unfoldable pub save_all : Calls → List RawArticle → Scan → Step Scan (Unit {0})
unfolding save_article has_valid_doi
save_all calls [] r = next r tt
save_all calls (raw ∷ raws) r =
    (if has_valid_doi raw then save_article calls raw r >>= keep_saved else next r tt)
    >>= (λ r _. save_all calls raws r)

abbrev pub count_done : Scan → Scan
count_done r = record r { done = r.done + 1 }

abbrev pub count_failed : Text → Scan → Scan
count_failed name r = record r { failed = r.failed ++ name ∷ [] }

abbrev pub add_key : Text → Scan → Unit {0} → Step Scan (Unit {0})
add_key key r _ = next (record r { completed = r.completed ++ key ∷ [] }) tt

-- A source that was skipped or that failed.
unfoldable pub give_up : ℕ → Text → Text → Text → Text → Text → Scan → Scan
unfolding report close
give_up total key name status substage label r =
    report total name substage label (close key status 0 (count_done (count_failed name r)))

-- A source whose articles are saved; `before` is the number of those saved before it.
unfoldable pub finish : ℕ → Text → Text → ℕ → Scan → Scan
unfolding report close
finish total key name before r =
    report total name (codes "completed") (codes "Источник обработан")
      (close key (codes "completed") (length r.saved - before) (count_done r))

unfoldable pub after_success :
    Calls → ℕ → Text → Text → List RawArticle → Scan → Unit {0} → Step Scan (Unit {0})
unfolding report save_all finish
after_success calls total key name enriched r _ =
    save_all calls enriched (report total name (codes "indexing") (codes "Индексируем статьи") r)
    >>= (λ r' _. next (finish total key name (length r.saved) r') tt)

unfoldable pub after_failure : ℕ → Text → Text → Scan → Unit {0} → Step Scan (Unit {0})
unfolding give_up
after_failure total key name r _ =
    next (give_up total key name (codes "failed") (codes "failed") (codes "Источник не ответил") r)
      tt

-- What follows the answer of Fetch.
unfoldable pub after_fetch :
    Calls → ℕ → Text → Source → Result (List RawArticle) → Scan → Step Scan (Unit {0})
unfolding mark truncate_run_error enrich_all report after_success after_failure source_name
after_fetch calls total key s (err e) r =
    mark calls s (record { success = false; error = truncate_run_error e }) r
    >>= after_failure total key (source_name calls s key)
after_fetch calls total key s (ok raws) r =
    let name = source_name calls s key in
    mark calls s (record { success = true; error = [] })
      (report total name (codes "enriching") (codes "Обогащаем карточки") r)
    >>= after_success calls total key name (enrich_all calls key raws)

-- processSource
unfoldable pub process_source : Calls → ℕ → Text → ℤ → Text → Source → Scan → Step Scan (Unit {0})
unfolding report after_fetch source_name
process_source calls total query limit key s r =
    after_fetch calls total key s (calls.fetch key (calls.translate query key) limit)
      (report total (source_name calls s key) (codes "fetching") (codes "Собираем статьи") r)

unfoldable pub find_or_add : Calls → Text → Option Source → Scan → Step Scan Source
unfolding add_source new_source upsert_source_name upsert_source_base_url
find_or_add calls key (some s) r = next r s
find_or_add calls key none r = add_source calls key r >>= (λ r id.
    next r (new_source id key (upsert_source_name calls key) (upsert_source_base_url key)))

-- The row of a source, or a new one.
unfoldable pub find_source : Calls → Text → Scan → Step Scan Source
unfolding statement find_or_add get_by_key
find_source calls key r =
    statement calls r >>= (λ r _. find_or_add calls key (get_by_key key r.table.rows) r)

unfoldable pub skip : Calls → ℕ → Text → Source → Scan → Step Scan (Unit {0})
unfolding give_up source_name
skip calls total key s r =
    next
      (give_up total key (source_name calls s key) (codes "skipped") (codes "source_skipped")
        (codes "Источник пропущен") r)
      tt

-- A source of which the circuit is open is skipped.
unfoldable pub visit : Calls → ℕ → Text → ℤ → Text → Scan → Source → Step Scan (Unit {0})
unfolding is_circuit_open skip process_source
visit calls total query limit key r s =
    (if is_circuit_open (calls.clock r.statements) s
      then skip calls total key s r
      else process_source calls total query limit key s r)
    >>= add_key key

abbrev pub is_resumed : IngestOptions → Text → Bool
is_resumed options key = any (text_eq key) options.resume_completed_keys

-- The body of the loop.
unfoldable pub scan_source : Calls → ℕ → Text → IngestOptions → Text → Scan → Step Scan (Unit {0})
unfolding find_source visit
scan_source calls total query options key r =
    if is_resumed options key
    then next r tt
    else if calls.has_connector key
    then find_source calls key r >>= visit calls total query options.per_source_limit key
    else next (count_done r) tt

unfoldable pub scan_sources :
    Calls → ℕ → Text → IngestOptions → List Text → Scan → Step Scan (Unit {0})
unfolding scan_source
scan_sources calls total query options [] r = next r tt
scan_sources calls total query options (key ∷ keys) r =
    scan_source calls total query options key r
    >>= (λ r _. scan_sources calls total query options keys r)

-- The sources of a list that the test holds of.
unfoldable pub count_resumed : IngestOptions → List Text → ℕ
count_resumed options [] = 0
count_resumed options (key ∷ keys) =
    let rest = count_resumed options keys in if is_resumed options key then rest + 1 else rest

abbrev pub larger : ℕ → ℕ → ℕ
larger a b = if ltb a b then b else a

-- The sources of a scan: all connectors where the options name none.
abbrev or_keys : List Text → List Text → List Text
or_keys keys [] = keys
or_keys keys (key ∷ source_keys) = key ∷ source_keys

abbrev pub selected : Calls → IngestOptions → List Text
selected calls options = or_keys calls.keys options.source_keys

-- The state in front of the loop, with the first event reported.
unfoldable pub begin : Calls → IngestOptions → SourceTable → Scan
unfolding report count_resumed
begin calls options table =
    let done = larger options.initial_done (count_resumed options (selected calls options)) in
    let queued = done == 0 in
    report (length (selected calls options)) []
      (if queued then codes "queued" else codes "resuming")
      (if queued then codes "Запрос принят" else codes "Возобновляем поиск после рестарта")
      (record {
        table = table;
        statements = 0;
        events = [];
        completed = options.resume_completed_keys;
        failed = options.initial_failed;
        done = done;
        saved = [];
      })

-- IngestQuery, but the best-effort backfill behind the loop.
unfoldable pub ingest_query : Calls → Text → IngestOptions → SourceTable → Step Scan (Unit {0})
unfolding begin scan_sources
ingest_query calls query options table =
    scan_sources calls (length (selected calls options)) query options (selected calls options)
      (begin calls options table)
