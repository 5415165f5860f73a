-- ===== src/Tests/Ingest.antt =====
-- The tables of sources and quotes, and a live scan over two connectors.
use cindex.Prelude.Int.{pos}
use cindex.Prelude.{
  ◌≡◌, ◌≢◌, ◌≤◌, ◌<◌, ◌↔◌, ◌⊎◌, ◌+◌, ◌++◌, refl, arith, true, false, none, some, List, [], ◌∷◌,
  Text, codes, length, text_eq, if◌then◌else◌,
}
use cindex.Go.Errors.{ok, err}
use cindex.Go.Steps.{Step, stopped, next}
use cindex.Go.Strings.{has_prefix}
use cindex.Connector.{RawArticle}
use cindex.Domain.Article.{Article}
use cindex.Repository.Sources.{
  SourceTable, SourceRunOutcome, get_by_key, ensure_exists, is_circuit_open, new_source, record_run,
  run_columns,
}
use cindex.Repository.Sources.Breaker.{
  History, after_runs, streak, successes, is_circuit_open_iff, after_runs-counters,
}
use cindex.Repository.Sources.Keys.{Ensured, ensure_exists_lem}
use cindex.Repository.Quotes.{
  claimable, is_stale, set_failed, set_outcome, claim_row, claim, claim_row, claim_select,
  claim_insert, new_claim, set_done, pending, failed, no_text,
}
use cindex.Repository.Quotes.Claims.{
  Statement, select, insert, run, run_all, run_all-done, claim_iff, Event, claims, fails, happen,
  happen_all, happen_all-won_le,
}
use cindex.Service.SourceStats.{IngestOptions}
use cindex.Service.Ingest.{
  Calls, Scan, statement, answer, add_source, upsert_source_name, upsert_source_base_url,
}
use cindex.Service.Ingest.Query.{
  selected, ingest_query, count_resumed, begin, scan_sources, scan_source, find_source, find_or_add,
  visit, process_source, after_fetch, mark, save_all, after_success, after_failure, has_valid_doi,
  enrich_all, enrich_one, keep_enriched,
}
use cindex.Service.Ingest.Save.{
  save_article, load_source, load_or_add, found, with_source, with_journal, with_existing,
  persisted_authors, write_article, article_from, parse_authors, choose_authors, merge_existing,
}
use cindex.Service.Ingest.Advance.{profile_keys}
use cindex.Service.Ingest.Total.{visited, ingest_query-ok}
use cindex.Service.Ingest.Retraction.{Stored, save_article-retracted}
use cindex.Service.Health.{health_of}
use cindex.Service.Health.History.{health_of-healthy_iff}
use cindex.Tests.Samples.{paper}

abbrev doaj : Text
doaj = codes "doaj"

abbrev url : Text
url = codes "https://doaj.org"

abbrev failure : SourceRunOutcome
failure = record { success = false; error = codes "timeout" }

abbrev runs : History
runs = (60, failure) ∷ (30, failure) ∷ []

is_circuit_open_iff_example :
    (is_circuit_open 500 (after_runs (new_source 1 doaj doaj url) ((90, failure) ∷ runs)) ≡ true)
    ↔ ((3 ≤ streak ((90, failure) ∷ runs)) × (500 < 90 + 900))
is_circuit_open_iff_example = is_circuit_open_iff 1 doaj doaj url runs 90 failure 500

after_runs-counters_example :
    ((after_runs (new_source 1 doaj doaj url) runs).total_runs ≡ length runs)
    × ((after_runs (new_source 1 doaj doaj url) runs).total_successes ≡ successes runs)
    × ((after_runs (new_source 1 doaj doaj url) runs).total_successes
          + (after_runs (new_source 1 doaj doaj url) runs).total_failures
        ≡ length runs)
    × ((after_runs (new_source 1 doaj doaj url) runs).consecutive_failures ≡ streak runs)
after_runs-counters_example = after_runs-counters 1 doaj doaj url runs

abbrev no_sources : SourceTable
no_sources = record { rows = []; next_id = 1 }

abbrev one_source : SourceTable
one_source = (ensure_exists doaj doaj url no_sources).1

ensure_exists_lem_example :
    Ensured doaj (ensure_exists doaj doaj url no_sources).0 one_source.rows
    × ((other : Text) → other ≢ doaj → get_by_key other one_source.rows ≡ get_by_key other [])
    × ((ensure_exists doaj doaj url one_source).0 ≡ (ensure_exists doaj doaj url no_sources).0)
    × ((ensure_exists doaj doaj url one_source).1.rows ≡ one_source.rows)
ensure_exists_lem_example = ensure_exists_lem doaj doaj url no_sources

-- Two callers that both find no row.
abbrev race : List Statement
race = select 100 ∷ select 100 ∷ insert 101 ∷ insert 102 ∷ []

-- The winner of the race fails, and a late caller wins.
abbrev retried : List Event
retried =
    claims (select 100)
    ∷ claims (select 100)
    ∷ claims (insert 101)
    ∷ claims (insert 102)
    ∷ fails 160 (codes "m") (codes "no answer")
    ∷ claims (select 161)
    ∷ claims (select 162)
    ∷ []

happen_all-won_le_example : (happen_all retried none).1 ≤ 1 + 1
happen_all-won_le_example = happen_all-won_le 100 retried none (omega arith)

two_win : (happen_all retried none).1 ≡ 2
unfolding happen_all happen run claim_select claim_insert claim_row claimable is_stale set_failed
    set_outcome
two_win = refl

one_wins : (run_all race none).1 ≡ 1
unfolding run_all run claim_select claim_insert
one_wins = refl

run_all-done_example :
    run_all race (some (set_done 90 [] (codes "short") (codes "m") none))
    ≡ (some (set_done 90 [] (codes "short") (codes "m") none), 0)
run_all-done_example = run_all-done race 90 [] (codes "short") (codes "m") none

claim_iff_example :
    (claim 2000 none ≡ (some (new_claim 2000), true))
    × (((claim 2000 (some (new_claim 100))).1 ≡ true) ↔ (
        ((new_claim 100).status ≡ failed)
        ⊎ ((new_claim 100).status ≡ no_text)
        ⊎ (((new_claim 100).status ≡ pending) × ((new_claim 100).updated_at + 900 < 2000))))
    × ((claim 2000 (some (new_claim 100))).0 ≡ some (claim_row 2000 (new_claim 100)).0)
    × ((claim_row 2000 (new_claim 100)).0.quotes ≡ (new_claim 100).quotes)
claim_iff_example = claim_iff 2000 (new_claim 100)

abbrev record_of : Text → RawArticle
record_of key = record {
  source_key = key;
  title = codes "On sets";
  url = codes "https://e.org/1";
  abstract = [];
  full_text = [];
  language = codes "en";
  year = none;
  doi = codes "10.1000/xyz";
  journal = [];
  authors = [];
  volume = [];
  issue = [];
  pages = [];
  peer_review_evidence = [];
  indexing_evidence = [];
  preprint_evidence = [];
  is_retracted = false;
  retraction_note = [];
  cited_by_count = 0;
}

abbrev withdrawn : Article
withdrawn = record paper { is_retracted = true }

-- One connector finds an article, the other fails.
abbrev two_connectors : Calls
two_connectors = record {
  keys = doaj ∷ codes "arxiv" ∷ [];
  has_connector = λ key. true;
  translate = λ query key. query;
  fetch = λ key query limit.
      if text_eq key doaj then ok (record_of key ∷ []) else err (codes "timeout");
  enrich_raw = λ key raw. ok (some raw);
  local_exists = λ doi. false;
  to_raw = λ doi raw. none;
  upsert_journal = λ n name. ok 1;
  article_by_doi = λ n doi. ok (some withdrawn);
  authors_of = λ n id. ok (codes "A. Author" ∷ []);
  save_ingested = λ n a names update. ok 7;
  source_error = λ n. none;
  lower = λ c. c;
  upper = λ c. c;
  clock = λ n. n;
}

abbrev fresh_start : IngestOptions
fresh_start = record {
  source_keys = [];
  per_source_limit = pos 0;
  resume_completed_keys = [];
  initial_done = 0;
  initial_failed = [];
}

abbrev state_of : {A : Type 0} → Step Scan A → Scan → Scan
state_of (stopped r e) none_yet = none_yet
state_of (next r a) none_yet = r

abbrev nothing : Scan
nothing = record {
  table = no_sources;
  statements = 0;
  events = [];
  completed = [];
  failed = [];
  done = 0;
  saved = [];
}

abbrev scanned : Scan
scanned = state_of (ingest_query two_connectors (codes "sets") fresh_start no_sources) nothing

scans : ingest_query two_connectors (codes "sets") fresh_start no_sources ≡ next scanned tt
unfolding ingest_query begin scan_sources scan_source find_source find_or_add visit process_source
    after_fetch mark save_all save_article statement answer add_source ensure_exists get_by_key
    is_circuit_open new_source after_success after_failure load_source load_or_add found with_source
    with_journal with_existing persisted_authors write_article has_valid_doi text_eq codes
    enrich_all enrich_one keep_enriched has_prefix article_from parse_authors choose_authors
    merge_existing upsert_source_name upsert_source_base_url record_run run_columns
scans = refl

ingest_query-ok_example :
    (scanned.completed
      ≡ [] ++ visited two_connectors fresh_start (selected two_connectors fresh_start))
    × (profile_keys scanned.events
        ≡ visited two_connectors fresh_start (selected two_connectors fresh_start))
    × (0 ≤ count_resumed fresh_start (selected two_connectors fresh_start) → scanned.done ≡ 2)
ingest_query-ok_example =
    ingest_query-ok two_connectors (codes "sets") fresh_start no_sources scanned scans

abbrev saved_article : Article
saved_article = record (merge_existing (article_from 1 1 (record_of doaj)) (some withdrawn)) {
  id = 7;
}

abbrev after_save : Scan
after_save = state_of (save_article two_connectors (record_of doaj) nothing) nothing

saves :
    save_article two_connectors (record_of doaj) nothing
    ≡ next after_save (saved_article, codes "A. Author" ∷ [])
unfolding save_article statement answer add_source ensure_exists get_by_key new_source load_source
    load_or_add found with_source with_journal with_existing persisted_authors write_article text_eq
    codes article_from parse_authors choose_authors merge_existing upsert_source_name
    upsert_source_base_url
saves = refl

save_article-retracted_example :
    Stored two_connectors
      (record_of doaj)
      (some withdrawn)
      after_save
      (saved_article, codes "A. Author" ∷ [])
save_article-retracted_example =
    save_article-retracted two_connectors (record_of doaj) (some withdrawn) nothing after_save
      saved_article (codes "A. Author" ∷ []) (λ n. refl) saves

health_of-healthy_iff_example :
    (health_of 100 (some (after_runs (new_source 1 doaj doaj url) runs)) ≡ codes "healthy") ↔ (
      (is_circuit_open 100 (after_runs (new_source 1 doaj doaj url) runs) ≡ false)
      × ((runs ≡ []) ⊎ (0 < successes runs)))
health_of-healthy_iff_example = health_of-healthy_iff 1 doaj doaj url 100 runs
