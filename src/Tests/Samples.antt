-- ===== src/Tests/Samples.antt =====
-- The sample data of the tests.
use cindex.Prelude.{true, false, none, some, List, [], ◌∷◌, codes}
use cindex.Prelude.Int.{pos}
use cindex.Go.Errors.{ok}
use cindex.Domain.Article.{Article}
use cindex.Domain.Filters.{SearchFilters, default_filters, sort_newest}
use cindex.Domain.SearchJob.{SearchJob, SourceTiming, queued, completed}
use cindex.Service.SourceStats.{progress, profile}
use cindex.Jobs.Run.{Env}

abbrev pub newest_first : SearchFilters
newest_first = record default_filters { year_from = some (pos 1999); sort_by = sort_newest }

abbrev pub paper : Article
paper = record {
  id = 1;
  source_id = 2;
  journal_id = none;
  title = codes "On sets";
  abstract = codes "Indexed in Scopus.";
  full_text = [];
  language = codes "en";
  pub_year = some (pos 2020);
  url = codes "https://e.org/1";
  doi = codes "10.1000/xyz";
  volume = [];
  issue = [];
  pages = [];
  is_retracted = false;
  retraction_note = [];
  is_not_preprint_or_manuscript = true;
  peer_review_evidence = [];
  indexing_evidence = [];
  preprint_evidence = [];
  cited_by_count = 0;
}

abbrev pub healthy_scan : SourceTiming
healthy_scan = record { status = codes "healthy"; articles_count = 3 }

abbrev pub queued_job : SearchJob
queued_job = record {
  id = codes "j1";
  query = codes "graph  theory";
  expression = [];
  force_refresh_requested = false;
  freshness_days_used = 14;
  status = queued;
  stage = codes "queued";
  substage = codes "queued";
  substage_label = [];
  message = [];
  source_total = 0;
  source_done = 0;
  source_live = 0;
  source_failed = [];
  source_timings = [];
  index_hits_before = 0;
  index_hits_after = 0;
  rescan_triggered = false;
  rescan_reason = [];
  results = [];
  error = [];
  filters = default_filters;
  created_at = 100;
  updated_at = 100;
  finished_at = none;
}

abbrev pub finished_job : SearchJob
finished_job = record queued_job {
  id = codes "j0";
  status = completed;
  finished_at = some 50;
  source_total = 2;
}

abbrev pub table : List SearchJob
table = queued_job ∷ finished_job ∷ []

-- Every call succeeds; the scan reports one source.
abbrev pub calm : Env
calm = record {
  load_error = none;
  hits_before = ok 0;
  fresh_error = none;
  ingest = λ query options. (
    profile (record { source_key = codes "doaj"; status = codes "healthy"; articles_count = 3 })
        ∷ progress (record {
          substage = codes "completed";
          substage_label = [];
          done_sources = 1;
          total_sources = 1;
          failed_sources = [];
          timing_source = codes "DOAJ";
        })
        ∷ [],
    none,
  );
  health = ok [];
  names = ok [];
  ranked = λ query expression filters. ok [];
  attach_authors = ok;
  hits_after = ok 3;
  enrich = λ hits. hits;
  freshness = 0;
  clock = λ n. n;
  write_error = λ n. none;
}
