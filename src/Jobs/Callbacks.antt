-- ===== src/Jobs/Callbacks.antt =====
-- The two callbacks that Work hands to the ingestor, and the message of a progress event: the
-- changes that they make to the job in memory. Work persists it after each.
use cindex.Prelude.{
  ◌-◌, ◌||◌, Option, none, some, ◌++◌, ltb, if◌then◌else◌, Text, codes, text_eq, is_empty, length,
}
use cindex.Prelude.Int.{pos}
use cindex.Go.Strconv.{itoa}
use cindex.Domain.SearchJob.{SearchJob, insert, stage_substage}
use cindex.Service.SourceStats.{ProgressEvent, ProfileEvent}

unfoldable pub progress_message : ProgressEvent → Text
progress_message e =
    let is = λ (s : Text). text_eq e.substage s in
    let timed = λ (with without : Text). if is_empty e.timing_source then without else with in
    let corpus =
      timed (codes "Проверяем корпус · сейчас " ++ e.timing_source) (codes "Проверяем корпус") in
    if is (codes "fetching") || is (codes "enriching") || is (codes "indexing")
    then timed (e.substage_label ++ (codes " · сейчас " ++ e.timing_source)) corpus
    else if is (codes "skipped") || is (codes "source_skipped")
    then timed (codes "Источник пропущен: " ++ e.timing_source) (codes "Источник пропущен")
    else if is (codes "failed")
    then timed (codes "Источник временно недоступен: " ++ e.timing_source)
        (codes "Источник временно недоступен")
    else if is (codes "completed")
    then codes "Проверили "
      ++ (itoa (pos e.done_sources)
          ++ (codes " из " ++ (itoa (pos e.total_sources) ++ codes " источников")))
    else corpus

-- The label of an event without one is that of the stage.
label_or : Text → Text → Option (Text × Text) → Text
label_or label old stage =
    if is_empty label then elim stage [ none ↦ old | some (_, l) ↦ l ] else label

-- `len` of a Go slice; `-` stops at 0, as the code does.
unfoldable pub on_progress : ProgressEvent → SearchJob → SearchJob
unfolding progress_message label_or
on_progress e j = record j {
  stage = codes "live_scan";
  substage = e.substage;
  substage_label = label_or e.substage_label j.substage_label (stage_substage (codes "live_scan"));
  message = progress_message e;
  source_total = e.total_sources;
  source_done = e.done_sources;
  source_live =
      if ltb 0 e.total_sources then e.total_sources - length e.failed_sources else j.source_live;
  source_failed = e.failed_sources;
}

-- `none` for an event without a source key, which is ignored and not persisted.
unfoldable pub on_profile : ProfileEvent → SearchJob → Option SearchJob
on_profile e j =
    if is_empty e.source_key
    then none
    else some (record j {
      source_timings =
          insert e.source_key (record { status = e.status; articles_count = e.articles_count })
            j.source_timings;
    })
