-- ===== src/Service/Ingest/Total.antt =====
-- What a live scan that returns no error has done.
use cindex.Prelude.{
  ℕ, ◌+◌, ◌≡◌, ◌≤◌, refl, sym, ◌∙◌, ap, subst, List, [], ◌∷◌, ◌++◌, arith, if◌then◌else◌, Text,
  length, Bool-cases, inl, inr,
}
use mathlib.Core.List.{append-nil, append_assoc}
use cindex.Go.Steps.{Step, stopped, next}
use cindex.Repository.Sources.{SourceTable}
use cindex.Service.SourceStats.{IngestOptions}
use cindex.Service.Ingest.{Calls, Scan, report}
use cindex.Service.Ingest.Query.{
  find_source, visit, is_resumed, scan_source, scan_sources, count_resumed, begin, ingest_query,
  larger, selected,
}
use cindex.Service.Ingest.Visit.{visit-At}
use cindex.Service.Ingest.Advance.{profile_keys, At, Ensures, bind-Ensures, Same, find_source-At}

-- The connectors that a scan visits: those that it did not resume.
unfoldable pub visited : Calls → IngestOptions → List Text → List Text
visited calls options [] = []
visited calls options (key ∷ keys) =
    let rest = visited calls options keys in
    if is_resumed options key then rest else if calls.has_connector key then key ∷ rest else rest

-- The number of keys that a scan does not resume.
unfoldable pub count_fresh : IngestOptions → List Text → ℕ
count_fresh options [] = 0
count_fresh options (key ∷ keys) =
    let rest = count_fresh options keys in if is_resumed options key then rest else rest + 1

count_split :
    (options : IngestOptions) (keys : List Text)
    → count_resumed options keys + count_fresh options keys ≡ length keys
unfolding count_resumed count_fresh
count_split options [] = omega arith
count_split options (key ∷ keys) = ground (arith, count_split options keys)

module _ (calls : Calls) (total : ℕ) (query : Text) (options : IngestOptions) where
  abbrev one : Text → ℕ
  one key = if is_resumed options key then 0 else 1

  abbrev visits : Text → List Text
  visits key =
      if is_resumed options key then [] else if calls.has_connector key then key ∷ [] else []

  scan_source-At :
      (key : Text) (done : ℕ) (completed closed : List Text) (r : Scan)
      → At done completed closed r
      → Ensures
          (λ r _. At (done + one key) (completed ++ visits key) (closed ++ visits key) r)
          (scan_source calls total query options key r)
  unfolding scan_source
  scan_source-At key done completed closed r h = elim (Bool-cases (is_resumed options key)) [
    | inl old ↦ rw old (record {
      number = omega (arith, h.number);
      keys = h.keys ∙ sym (append-nil completed);
      profiles = h.profiles ∙ sym (append-nil closed);
    })
    | inr new ↦ elim (Bool-cases (calls.has_connector key)) [
      | inl there ↦
          rw (new, there)
            (bind-Ensures (Same calls done completed closed) _ (find_source calls key r)
              (visit calls total query options.per_source_limit key)
              (find_source-At calls done completed closed key r h)
              (visit-At calls total done completed closed key query options.per_source_limit))
      | inr unknown ↦
          rw (new, unknown)
            (record {
              number = omega (arith, h.number);
              keys = h.keys ∙ sym (append-nil completed);
              profiles = h.profiles ∙ sym (append-nil closed);
            })
    ]
  ]

  weaken :
      {P Q : Scan → Unit {0} → Type 0} (m : Step Scan (Unit {0}))
      → ((r : Scan) (u : Unit {0}) → P r u → Q r u)
      → Ensures P m
      → Ensures Q m
  weaken (stopped r e) f h = tt
  weaken (next r a) f h = f r a h

  add_visits :
      (key : Text) (keys : List Text)
      → visits key ++ visited calls options keys ≡ visited calls options (key ∷ keys)
  unfolding visited
  add_visits key keys = elim (Bool-cases (is_resumed options key)) [
    | inl old ↦ rw old refl
    | inr new ↦ elim (Bool-cases (calls.has_connector key)) [
      | inl there ↦ rw (new, there) refl
      | inr unknown ↦ rw (new, unknown) refl
    ]
  ]

  add_one :
      (key : Text) (keys : List Text)
      → one key + count_fresh options keys ≡ count_fresh options (key ∷ keys)
  unfolding count_fresh
  add_one key keys = ground arith

  shift :
      (key : Text) (keys before : List Text)
      → (before ++ visits key) ++ visited calls options keys
        ≡ before ++ visited calls options (key ∷ keys)
  shift key keys before =
      append_assoc before (visits key) (visited calls options keys)
      ∙ ap (λ l. before ++ l) (add_visits key keys)

  scan_sources-At :
      (keys : List Text) (done : ℕ) (completed closed : List Text) (r : Scan)
      → At done completed closed r
      → Ensures
          (λ r _.
            At
              (done + count_fresh options keys)
              (completed ++ visited calls options keys)
              (closed ++ visited calls options keys)
              r)
          (scan_sources calls total query options keys r)
  unfolding scan_sources
  scan_sources-At [] done completed closed r h =
      unfold visited count_fresh in
      record {
        number = omega (arith, h.number);
        keys = h.keys ∙ sym (append-nil completed);
        profiles = h.profiles ∙ sym (append-nil closed);
      }
  scan_sources-At (key ∷ keys) done completed closed r h =
      bind-Ensures (λ r _. At (done + one key) (completed ++ visits key) (closed ++ visits key) r) _
        (scan_source calls total query options key r)
        (λ r _. scan_sources calls total query options keys r)
        (scan_source-At key done completed closed r h)
        (λ r' _ k.
          weaken (scan_sources calls total query options keys r')
            (λ r'' _ h'. record {
              number = h'.number ∙ omega (arith, add_one key keys);
              keys = h'.keys ∙ shift key keys completed;
              profiles = h'.profiles ∙ shift key keys closed;
            })
            (scan_sources-At keys (done + one key) (completed ++ visits key) (closed ++ visits key)
              r' k))

begin-At :
    (calls : Calls) (options : IngestOptions) (table : SourceTable)
    → At
        (larger options.initial_done (count_resumed options (selected calls options)))
        options.resume_completed_keys
        []
        (begin calls options table)
unfolding begin profile_keys report
begin-At calls options table = record { number = refl; keys = refl; profiles = refl }

-- A live scan that returns no error has added to the resumed keys, in their order, all connectors of
-- the selected sources that were not resumed, has reported the profile of exactly these, and has counted every source
-- that was not resumed: where the count did not start above the resumed sources, it ends at the
-- number of sources.
pub ingest_query-ok :
    (calls : Calls) (query : Text) (options : IngestOptions) (table : SourceTable) (r : Scan)
    → ingest_query calls query options table ≡ next r tt
    → (r.completed
        ≡ options.resume_completed_keys ++ visited calls options (selected calls options))
      × (profile_keys r.events ≡ visited calls options (selected calls options))
      × (options.initial_done ≤ count_resumed options (selected calls options)
          → r.done ≡ length (selected calls options))
unfolding ingest_query
ingest_query-ok calls query options table r e =
    let h = subst (Ensures _) e (
      scan_sources-At calls (length (selected calls options)) query options (selected calls options)
        _ _ _ (begin calls options table) (begin-At calls options table)) in
    (
      h.keys,
      h.profiles,
      λ small. ground (arith, h.number, count_split options (selected calls options)),
    )
