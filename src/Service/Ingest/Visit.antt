-- ===== src/Service/Ingest/Visit.antt =====
-- What the visit of one source adds to the counters and the events.
use cindex.Prelude.Int.{ℤ}
use cindex.Prelude.{
  ℕ, ◌+◌, ◌∙◌, ap, true, false, List, [], ◌∷◌, ◌++◌, Text, length, Bool-cases, inl, inr,
}
use cindex.Go.Errors.{Result, ok, err}
use cindex.Go.Steps.{next}
use cindex.Connector.{RawArticle}
use cindex.Repository.Sources.{Source, is_circuit_open}
use cindex.Service.Ingest.{Calls, Scan, close, source_name, truncate_run_error}
use cindex.Service.Ingest.Query.{
  mark, save_all, finish, give_up, skip, after_success, after_failure, after_fetch, process_source,
  visit, add_key, enrich_all,
}
use cindex.Service.Ingest.Advance.{
  profile_keys-profile, At, Ensures, bind-Ensures, Same, report-At, mark-At, save_all-At,
}

module _ (calls : Calls) (total done : ℕ) (completed closed : List Text) (key : Text) where
  give_up-At :
      (name status substage label : Text) (r : Scan)
      → At done completed closed r
      → At
          (done + 1)
          completed
          (closed ++ key ∷ [])
          (give_up total key name status substage label r)
  unfolding give_up close
  give_up-At name status substage label r h =
      report-At calls (done + 1) completed (closed ++ key ∷ []) total name substage label _
        (record {
          number = ap (λ n. n + 1) h.number;
          keys = h.keys;
          profiles = profile_keys-profile r.events _ ∙ ap (λ l. l ++ key ∷ []) h.profiles;
        })

  finish-At :
      (name : Text) (before : ℕ) (r : Scan)
      → At done completed closed r
      → At (done + 1) completed (closed ++ key ∷ []) (finish total key name before r)
  unfolding finish close
  finish-At name before r h =
      report-At calls (done + 1) completed (closed ++ key ∷ []) total name _ _ _ (record {
        number = ap (λ n. n + 1) h.number;
        keys = h.keys;
        profiles = profile_keys-profile r.events _ ∙ ap (λ l. l ++ key ∷ []) h.profiles;
      })

  after_success-At :
      (name : Text) (enriched : List RawArticle) (r : Scan) (u : Unit {0})
      → At done completed closed r
      → Ensures
          (λ r _. At (done + 1) completed (closed ++ key ∷ []) r)
          (after_success calls total key name enriched r u)
  unfolding after_success
  after_success-At name enriched r u h =
      bind-Ensures (Same calls done completed closed) _ (save_all calls enriched _)
        (λ r' _. next (finish total key name (length r.saved) r') tt)
        (save_all-At calls done completed closed enriched _
          (report-At calls done completed closed total name _ _ r h))
        (λ r' _ k. finish-At name (length r.saved) r' k)

  after_fetch-At :
      (s : Source) (answer : Result (List RawArticle)) (r : Scan)
      → At done completed closed r
      → Ensures
          (λ r _. At (done + 1) completed (closed ++ key ∷ []) r)
          (after_fetch calls total key s answer r)
  unfolding after_fetch after_failure
  after_fetch-At s (err e) r h =
      bind-Ensures (Same calls done completed closed) _
        (mark calls s (record { success = false; error = truncate_run_error e }) r)
        (after_failure total key (source_name calls s key))
        (mark-At calls done completed closed s
          (record { success = false; error = truncate_run_error e }) r h)
        (λ r' u k. give_up-At (source_name calls s key) _ _ _ r' k)
  after_fetch-At s (ok raws) r h =
      bind-Ensures (Same calls done completed closed) _
        (mark calls s (record { success = true; error = [] }) _)
        (after_success calls total key (source_name calls s key) (enrich_all calls key raws))
        (mark-At calls done completed closed s (record { success = true; error = [] }) _
          (report-At calls done completed closed total (source_name calls s key) _ _ r h))
        (after_success-At (source_name calls s key) (enrich_all calls key raws))

  process_source-At :
      (query : Text) (limit : ℤ) (s : Source) (r : Scan)
      → At done completed closed r
      → Ensures
          (λ r _. At (done + 1) completed (closed ++ key ∷ []) r)
          (process_source calls total query limit key s r)
  unfolding process_source
  process_source-At query limit s r h =
      after_fetch-At s _ _
        (report-At calls done completed closed total (source_name calls s key) _ _ r h)

  pub visit-At :
      (query : Text) (limit : ℤ) (r : Scan) (s : Source)
      → At done completed closed r
      → Ensures
          (λ r _. At (done + 1) (completed ++ key ∷ []) (closed ++ key ∷ []) r)
          (visit calls total query limit key r s)
  unfolding visit skip
  visit-At query limit r s h = elim (Bool-cases (is_circuit_open (calls.clock r.statements) s)) [
    | inl shut ↦ rw shut (
        let k = give_up-At (source_name calls s key) _ _ _ r h in
        record { number = k.number; keys = ap (λ l. l ++ key ∷ []) k.keys; profiles = k.profiles })
    | inr other ↦ rw other (
        bind-Ensures (λ r _. At (done + 1) completed (closed ++ key ∷ []) r) _
          (process_source calls total query limit key s r) (add_key key)
          (process_source-At query limit s r h)
          (λ r' _ k. record {
            number = k.number;
            keys = ap (λ l. l ++ key ∷ []) k.keys;
            profiles = k.profiles;
          }))
  ]
