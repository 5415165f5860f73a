-- ===== src/Service/Ingest/Advance.antt =====
-- What each part of a live scan does to its counters and its events.
use cindex.Prelude.{
  codes, ℕ, ◌≡◌, refl, ◌∙◌, ap, Option, none, some, List, [], ◌∷◌, ◌++◌, if◌then◌else◌, Text,
  Bool-cases, Option-cases, inl, inr,
}
use cindex.Go.Errors.{Result, ok, err}
use cindex.Go.Steps.{Step, stopped, next, ◌>>=◌}
use cindex.Connector.{RawArticle}
use cindex.Domain.Article.{Article}
use cindex.Repository.Sources.{Source, SourceRunOutcome, get_by_key}
use cindex.Service.SourceStats.{ScanEvent, progress, profile}
use cindex.Service.Ingest.{Calls, Scan, statement, answer, add_source, report}
use cindex.Service.Ingest.Save.{
  found, load_or_add, load_source, persisted_authors, write_article, with_existing, with_journal,
  with_source, save_article, article_from, parse_authors, journal_name, merge_existing,
  choose_authors, with_id, save_merged,
}
use cindex.Service.Ingest.Query.{
  mark, keep_saved, save_all, has_valid_doi, find_or_add, find_source,
}

-- The sources that have a profile event, in the order of the events.
unfoldable pub profile_keys : List ScanEvent → List Text
profile_keys [] = []
profile_keys (progress e ∷ events) = profile_keys events
profile_keys (profile e ∷ events) = e.source_key ∷ profile_keys events

pub profile_keys-progress :
    (events : List ScanEvent) (e : _)
    → profile_keys (events ++ progress e ∷ []) ≡ profile_keys events
unfolding profile_keys
profile_keys-progress [] e = refl
profile_keys-progress (progress _ ∷ events) e = profile_keys-progress events e
profile_keys-progress (profile p ∷ events) e =
    ap (◌∷◌ p.source_key) (profile_keys-progress events e)

pub profile_keys-profile :
    (events : List ScanEvent) (e : _)
    → profile_keys (events ++ profile e ∷ []) ≡ profile_keys events ++ e.source_key ∷ []
unfolding profile_keys
profile_keys-profile [] e = refl
profile_keys-profile (progress _ ∷ events) e = profile_keys-profile events e
profile_keys-profile (profile p ∷ events) e = ap (◌∷◌ p.source_key) (profile_keys-profile events e)

-- The counters of a scan.
pub record At (done : ℕ) (completed closed : List Text) (r : Scan) : Type 0 where
  pub number : r.done ≡ done
  pub keys : r.completed ≡ completed
  pub profiles : profile_keys r.events ≡ closed

-- Where the step goes on, the predicate holds of its state and its value.
abbrev pub Ensures : {A : Type 0} → (Scan → A → Type 0) → Step Scan A → Type 0
Ensures Q (stopped r e) = Unit
Ensures Q (next r a) = Q r a

pub bind-Ensures :
    {A B : Type 0} (P : Scan → A → Type 0) (Q : Scan → B → Type 0) (m : Step Scan A)
    (f : Scan → A → Step Scan B)
    → Ensures P m
    → ((r : Scan) (a : A) → P r a → Ensures Q (f r a))
    → Ensures Q (m >>= f)
bind-Ensures P Q (stopped r e) f h k = tt
bind-Ensures P Q (next r a) f h k = k r a h

module _ (calls : Calls) (done : ℕ) (completed closed : List Text) where
  abbrev pub Same : {A : Type 0} → Scan → A → Type 0
  Same r _ = At done completed closed r

  -- One phase behind another.
  and_then :
      {A B : Type 0} (f : Scan → A → Step Scan B)
      → ((r : Scan) (a : A) → At done completed closed r → Ensures Same (f r a))
      → (m : Step Scan A) → Ensures Same m
      → Ensures Same (m >>= f)
  and_then f k m h = bind-Ensures Same Same m f h k

  statement-At : (r : Scan) → At done completed closed r → Ensures Same (statement calls r)
  unfolding statement
  statement-At r h = elim (Option-cases (calls.source_error r.statements)) [
    | inl fine ↦
        rw (fine, Ensures) (record { number = h.number; keys = h.keys; profiles = h.profiles })
    | inr (e, bad) ↦ rw (bad, Ensures) tt
  ]

  answer-At :
      {A : Type 0} (words : Text) (a : Result A) (r : Scan)
      → At done completed closed r
      → Ensures Same (answer words a r)
  unfolding answer
  answer-At words (ok a) r h = record { number = h.number; keys = h.keys; profiles = h.profiles }
  answer-At words (err e) r h = tt

  add_source-At :
      (key : Text) (r : Scan) → At done completed closed r → Ensures Same (add_source calls key r)
  unfolding add_source
  add_source-At key r h =
      and_then _ (λ r' _ k. record { number = k.number; keys = k.keys; profiles = k.profiles })
        (statement calls r) (statement-At r h)

  pub report-At :
      (total : ℕ) (name substage label : Text) (r : Scan)
      → At done completed closed r
      → At done completed closed (report total name substage label r)
  unfolding report
  report-At total name substage label r h = record {
    number = h.number;
    keys = h.keys;
    profiles = profile_keys-progress r.events _ ∙ h.profiles;
  }

  found-At : (o : Option Source) (r : Scan) → At done completed closed r → Ensures Same (found o r)
  unfolding found
  found-At none r h = tt
  found-At (some s) r h = h

  load_or_add-At :
      (key : Text) (o : Option Source) (r : Scan)
      → At done completed closed r
      → Ensures Same (load_or_add calls key o r)
  unfolding load_or_add
  load_or_add-At key (some s) r h = h
  load_or_add-At key none r h =
      and_then (λ r _. found (get_by_key key r.table.rows) r) (λ r _ k. found-At _ r k)
        (add_source calls key r >>= (λ r _. statement calls r))
        (and_then (λ r _. statement calls r) (λ r _ k. statement-At r k) (add_source calls key r)
          (add_source-At key r h))

  load_source-At :
      (key : Text) (r : Scan) → At done completed closed r → Ensures Same (load_source calls key r)
  unfolding load_source
  load_source-At key r h =
      and_then (λ r _. load_or_add calls key (get_by_key key r.table.rows) r)
        (λ r _ k. load_or_add-At key _ r k) (statement calls r) (statement-At r h)

  persisted_authors-At :
      (names : List Text) (old : Option Article) (r : Scan)
      → At done completed closed r
      → Ensures Same (persisted_authors calls names old r)
  unfolding persisted_authors
  persisted_authors-At [] none r h = h
  persisted_authors-At [] (some old) r h = answer-At (codes "load existing article authors: ") _ r h
  persisted_authors-At (_ ∷ _) none r h = h
  persisted_authors-At (_ ∷ _) (some old) r h = h

  module _ (raw : RawArticle) where
    write_article-At :
        (a : Article) (old : Option Article) (r : Scan) (persisted : List Text)
        → At done completed closed r
        → Ensures Same (write_article calls raw a old r persisted)
    unfolding write_article
    write_article-At a old r persisted h =
        let merged = merge_existing a old in
        let names = choose_authors (parse_authors raw.authors) persisted in
        and_then (with_id merged names.1) (λ r' id k. k)
          (answer (codes "save ingested article: ")
            (save_merged calls raw merged names.0 r.statements) r)
          (answer-At (codes "save ingested article: ") _ r h)

    with_existing-At :
        (a : Article) (r : Scan) (old : Option Article)
        → At done completed closed r
        → Ensures Same (with_existing calls raw a r old)
    unfolding with_existing
    with_existing-At a r old h =
        and_then (write_article calls raw a old) (write_article-At a old)
          (persisted_authors calls (parse_authors raw.authors) old r)
          (persisted_authors-At (parse_authors raw.authors) old r h)

    with_journal-At :
        (s : Source) (r : Scan) (journal_id : ℕ)
        → At done completed closed r
        → Ensures Same (with_journal calls raw s r journal_id)
    unfolding with_journal
    with_journal-At s r journal_id h =
        and_then (with_existing calls raw (article_from s.id journal_id raw)) (with_existing-At _)
          (answer (codes "load existing article: ") (calls.article_by_doi r.statements raw.doi) r)
          (answer-At (codes "load existing article: ") _ r h)

    with_source-At :
        (r : Scan) (s : Source)
        → At done completed closed r
        → Ensures Same (with_source calls raw r s)
    unfolding with_source
    with_source-At r s h =
        and_then (with_journal calls raw s) (with_journal-At s)
          (answer [] (calls.upsert_journal r.statements (journal_name raw)) r) (answer-At [] _ r h)

    save_article-At :
        (r : Scan) → At done completed closed r → Ensures Same (save_article calls raw r)
    unfolding save_article
    save_article-At r h =
        and_then (with_source calls raw) with_source-At (load_source calls raw.source_key r)
          (load_source-At raw.source_key r h)

  pub mark-At :
      (s : Source) (o : SourceRunOutcome) (r : Scan)
      → At done completed closed r
      → Ensures Same (mark calls s o r)
  unfolding mark
  mark-At s o r h =
      and_then _ (λ r' _ k. record { number = k.number; keys = k.keys; profiles = k.profiles })
        (statement calls r) (statement-At r h)

  save_one-At :
      (raw : RawArticle) (r : Scan)
      → At done completed closed r
      → Ensures Same
          (if has_valid_doi raw then save_article calls raw r >>= keep_saved else next r tt)
  save_one-At raw r h = elim (Bool-cases (has_valid_doi raw)) [
    | inl valid ↦
        rw (valid, Ensures)
          (and_then keep_saved
            (λ r' _ k. record { number = k.number; keys = k.keys; profiles = k.profiles })
            (save_article calls raw r) (save_article-At raw r h))
    | inr other ↦ rw (other, Ensures) h
  ]

  pub save_all-At :
      (raws : List RawArticle) (r : Scan)
      → At done completed closed r
      → Ensures Same (save_all calls raws r)
  unfolding save_all
  save_all-At [] r h = h
  save_all-At (raw ∷ raws) r h =
      and_then (λ r _. save_all calls raws r) (λ r _ k. save_all-At raws r k)
        (if has_valid_doi raw then save_article calls raw r >>= keep_saved else next r tt)
        (save_one-At raw r h)

  find_or_add-At :
      (key : Text) (o : Option Source) (r : Scan)
      → At done completed closed r
      → Ensures Same (find_or_add calls key o r)
  unfolding find_or_add
  find_or_add-At key (some s) r h = h
  find_or_add-At key none r h =
      and_then _ (λ r _ k. k) (add_source calls key r) (add_source-At key r h)

  pub find_source-At :
      (key : Text) (r : Scan) → At done completed closed r → Ensures Same (find_source calls key r)
  unfolding find_source
  find_source-At key r h =
      and_then (λ r _. find_or_add calls key (get_by_key key r.table.rows) r)
        (λ r _ k. find_or_add-At key _ r k) (statement calls r) (statement-At r h)
