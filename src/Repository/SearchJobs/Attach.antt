-- ===== src/Repository/SearchJobs/Attach.antt =====
-- Which active job a request attaches to, and when a recent scan counts as fresh.
use cindex.Prelude.{
  ℕ, ◌+◌, ◌++◌, ◌↔◌, ◌*◌, ◌≡◌, refl, Bool, true, false, Option, none, some, List, [], ◌∷◌, arith,
  Text, ap, text_eq, text_eq_iff, All, Bool-cases, inl, inr, any, ltb, ◌&&◌, ◌||◌, not,
}
use cindex.Domain.Filters.{SearchFilters}
use cindex.Domain.Filters.Signature.{SameSearch, signature_iff}
use cindex.Domain.SearchJob.{SearchJob}
use cindex.Repository.SearchJobs.{
  normalize_job_text, is_active, is_scanned, attachable, find_active, latest_finish,
  has_fresh_recent_scan, later,
}

-- What a request shares with the job that it attaches to.
pub record SameRequest (query expression : Text) (force_refresh : Bool) (filters : SearchFilters)
    (j : SearchJob) : Type 0 where
  pub active : is_active j.status ≡ true
  pub query_text : normalize_job_text j.query ≡ normalize_job_text query
  pub expression_text : normalize_job_text j.expression ≡ normalize_job_text expression
  pub refresh : j.force_refresh_requested ≡ force_refresh
  pub search : SameSearch j.filters filters

module _ (query expression : Text) (force_refresh : Bool) (filters : SearchFilters) where
  abbrev Wanted : SearchJob → Type 0
  Wanted = SameRequest query expression force_refresh filters

  attachable-SameRequest :
      (j : SearchJob) → attachable query expression force_refresh filters j ≡ true → Wanted j
  unfolding attachable
  attachable-SameRequest j h = record {
    active = ground arith;
    query_text = (text_eq_iff _ _).0 (ground arith);
    expression_text = (text_eq_iff _ _).0 (ground arith);
    refresh = ground arith;
    search = (signature_iff _ _).0 ((text_eq_iff _ _).0 (ground arith));
  }

  pub SameRequest-attachable :
      (j : SearchJob) → Wanted j → attachable query expression force_refresh filters j ≡ true
  unfolding attachable
  SameRequest-attachable j w = ground (
    arith,
    w.active,
    w.refresh,
    (text_eq_iff _ _).1 w.query_text,
    (text_eq_iff _ _).1 w.expression_text,
    (text_eq_iff _ _).1 ((signature_iff _ _).1 w.search),
  )

  -- The job is a row of the table, and no row before it is wanted.
  pub record IsNewest (rows : List SearchJob) (j : SearchJob) : Type 0 where
    pub before : List SearchJob
    pub behind : List SearchJob
    pub place : rows ≡ before ++ j ∷ behind
    pub wanted : SameRequest query expression force_refresh filters j
    pub newest : All (λ k. ¬ SameRequest query expression force_refresh filters k) before

  unwanted :
      (r : SearchJob) → attachable query expression force_refresh filters r ≡ false → ¬ Wanted r
  unwanted r other w = ground (arith, SameRequest-attachable r w)

  not_attachable :
      (r : SearchJob) → ¬ Wanted r → attachable query expression force_refresh filters r ≡ false
  not_attachable r n = elim (Bool-cases (attachable query expression force_refresh filters r)) [
    | inl fits ↦ absurd (n (attachable-SameRequest r fits))
    | inr other ↦ other
  ]

  find_active-some :
      (rows : List SearchJob) (j : SearchJob)
      → find_active query expression force_refresh filters rows ≡ some j
      → IsNewest rows j
  unfolding find_active
  find_active-some [] j e = cc
  find_active-some (r ∷ rows) j e =
      elim (Bool-cases (attachable query expression force_refresh filters r)) [
        | inl fits ↦
            let same : r ≡ j = ground arith in
            record {
              before = [];
              behind = rows;
              place = ap (λ k. k ∷ rows) same;
              wanted = rw same at (attachable-SameRequest r fits);
              newest = tt;
            }
        | inr other ↦
            let rest = find_active-some rows j (rw other at e) in
            record {
              before = r ∷ rest.before;
              behind = rest.behind;
              place = ap (◌∷◌ r) rest.place;
              wanted = rest.wanted;
              newest = (unwanted r other, rest.newest);
            }
      ]

  find_active-none :
      (rows : List SearchJob)
      → find_active query expression force_refresh filters rows ≡ none
      → All (λ j. ¬ Wanted j) rows
  unfolding find_active
  find_active-none [] e = tt
  find_active-none (r ∷ rows) e =
      (λ w. ground (arith, SameRequest-attachable r w), find_active-none rows (ground arith))

  find_active-first :
      (before behind : List SearchJob) (j : SearchJob)
      → Wanted j
      → All (λ k. ¬ Wanted k) before
      → find_active query expression force_refresh filters (before ++ j ∷ behind) ≡ some j
  unfolding find_active
  find_active-first [] behind j w h = rw (SameRequest-attachable j w) refl
  find_active-first (r ∷ before) behind j w (n, h) =
      rw (not_attachable r n) (find_active-first before behind j w h)

  none-find_active :
      (rows : List SearchJob)
      → All (λ j. ¬ Wanted j) rows
      → find_active query expression force_refresh filters rows ≡ none
  unfolding find_active
  none-find_active [] h = refl
  none-find_active (r ∷ rows) (n, h) = rw (not_attachable r n) (none-find_active rows h)

  -- On the rows in the order of the query, the newest first: a job is found exactly if it is the
  -- newest active job for the same normalised texts, the same force-refresh flag and the same search,
  -- and it is found as it stands in the table; none is found exactly if the table holds no such job.
  pub find_active_exact :
      (rows : List SearchJob)
      → ((j : SearchJob)
          → find_active query expression force_refresh filters rows ≡ some j ↔ IsNewest rows j)
        × ((find_active query expression force_refresh filters rows ≡ none)
            ↔ All (λ j. ¬ SameRequest query expression force_refresh filters j) rows)
  find_active_exact rows = (
    λ j. (
      find_active-some rows j,
      λ w. rw w.place (find_active-first w.before w.behind j w.wanted w.newest),
    ),
    (find_active-none rows, none-find_active rows),
  )

abbrev after : ℕ → ℕ → Option ℕ → Bool
after now window none = false
after now window (some t) = ltb now (t + window)

after-later :
    (now window : ℕ) (a b : Option ℕ)
    → after now window (later a b) ≡ (after now window a || after now window b)
after-later now window none b = refl
after-later now window (some a) none = ground arith
after-later now window (some a) (some b) = ground arith

-- A scan of the query by another job that was finished within the window.
abbrev pub is_recent : ℕ → Text → ℕ → Text → SearchJob → Bool
is_recent now query freshness_days exclude j =
    text_eq j.query query
    && is_scanned j.status
    && not (text_eq j.id exclude)
    && after now (freshness_days * 86400) j.finished_at

after-latest_finish :
    (now window : ℕ) (query exclude : Text) (rows : List SearchJob)
    → after now window (latest_finish query exclude rows)
      ≡ any
          (λ j.
            text_eq j.query query
            && is_scanned j.status
            && not (text_eq j.id exclude)
            && after now window j.finished_at)
          rows
unfolding latest_finish
after-latest_finish now window query exclude [] = refl
after-latest_finish now window query exclude (j ∷ rows) = ground (
  arith,
  after-latest_finish now window query exclude rows,
  after-later now window j.finished_at (latest_finish query exclude rows),
)

-- The latest finished scan is fresh exactly when some completed or partial scan of the query by
-- another job was finished within the window.
pub has_fresh_recent_scan-eq-any :
    (now : ℕ) (query : Text) (freshness_days : ℕ) (exclude : Text) (rows : List SearchJob)
    → has_fresh_recent_scan now query freshness_days exclude rows
      ≡ any (is_recent now query freshness_days exclude) rows
unfolding has_fresh_recent_scan
has_fresh_recent_scan-eq-any now query freshness_days exclude rows =
    ground (arith, after-latest_finish now (freshness_days * 86400) query exclude rows)
