-- ===== src/Service/Ingest/Retraction.antt =====
-- What a saved article takes over from the row of its DOI.
use cindex.Prelude.{
  ℕ, suc, ◌≡◌, ◌⊎◌, inl, inr, ◌≢◌, refl, codes, subst, Bool, false, ◌||◌, Option, none, some, List,
  [], ◌∷◌, arith, Text,
}
use cindex.Go.Errors.{Result, ok, err}
use cindex.Domain.Eligibility.{apply_eligibility}
use cindex.Go.Steps.{Step, stopped, next, ◌>>=◌}
use cindex.Connector.{RawArticle}
use cindex.Domain.Article.{Article}
use cindex.Repository.Sources.{Source}
use cindex.Service.Ingest.{Calls, Scan, answer}
use cindex.Service.Ingest.Save.{
  load_source, parse_authors, article_from, merge_existing, choose_authors, persisted_authors,
  with_id, save_merged, write_article, with_existing, with_journal, with_source, save_article,
  journal_name,
}
use cindex.Service.Ingest.Advance.{Ensures}

abbrev pub was_retracted : Option Article → Bool
was_retracted none = false
was_retracted (some old) = old.is_retracted

any_state :
    {A B : Type 0} (Q : Scan → B → Type 0) (f : Scan → A → Step Scan B)
    → ((r : Scan) (a : A) → Ensures Q (f r a))
    → (m : Step Scan A) → Ensures Q (m >>= f)
any_state Q f k (stopped r e) = tt
any_state Q f k (next r a) = k r a

choose_authors-ne-nil : (parsed persisted : List Text) → (choose_authors parsed persisted).1 ≢ []
unfolding choose_authors
choose_authors-ne-nil (a ∷ parsed) persisted = ground arith
choose_authors-ne-nil [] (a ∷ persisted) = ground arith
choose_authors-ne-nil [] [] = ground arith

choose_authors-written :
    (parsed persisted : List Text)
    → let names = choose_authors parsed persisted in (names.0 ≡ some names.1) ⊎ (names.0 ≡ none)
unfolding choose_authors
choose_authors-written (a ∷ parsed) persisted = inl refl
choose_authors-written [] (a ∷ persisted) = inr refl
choose_authors-written [] [] = inl refl

merge-is_retracted :
    (a : Article) (old : Option Article)
    → (merge_existing a old).is_retracted ≡ (a.is_retracted || was_retracted old)
unfolding merge_existing
merge-is_retracted a none = ground arith
merge-is_retracted a (some old) = refl

-- The article of a save and the names of its candidate, with the call of SaveIngested behind them: the
-- article that the call was given, at its number, and the authors.
pub record Stored (calls : Calls) (raw : RawArticle) (old : Option Article) (r : Scan)
    (b : Article × List Text) : Type 0 where
  pub number : ℕ
  pub last_one : r.statements ≡ suc number
  pub given : Article
  pub authors : Option (List Text)
  pub called :
      calls.save_ingested number given authors
        (apply_eligibility calls.lower given raw.source_key (journal_name raw))
      ≡ ok b.0.id
  pub retracted : given.is_retracted ≡ (raw.is_retracted || was_retracted old)
  pub returned : b.0 ≡ record given { id = b.0.id }
  pub named : b.1 ≢ []
  pub written : authors ≡ some b.1 ⊎ authors ≡ none

module _ (calls : Calls) (raw : RawArticle) (old : Option Article) where
  abbrev Taken : Scan → Article × List Text → Type 0
  Taken = Stored calls raw old

  -- The answer of SaveIngested on a merged article.
  saved-Taken :
      (merged : Article) (names : Option (List Text) × List Text) (r : Scan) (result : Result ℕ)
      → merged.is_retracted ≡ (raw.is_retracted || was_retracted old)
      → names.1 ≢ []
      → (names.0 ≡ some names.1) ⊎ (names.0 ≡ none)
      → save_merged calls raw merged names.0 r.statements ≡ result
      → Ensures Taken (answer (codes "save ingested article: ") result r >>= with_id merged names.1)
  unfolding answer save_merged
  saved-Taken merged names r (err e) flag named written h = tt
  saved-Taken merged names r (ok id) flag named written h = record {
    number = r.statements;
    last_one = refl;
    given = merged;
    authors = names.0;
    called = h;
    retracted = flag;
    returned = refl;
    named = named;
    written = written;
  }

  write_article-Taken :
      (source_id journal_id : ℕ) (r : Scan) (persisted : List Text)
      → Ensures Taken
          (write_article calls raw (article_from source_id journal_id raw) old r persisted)
  unfolding write_article
  write_article-Taken source_id journal_id r persisted =
      let a = article_from source_id journal_id raw in
      let names = choose_authors (parse_authors raw.authors) persisted in
      saved-Taken (merge_existing a old) names r
        (save_merged calls raw (merge_existing a old) names.0 r.statements)
        (unfold article_from in merge-is_retracted (article_from source_id journal_id raw) old)
        (choose_authors-ne-nil (parse_authors raw.authors) persisted)
        (choose_authors-written (parse_authors raw.authors) persisted) refl

  with_existing-Taken :
      (source_id journal_id : ℕ) (r : Scan)
      → Ensures Taken (with_existing calls raw (article_from source_id journal_id raw) r old)
  unfolding with_existing
  with_existing-Taken source_id journal_id r =
      any_state Taken (write_article calls raw (article_from source_id journal_id raw) old)
        (write_article-Taken source_id journal_id)
        (persisted_authors calls (parse_authors raw.authors) old r)

  module _ (known : (n : ℕ) → calls.article_by_doi n raw.doi ≡ ok old) where
    with_journal-Taken :
        (s : Source) (r : Scan) (journal_id : ℕ)
        → Ensures Taken (with_journal calls raw s r journal_id)
    unfolding with_journal answer
    with_journal-Taken s r journal_id =
        rw (known r.statements, Ensures) (with_existing-Taken s.id journal_id _)

    with_source-Taken : (r : Scan) (s : Source) → Ensures Taken (with_source calls raw r s)
    unfolding with_source
    with_source-Taken r s =
        any_state Taken (with_journal calls raw s) (with_journal-Taken s)
          (answer [] (calls.upsert_journal r.statements (journal_name raw)) r)

    save_article-Taken : (r : Scan) → Ensures Taken (save_article calls raw r)
    unfolding save_article
    save_article-Taken r =
        any_state Taken (with_source calls raw) with_source-Taken
          (load_source calls raw.source_key r)

-- Where the row of the DOI is `old`, or there is none, a save that returns an article has ended with a
-- call of SaveIngested that returned its id. The article of that call, which is the returned one but
-- for the id, is retracted exactly when the record says so or the row did: no connector clears the
-- stored flag. The candidate has an author, and the call writes its authors or keeps those of the row.
pub save_article-retracted :
    (calls : Calls) (raw : RawArticle) (old : Option Article) (r r' : Scan) (a : Article)
    (names : List Text)
    → ((n : ℕ) → calls.article_by_doi n raw.doi ≡ ok old)
    → save_article calls raw r ≡ next r' (a, names)
    → Stored calls raw old r' (a, names)
save_article-retracted calls raw old r r' a names known e =
    subst (Ensures (Taken calls raw old)) e (save_article-Taken calls raw old known r)
