-- ===== src/Service/Enrichment/Service.antt =====
-- `Enrich` of service/doi_enrichment.go: the candidates, the answers that were fetched for them and the
-- writes. The fetches run in parallel and only read, so that their answers are one function of the
-- article and its missing fields; each candidate has an article of its own.
use cindex.Prelude.{
  ℕ, suc, Bool, not, ◌&&◌, ◌||◌, Option, List, [], ◌∷◌, ◌==◌, if◌then◌else◌, Text, codes, is_empty,
}
use cindex.Prelude.Int.{ℤ}
use cindex.Go.Strings.{has_prefix}
use cindex.Domain.Article.{Article}
use cindex.Service.Enrichment.{
  EnrichCandidate, Fields, Enrichment, Progress, missing_fields, apply_cascade,
}

-- len(m) == 0
unfoldable pub none_missing : Fields → Bool
none_missing m = not (m.authors || m.abstract || m.year || m.volume || m.issue || m.pages)

-- The test of the first loop of Enrich; its articles are not nil.
unfoldable pub wants : EnrichCandidate → Bool
unfolding none_missing missing_fields has_prefix
wants c =
    not (is_empty c.article.doi)
    && has_prefix c.article.doi (codes "10.")
    && not (none_missing (missing_fields c))

unfoldable pub with_missing : List EnrichCandidate → List EnrichCandidate
unfolding wants
with_missing [] = []
with_missing (c ∷ cs) = let rest = with_missing cs in if wants c then c ∷ rest else rest

-- fetched[id]: the answer of the pair that is stored last under an id, if it is not empty.
unfoldable pub fetched :
    (EnrichCandidate → Fields → List Enrichment) → List EnrichCandidate → ℕ → List Enrichment
unfolding missing_fields
fetched fetch [] id = []
fetched fetch (c ∷ cs) id =
    let later = fetched fetch cs id in
    if is_empty later && c.article.id == id then fetch c (missing_fields c) else later

-- A call of UpdateEnriched.
pub record Update : Type 0 where
  pub id : ℕ
  pub year : Option ℤ
  pub abstract : Text
  pub volume : Text
  pub issue : Text
  pub pages : Text
  pub authors : List Text

unfoldable pub update_of : Progress → Update
update_of p = record {
  id = p.article.id;
  year = p.article.pub_year;
  abstract = p.article.abstract;
  volume = p.article.volume;
  issue = p.article.issue;
  pages = p.article.pages;
  authors = p.pending_authors;
}

module _ (fails : Update → Bool) where
  -- One call, in front of the others: the calls and the count of those that did not fail.
  save : Progress → List Update × ℕ → List Update × ℕ
  save p (calls, updated) =
      (update_of p ∷ calls, if fails (update_of p) then updated else suc updated)

  written : Article → Fields → List Enrichment → List Update × ℕ → List Update × ℕ
  written article missing [] rest = rest
  written article missing (e ∷ es) rest =
      let p = apply_cascade article missing (e ∷ es) in if p.changed then save p rest else rest

  -- The second loop of Enrich.
  unfoldable pub write_all : (ℕ → List Enrichment) → List EnrichCandidate → List Update × ℕ
  unfolding written save update_of missing_fields apply_cascade
  write_all answers [] = ([], 0)
  write_all answers (c ∷ cs) =
      written c.article (missing_fields c) (answers c.article.id) (write_all answers cs)

  -- Enrich: the calls of UpdateEnriched and the number of updated articles.
  unfoldable pub enrich :
      (EnrichCandidate → Fields → List Enrichment) → List EnrichCandidate → List Update × ℕ
  unfolding write_all with_missing fetched
  enrich fetch candidates =
      let pairs = with_missing candidates in write_all (fetched fetch pairs) pairs
