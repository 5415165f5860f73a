-- ===== src/Domain/Article.antt =====
-- backend/internal/domain/article.go: the article record, with the fields that the modelled code
-- reads or writes.
use cindex.Prelude.{ℕ, Bool, Option, Text}
use cindex.Prelude.Int.{ℤ}

pub record Article : Type 0 where
  pub id : ℕ
  pub source_id : ℕ
  pub journal_id : Option ℕ
  pub title : Text
  pub abstract : Text
  pub full_text : Text
  pub language : Text
  pub pub_year : Option ℤ
  pub url : Text
  pub doi : Text
  pub volume : Text
  pub issue : Text
  pub pages : Text
  pub is_retracted : Bool
  pub retraction_note : Text
  pub is_not_preprint_or_manuscript : Bool
  pub peer_review_evidence : Text
  pub indexing_evidence : Text
  pub preprint_evidence : Text
  pub cited_by_count : ℕ
