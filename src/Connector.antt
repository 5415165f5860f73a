-- ===== src/Connector.antt =====
-- backend/internal/connector: the record that every connector returns, RawArticle of profile.go.
pub mod Errors
pub mod Retry
pub mod Http
pub mod Transport
pub mod Browser
pub mod Texts
pub mod Patterns
pub mod Xml
pub mod Oai
pub mod Feed
pub mod Profile
pub mod Registry
pub mod EuropePmc
pub mod OpenAlex
pub mod Crossref
pub mod Pubmed
use cindex.Prelude.{ℕ, Bool, Option, List, Text}
use cindex.Prelude.Int.{ℤ}

pub record RawArticle : Type 0 where
  pub source_key : Text
  pub title : Text
  pub url : Text
  pub abstract : Text
  pub full_text : Text
  pub language : Text
  pub year : Option ℤ
  pub doi : Text
  pub journal : Text
  pub authors : List Text
  pub volume : Text
  pub issue : Text
  pub pages : Text
  pub peer_review_evidence : Text
  pub indexing_evidence : Text
  pub preprint_evidence : Text
  pub is_retracted : Bool
  pub retraction_note : Text
  pub cited_by_count : ℕ
