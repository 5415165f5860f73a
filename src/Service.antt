-- ===== src/Service.antt =====
-- Package service: live scans, caches and enrichment.
pub mod Health
pub mod Ingest
pub mod SourceStats
pub mod Enrichment
pub mod Translate
pub mod ScholarlyText
