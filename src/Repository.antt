-- ===== src/Repository.antt =====
-- Package repository: the PostgreSQL tables and the statements on them.
pub mod SearchJobs
pub mod Sources
pub mod Quotes
