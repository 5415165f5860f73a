-- ===== src/Domain.antt =====
-- Package domain: the entities and the pure business rules.
pub mod Article
pub mod Eligibility
pub mod Filters
pub mod SearchJob
pub mod Citation
