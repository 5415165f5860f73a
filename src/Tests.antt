-- ===== src/Tests.antt =====
-- Runs on sample data, and an application of each theorem to it.
mod Samples
mod Ingest
mod Connectors
mod Enrichment
mod Creation
mod Requests
mod Rules
mod Runs
