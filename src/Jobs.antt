-- ===== src/Jobs.antt =====
-- Package jobs: the asynchronous search job.
pub mod Keys
pub mod Rescan
pub mod Callbacks
pub mod Run
pub mod Worker
