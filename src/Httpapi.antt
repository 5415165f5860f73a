-- ===== src/Httpapi.antt =====
-- Package httpapi: the handlers of the API.
pub mod Validation
pub mod Pages
pub mod RateLimit
pub mod CreateJob
pub mod Handlers
