-- ===== src/Silo.antt =====
-- The package internal/silo: configuration, requests, page cache and backend.
pub mod Constants
pub mod Keys
pub mod Cache
pub mod Page
pub mod Jobs
pub mod Config
pub mod Requests
pub mod Client
pub mod Authorize
pub mod Runtime
pub mod Lifecycle
pub mod Backend
pub mod Extraction
pub mod Extractor
