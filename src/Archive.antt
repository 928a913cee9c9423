-- ===== src/Archive.antt =====
-- The package internal/archive: bounded extraction of comic pages.
pub mod Errors
pub mod Limits
pub mod Image
pub mod Extract
pub mod Pages
pub mod Entries
pub mod Inspect
pub mod Readers
pub mod Zip
pub mod Context
pub mod Formats
pub mod Names
