-- ===== src/Uploads.antt =====
-- internal/store/upload_store.go, upload_ledger.go and upload_cleanup.go: resumable uploads and the ledger
-- of uploaded assets, in SQLite.
pub mod Rows
pub mod Action
pub mod Statements
pub mod Inputs
pub mod Sessions
pub mod Commits
pub mod Cleanup
pub mod History
pub mod Tables
pub mod Effects
pub mod Unique
pub mod Ledger
pub mod Completed
pub mod Recorded
pub mod Checks
pub mod Progress
pub mod Stale
pub mod Protected
pub mod Atomicity
