-- ===== src/Reset.antt =====
-- The reset engine (internal/reset/engine.go).
pub mod Backoff
pub mod Attempts
pub mod Updates
pub mod Housekeeping
pub mod Exec
pub mod Persistence
pub mod Engine
pub mod Process
pub mod Scan
pub mod Quiet
pub mod Lifecycle
pub mod Gate
pub mod WriteAhead
pub mod Resolve
pub mod AccountLocks
pub mod LogBound
