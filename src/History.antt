-- ===== src/History.antt =====
-- The history subsystem: the durable jobs of internal/store/activity_jobs.go, and the service and
-- scheduler of internal/history.
pub mod Jobs
pub mod Schedule
pub mod Balances
pub mod Worker
pub mod Requests
pub mod Snapshots
pub mod Listing
pub mod Normalize
mod Examples
