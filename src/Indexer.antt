-- ===== src/Indexer.antt =====
-- The indexer, packages/indexer/src: what it keeps of the hub's events in its database.
pub mod Database
pub mod Transfers
pub mod Roles
pub mod Executions
pub mod Retry
pub mod Ranges
pub mod TransferReplay
pub mod ReplayJobs
pub mod Runtime
pub mod Tests
