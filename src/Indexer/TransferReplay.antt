-- ===== src/Indexer/TransferReplay.antt =====
-- packages/indexer/src/services/transferReplay.ts: what a replay is asked for, the transfers of a
-- batch of blocks, the loop over the batches and its progress.
pub mod Request
pub mod Collect
pub mod Run
mod Tests
