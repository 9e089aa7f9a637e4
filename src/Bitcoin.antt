-- ===== src/Bitcoin.antt =====
-- The check of Bitcoin deposits, packages/lit-deposit-address/src/derivation/vm/bitcoin/transaction.ts.
pub mod Reader
pub mod Codec
pub mod Tx
pub mod Scripts
pub mod Address
pub mod Policy
pub mod Digests
mod Tests
