-- ===== src/Hyperliquid.antt =====
-- The Hyperliquid policy of packages/lit-deposit-address/src/derivation/vm/hyperliquid.
pub mod Amount
mod Tests
