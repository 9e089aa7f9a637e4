-- ===== src/Tron.antt =====
-- Tron deposits, packages/lit-deposit-address/src: common/tron/transaction.ts and
-- common/address/tron.ts, the policy derivation/vm/tron/policy.ts and the signing of
-- derivation/vm/tron/TronVmWalletDeriver.ts.
pub mod Values
pub mod Names
pub mod Transaction
pub mod Address
pub mod Policy
pub mod Wallet
mod Tests
