-- ===== src/Ethereum.antt =====
-- The Ethereum wallet of packages/lit-deposit-address/src/derivation/vm/ethereum: the address codec
-- of common/address/ethereum.ts, the policy `verifyTransactions` and the signing.
pub mod Address
pub mod Policy
pub mod Wallet
mod Tests
