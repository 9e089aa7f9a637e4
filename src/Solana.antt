-- ===== src/Solana.antt =====
-- Solana deposits, derivation/vm/solana/SolanaVmWalletDeriver.ts: the parser of compiled messages, the policy `verifyTransactions` and the signing.
pub mod Reader
pub mod Message
pub mod Policy
pub mod Wallet
mod Tests
