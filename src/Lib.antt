-- ===== src/Lib.antt =====
-- Relay settlement: a verification library for the TypeScript packages.
--
-- Bytes: the little-endian helpers of packages/lit-deposit-address/src/common/bytes.ts.
-- Host: what the deposit-address package takes from its libraries and from the JavaScript host
-- (hashes, hex, base58, bech32, UTF-8, BigInt), as the fields of a record that the definitions take
-- as an argument.
-- Bitcoin: packages/lit-deposit-address/src/derivation/vm/bitcoin/transaction.ts and
-- common/address/bitcoin.ts. Reader is the class `Reader`, a state of bytes and an offset, and each
-- method a function of it; Tx is `parseTx`; Scripts has `addressScripts`, `opReturn` and
-- DEPOSITOR_RE; Address is the address codec; Policy is `assertBitcoinDepositTransaction`; Digests
-- is `signableBitcoinDigests`. Errors are the constructors of `Error`; the texts of the messages
-- are left out. Text is a list of UTF-16 code units.
--
-- Indexer: packages/indexer/src. Database has the tables and the statements of
-- services/transferProcessor.ts on them, each table a list of rows; Transfers has `ensureToken`,
-- `refreshTokenMetadata`, `reconcileTransferStateFromChain`, `insertParsedTransferLog` and
-- `replayTransferLogFromChain`; the contract's calls at one block are the functions of a record.
-- Roles is services/accessControlProcessor.ts and `processSingleLog`, Executions is
-- services/oracleExecutionProcessor.ts, Retry is services/retry.ts.
-- Ranges and TransferReplay are services/transferReplay.ts: Ranges has `getTransferLogsWithSplit`,
-- with fuel for the halves and for the pages; Request the validation and the progress, Collect the
-- transfers of a batch of logs, and Run the loop over the batches under the lock, whose fuel is the
-- number of blocks and two. Sums of block numbers are those of JavaScript: Common/Doubles rounds
-- them to doubles, which is exact up to 2 to the power 53; the counters, the progress and the check
-- of the range's length are exact numbers. The provider's calls and the parser of logs are parameters.
-- ReplayJobs is services/transferReplayJobs.ts: the table of jobs, its operations and the callbacks
-- of a replay as steps on it.
-- Runtime is runtimeState.ts.
-- Left out are the timestamps of the rows, the scaled balance (a float) and the logging.
-- Tron: packages/lit-deposit-address/src. Values and Transaction are common/tron/transaction.ts,
-- where TronWeb is a parameter and its untyped results are the data type `Value`; Address is
-- common/address/tron.ts, Policy is derivation/vm/tron/policy.ts with the encoders of viem and the
-- clock as parameters, and Wallet is the signing of TronVmWalletDeriver.ts.
-- Solana: derivation/vm/solana/SolanaVmWalletDeriver.ts. Reader is the class `ByteReader` and Message
-- `parseSolanaCompiledMessage`; Policy is `verifyTransactions` with its two deposits, and Wallet
-- `signTransactionWithKey`. Ed25519 is common/ed25519.ts, whose curve is a parameter with the laws
-- of a group as hypotheses; Parity is a curve of two points that has these laws.
-- Ethereum: common/address/ethereum.ts, as Wallet the signing and as Policy `verifyTransactions` of
-- derivation/vm/ethereum/EthereumVmWalletDeriver.ts, with the parser of viem as a parameter.
-- Hyperliquid: `rawAmount` and `inputCurrencyDecimals` of derivation/vm/hyperliquid/policy.ts.
-- Manifests: packages/multisig-tools/src/helpers/nonceConflicts.ts, with the files, the schema and
-- the RPC calls as parameters; Claims reads its maps, Keys its keys and its directory, and Conflicts
-- says what a conflict is.
--
-- A bigint is a number where the source keeps it from being negative, and where it is only compared
-- with numbers that are not; in Digests it is an integer. Loops are recursions on the
-- list or the count that they run over, so no fuel is needed,
-- but for `runWithRetry`: its loop has fuel for six attempts, and is shown to end within them.
-- Besides `runWithRetry`, the halves and pages of Ranges and the loop of TransferReplay have fuel,
-- and the theorems on them say how much is enough.
-- Not modelled: the TON cells and wallet, the Hyperliquid wallet and most of its policy, the
-- derivation of keys in packages/lit-deposit-address, the server, the queries, the audits and the
-- block loop of packages/indexer, the sdk, and the contracts.
pub mod Common
pub mod Bytes
pub mod Host
pub mod Bitcoin
pub mod Indexer
pub mod Tron
pub mod Manifests
pub mod Ed25519
pub mod Solana
pub mod Ethereum
pub mod Hyperliquid
