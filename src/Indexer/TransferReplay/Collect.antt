-- ===== src/Indexer/TransferReplay/Collect.antt =====
-- The transfers of a batch of logs: `logs.sort`, the loop over the logs, `addTouchedAddress`,
-- `chunk`, and `getBlockTimestamp` of services/utils.ts with its cache.
pub mod Counted
use relay_settlement.Common.{
  ℕ, zero, suc, ◌+◌, List, [], ◌∷◌, ◌++◌, Bool, true, false, not, ◌&&◌, ◌||◌, Option, none, some,
  Result, ok, err, and_then, any, take, drop, length, ltb, leb, ◌==◌, equal_bytes, if◌then◌else◌,
}
use relay_settlement.Host.{Text}
use relay_settlement.Indexer.Ranges.{IndexedLog, Provider, ReadFault}
use relay_settlement.Indexer.Transfers.{Chain, TransferLog}
use relay_settlement.Indexer.TransferReplay.Request.{RequestError}

pub record ParsedTransferLog : Type 0 where
  pub amount : ℕ
  pub from : Text
  pub operator : Text
  pub to : Text
  pub token_id : Text

-- A transfer with the place of its log.
abbrev pub placed : IndexedLog → ParsedTransferLog → TransferLog
placed log transfer = record {
  operator = transfer.operator;
  from = transfer.from;
  to = transfer.to;
  token_id = transfer.token_id;
  amount = transfer.amount;
  block_number = log.block_number;
  transaction_hash = log.transaction_hash;
  index = log.index;
}

-- The provider, the hub contract, `parseTransferLog`, which parses with ethers, the time of a block,
-- the pages that a block has at most, and the token ids that are skipped.
pub record Env : Type 0 where
  pub provider : Provider
  pub chain : Chain
  pub parse_transfer_log : IndexedLog → Option ParsedTransferLog
  pub get_block : ℕ → Option ℕ
  pub max_pages : ℕ
  pub skip_token_ids : List Text

pub data ReplayFault : Type 0 where
  read_failed : ReadFault → ReplayFault
  bad_request : RequestError → ReplayFault
  block_not_found call_failed lock_taken no_fuel : ReplayFault

-- The comparison of the sort is not positive.
abbrev pub not_after : IndexedLog → IndexedLog → Bool
not_after a b =
    if a.block_number == b.block_number
    then leb a.index b.index
    else leb a.block_number b.block_number

-- The sort keeps the order of equal logs.
unfoldable pub insert_log : IndexedLog → List IndexedLog → List IndexedLog
insert_log x [] = x ∷ []
insert_log x (y ∷ ys) = let rest = insert_log x ys in if not_after x y then x ∷ y ∷ ys else y ∷ rest

unfoldable pub sort_logs : List IndexedLog → List IndexedLog
unfolding insert_log
sort_logs [] = []
sort_logs (x ∷ xs) = insert_log x (sort_logs xs)

abbrev pub cached : ℕ → List (ℕ × ℕ) → Option ℕ
cached block [] = none
cached block ((b, t) ∷ cache) = let rest = cached block cache in if b == block then some t else rest

-- The time of a block and the cache behind the call.
unfoldable pub get_block_timestamp : Env → List (ℕ × ℕ) → ℕ → Result ReplayFault (ℕ × List (ℕ × ℕ))
get_block_timestamp env cache block = elim (cached block cache) [
  | some t ↦ ok (t, cache)
  | none ↦ elim (env.get_block block) [
    | none ↦ err block_not_found
    | some t ↦ ok (t, cache ++ ((block, t) ∷ []))
  ]
]

abbrev pub should_skip_token_id : Env → Text → Bool
should_skip_token_id env token_id = any (λ t. equal_bytes token_id t) env.skip_token_ids

-- `set.add(x)`, in the order of insertion.
unfoldable pub add_text : Text → List Text → List Text
add_text x xs = if any (λ y. equal_bytes x y) xs then xs else xs ++ (x ∷ [])

unfoldable pub add_touched : Text → Text → List (Text × List Text) → List (Text × List Text)
unfolding add_text
add_touched token_id address [] = (token_id, address ∷ []) ∷ []
add_touched token_id address ((t, addresses) ∷ touched) =
    let rest = add_touched token_id address touched in
    if equal_bytes t token_id
    then (t, add_text address addresses) ∷ touched
    else (t, addresses) ∷ rest

unfoldable pub add_touched_address :
    Chain → List (Text × List Text) → Text → Text → List (Text × List Text)
unfolding add_touched
add_touched_address chain touched token_id address =
    add_touched token_id (chain.to_lower_case address) touched

-- The slices of a list by a size; the fuel is its length.
unfoldable pub chunks {ℓ} : {A : Type ℓ} → ℕ → ℕ → List A → List (List A)
chunks zero size items = []
chunks (suc fuel) size [] = []
chunks (suc fuel) size (x ∷ xs) =
    let rest = chunks fuel size (drop size (x ∷ xs)) in take size (x ∷ xs) ∷ rest

abbrev pub chunk {ℓ} : {A : Type ℓ} → List A → ℕ → List (List A)
chunk items size = chunks (length items) size items

pub record Collected : Type 0 where
  pub cache : List (ℕ × ℕ)
  pub skipped : ℕ
  pub transfers : List (TransferLog × ℕ)
  pub touched_tokens : List Text
  pub touched : List (Text × List Text)

module _ (env : Env) where
  unfoldable pub with_transfer :
      IndexedLog → ParsedTransferLog → ℕ → List (ℕ × ℕ) → Collected → Collected
  unfolding add_text add_touched_address
  with_transfer log transfer timestamp cache so_far = record {
    cache = cache;
    skipped = so_far.skipped;
    transfers = so_far.transfers ++ ((placed log transfer, timestamp) ∷ []);
    touched_tokens = add_text transfer.token_id so_far.touched_tokens;
    touched =
        add_touched_address env.chain
          (add_touched_address env.chain so_far.touched transfer.token_id transfer.from)
          transfer.token_id transfer.to;
  }

  unfoldable pub collect_transfer :
      IndexedLog → ParsedTransferLog → Collected → Result ReplayFault Collected
  unfolding get_block_timestamp with_transfer
  collect_transfer log transfer so_far =
      if should_skip_token_id env transfer.token_id
      then ok (record so_far { skipped = so_far.skipped + 1 })
      else and_then (get_block_timestamp env so_far.cache log.block_number)
          λ (timestamp, cache). ok (with_transfer log transfer timestamp cache so_far)

  unfoldable pub collect_log : IndexedLog → Collected → Result ReplayFault Collected
  unfolding collect_transfer
  collect_log log so_far = elim (env.parse_transfer_log log) [
    | none ↦ ok (record so_far { skipped = so_far.skipped + 1 })
    | some transfer ↦ collect_transfer log transfer so_far
  ]

  unfoldable pub collect_logs : List IndexedLog → Collected → Result ReplayFault Collected
  unfolding collect_log
  collect_logs [] so_far = ok so_far
  collect_logs (log ∷ logs) so_far = and_then (collect_log log so_far) (collect_logs logs)
