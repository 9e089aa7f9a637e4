-- ===== src/Indexer/Transfers.antt =====
-- packages/indexer/src/services/transferProcessor.ts: token metadata, and the balances, holders and
-- supply that are taken over from the chain. A call of the hub contract returns a value or fails
-- (`none`); an operation returns its result beside the database, which keeps what was written
-- before a failure.
pub mod Writes
pub mod Tracked
pub mod Reconcile
pub mod Replay
use relay_settlement.Common.{
  ℕ, zero, suc, ◌+◌, ◌≡◌, List, [], ◌∷◌, ◌++◌, Bool, true, false, not, Option, none, some, Result,
  ok, err, ◌==◌, equal_bytes, any, if◌then◌else◌, map,
}
use relay_settlement.Common.Int.{pos}
use relay_settlement.Host.{Text}
use relay_settlement.Indexer.Database.{
  Balance, Token, Event, Database, get_balance, set_balance, get_holder_count, select_token,
  update_token, set_token_state, sync_token_transfers_from_events, insert_event,
}

-- The origin that the contract reports of a token; a part that is missing is the empty text.
pub record Origin : Type 0 where
  pub family : Text
  pub chain_id : Text
  pub asset : Text

-- The hub contract at the block that is read, and the host.
pub record Chain : Type 0 where
  pub balance_of : Text → Text → Option ℕ
  pub total_supply : Text → Option ℕ
  pub name : Text → Option Text
  pub symbol : Text → Option Text
  pub decimals : Text → Option ℕ
  pub token_metadata : Text → Option Origin
  pub to_lower_case : Text → Text
  pub zero_address : Text

pub data Failure : Type 0 where
  call_failed : Failure

abbrev pub unknown : Text
unknown = b'U' ∷ b'n' ∷ b'k' ∷ b'n' ∷ b'o' ∷ b'w' ∷ b'n' ∷ []

-- `name ?? "Unknown"`, and `text || null`.
abbrev pub resolved_name : Option Text → Option Text
resolved_name none = some unknown
resolved_name (some n) = some n

abbrev pub or_null : Text → Option Text
or_null [] = none
or_null (c ∷ cs) = some (c ∷ cs)

abbrev pub origin_part : (Origin → Text) → Option Origin → Option Text
origin_part part none = none
origin_part part (some o) = or_null (part o)

-- The row of a token that is new.
unfoldable pub new_token : Chain → Text → Token
new_token chain token_id = record {
  token_id = token_id;
  name = resolved_name (chain.name token_id);
  symbol = chain.symbol token_id;
  decimals = chain.decimals token_id;
  origin_family = origin_part (λ o. o.family) (chain.token_metadata token_id);
  origin_chain_id = origin_part (λ o. o.chain_id) (chain.token_metadata token_id);
  origin_asset = origin_part (λ o. o.asset) (chain.token_metadata token_id);
  total_supply = 0;
  holders = pos 0;
  transfers = 0;
}

abbrev pub ensured : Token → List Token → Option Token → List Token
ensured fresh tokens none = tokens ++ (fresh ∷ [])
ensured fresh tokens (some t) = tokens

unfoldable pub ensure_token : Chain → Text → Database → Database
unfolding new_token select_token
ensure_token chain token_id db = record db {
  tokens = ensured (new_token chain token_id) db.tokens (select_token token_id db.tokens);
}

unfoldable pub refresh_token_metadata : Chain → Text → Database → Database
unfolding update_token
refresh_token_metadata chain token_id db = record db {
  tokens =
      update_token token_id
        (λ t. record t {
          name = resolved_name (chain.name token_id);
          symbol = chain.symbol token_id;
          decimals = chain.decimals token_id;
          origin_family = origin_part (λ o. o.family) (chain.token_metadata token_id);
          origin_chain_id = origin_part (λ o. o.chain_id) (chain.token_metadata token_id);
          origin_asset = origin_part (λ o. o.asset) (chain.token_metadata token_id);
        })
        db.tokens;
}

unfoldable pub is_zero_address : Chain → Text → Bool
is_zero_address chain address = equal_bytes (chain.to_lower_case address) chain.zero_address

-- `[...new Set(texts)]`: the first of each, in order.
unfoldable pub without : Text → List Text → List Text
without x [] = []
without x (y ∷ ys) = let rest = without x ys in if equal_bytes x y then rest else y ∷ rest

unfoldable pub distinct : List Text → List Text
unfolding without
distinct [] = []
distinct (x ∷ xs) = x ∷ without x (distinct xs)

unfoldable pub drop_zero : Chain → List Text → List Text
unfolding is_zero_address
drop_zero chain [] = []
drop_zero chain (a ∷ as') =
    let rest = drop_zero chain as' in if is_zero_address chain a then rest else a ∷ rest

unfoldable pub tracked_addresses : Chain → List Text → List Text
unfolding distinct drop_zero
tracked_addresses chain addresses = drop_zero chain (distinct (map chain.to_lower_case addresses))

-- `Promise.all` over the addresses: one call that fails makes all of it fail.
unfoldable pub read_balances : Chain → Text → List Text → Option (List (Text × ℕ))
read_balances chain token_id [] = some []
read_balances chain token_id (a ∷ as') =
    let rest = read_balances chain token_id as' in
    elim (chain.balance_of a token_id) [
      | none ↦ none
      | some b ↦ elim rest [ none ↦ none | some items ↦ some ((a, b) ∷ items) ]
    ]

-- `if (previous === item.balance) continue`, else the balance is set.
unfoldable pub write_balance : Text → Option ℕ → Text → ℕ → List Balance → List Balance
unfolding get_balance set_balance
write_balance token_id timestamp address balance rows =
    if get_balance address token_id rows == balance
    then rows
    else set_balance address token_id balance timestamp rows

unfoldable pub write_balances : Text → Option ℕ → List (Text × ℕ) → List Balance → List Balance
unfolding write_balance
write_balances token_id timestamp [] rows = rows
write_balances token_id timestamp ((a, b) ∷ items) rows =
    write_balances token_id timestamp items (write_balance token_id timestamp a b rows)

-- The supply and the holders, when the balances are written.
unfoldable pub finish : Chain → Text → Database → Result Failure (Unit {0}) × Database
unfolding set_token_state get_holder_count
finish chain token_id db = elim (chain.total_supply token_id) [
  | none ↦ (err call_failed, db)
  | some supply ↦
      (ok tt, set_token_state token_id supply (get_holder_count token_id db.balances) db)
]

unfoldable pub reconcile_transfer_state_from_chain :
    Chain → Text → List Text → Option ℕ → Database → Result Failure (Unit {0}) × Database
unfolding ensure_token tracked_addresses read_balances write_balances finish
reconcile_transfer_state_from_chain chain token_id addresses timestamp db =
    let db' = ensure_token chain token_id db in
    elim (read_balances chain token_id (tracked_addresses chain addresses)) [
      | none ↦ (err call_failed, db')
      | some items ↦
          finish chain token_id
            (record db' { balances = write_balances token_id timestamp items db'.balances })
    ]

-- A transfer as it was parsed from a log, with the log's place.
pub record TransferLog : Type 0 where
  pub operator : Text
  pub from : Text
  pub to : Text
  pub token_id : Text
  pub amount : ℕ
  pub block_number : ℕ
  pub transaction_hash : Text
  pub index : ℕ

unfoldable pub event_of : Chain → TransferLog → ℕ → Event
event_of chain log timestamp = record {
  block_number = log.block_number;
  tx_hash = log.transaction_hash;
  log_index = log.index;
  operator = chain.to_lower_case log.operator;
  from_addr = chain.to_lower_case log.from;
  to_addr = chain.to_lower_case log.to;
  token_id = log.token_id;
  amount = log.amount;
  timestamp = timestamp;
}

unfoldable pub insert_parsed_transfer_log : Chain → TransferLog → ℕ → Database → ℕ × Database
unfolding insert_event event_of
insert_parsed_transfer_log chain log timestamp db = insert_event (event_of chain log timestamp) db

-- The transfers are counted only where the reconciliation did not fail.
abbrev pub synced : Text → ℕ → Result Failure (Unit {0}) × Database → Result Failure ℕ × Database
synced token_id inserted (ok _, db) = (ok inserted, sync_token_transfers_from_events token_id db)
synced token_id inserted (err e, db) = (err e, db)

unfoldable pub replay_transfer_log_from_chain :
    Chain → TransferLog → ℕ → Database → Result Failure ℕ × Database
unfolding insert_parsed_transfer_log reconcile_transfer_state_from_chain
    sync_token_transfers_from_events
replay_transfer_log_from_chain chain log timestamp db =
    let (inserted, db') = insert_parsed_transfer_log chain log timestamp db in
    synced log.token_id inserted (
      reconcile_transfer_state_from_chain chain log.token_id (log.from ∷ log.to ∷ [])
        (some timestamp) db')
