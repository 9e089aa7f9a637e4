-- ===== src/Indexer/Database.antt =====
-- The tables of packages/indexer/src/migrations and the statements that services/transferProcessor.ts
-- runs on them. A table is a list of rows. The columns `id`, `created_at`, `updated_at` and the
-- floating-point `balance_scaled` are left out; a statement does not fail.
pub mod Keys
pub mod Tokens
use relay_settlement.Common.{
  ℕ, zero, suc, ◌+◌, ◌≡◌, List, [], ◌∷◌, ◌++◌, Bool, true, false, ◌&&◌, ◌||◌, Option, none, some,
  ltb, ◌==◌, equal_bytes, if◌then◌else◌,
}
use relay_settlement.Common.Int.{ℤ, pos}
use relay_settlement.Host.{Text}

pub record Balance : Type 0 where
  pub address : Text
  pub token_id : Text
  pub balance : ℕ
  pub last_transfer_at : Option ℕ

pub record Token : Type 0 where
  pub token_id : Text
  pub name : Option Text
  pub symbol : Option Text
  pub decimals : Option ℕ
  pub origin_family : Option Text
  pub origin_chain_id : Option Text
  pub origin_asset : Option Text
  pub total_supply : ℕ
  pub holders : ℤ
  pub transfers : ℕ

pub record Event : Type 0 where
  pub block_number : ℕ
  pub tx_hash : Text
  pub log_index : ℕ
  pub operator : Text
  pub from_addr : Text
  pub to_addr : Text
  pub token_id : Text
  pub amount : ℕ
  pub timestamp : ℕ

pub record Database : Type 0 where
  pub balances : List Balance
  pub tokens : List Token
  pub events : List Event

abbrev pub same_key : Text → Text → Text → Text → Bool
same_key a t b u = equal_bytes a b && equal_bytes t u

abbrev pub at_key : Text → Text → Balance → Bool
at_key a t r = same_key a t r.address r.token_id

-- A missing row counts as 0.
unfoldable pub get_balance : Text → Text → List Balance → ℕ
get_balance address token_id [] = 0
get_balance address token_id (r ∷ rs) =
    if at_key address token_id r then r.balance else get_balance address token_id rs

unfoldable pub delete_balance : Text → Text → List Balance → List Balance
delete_balance address token_id [] = []
delete_balance address token_id (r ∷ rs) =
    let rest = delete_balance address token_id rs in
    if at_key address token_id r then rest else r ∷ rest

-- The new time, if there is one and it is later than the old; else the old.
abbrev pub later_time : Option ℕ → Option ℕ → Option ℕ
later_time none old = old
later_time (some new) none = some new
later_time (some new) (some old) = if ltb old new then some new else some old

unfoldable pub upsert_balance : Text → Text → ℕ → Option ℕ → List Balance → List Balance
upsert_balance address token_id balance timestamp [] =
    record {
      address = address;
      token_id = token_id;
      balance = balance;
      last_transfer_at = timestamp;
    }
    ∷ []
upsert_balance address token_id balance timestamp (r ∷ rs) =
    let rest = upsert_balance address token_id balance timestamp rs in
    if at_key address token_id r
    then record r { balance = balance; last_transfer_at = later_time timestamp r.last_transfer_at }
      ∷ rs
    else r ∷ rest

unfoldable pub set_balance : Text → Text → ℕ → Option ℕ → List Balance → List Balance
unfolding delete_balance upsert_balance
set_balance address token_id balance timestamp rows =
    if balance == 0
    then delete_balance address token_id rows
    else upsert_balance address token_id balance timestamp rows

unfoldable pub get_holder_count : Text → List Balance → ℕ
get_holder_count token_id [] = 0
get_holder_count token_id (r ∷ rs) =
    (if equal_bytes token_id r.token_id then 1 else 0) + get_holder_count token_id rs

unfoldable pub select_token : Text → List Token → Option Token
select_token token_id [] = none
select_token token_id (t ∷ ts) =
    if equal_bytes token_id t.token_id then some t else select_token token_id ts

-- `UPDATE tokens SET … WHERE token_id = …`.
unfoldable pub update_token : Text → (Token → Token) → List Token → List Token
update_token token_id change [] = []
update_token token_id change (t ∷ ts) =
    (if equal_bytes token_id t.token_id then change t else t) ∷ update_token token_id change ts

unfoldable pub set_token_state : Text → ℕ → ℕ → Database → Database
unfolding update_token
set_token_state token_id total_supply holders db = record db {
  tokens =
      update_token token_id (λ t. record t { total_supply = total_supply; holders = pos holders })
        db.tokens;
}

unfoldable pub count_events : Text → List Event → ℕ
count_events token_id [] = 0
count_events token_id (e ∷ es) =
    (if equal_bytes token_id e.token_id then 1 else 0) + count_events token_id es

unfoldable pub sync_token_transfers_from_events : Text → Database → Database
unfolding update_token count_events
sync_token_transfers_from_events token_id db = record db {
  tokens =
      update_token token_id (λ t. record t { transfers = count_events token_id db.events })
        db.tokens;
}

unfoldable pub has_event : Text → ℕ → List Event → Bool
has_event tx_hash log_index [] = false
has_event tx_hash log_index (e ∷ es) =
    (equal_bytes tx_hash e.tx_hash && (log_index == e.log_index)) || has_event tx_hash log_index es

-- `ON CONFLICT(tx_hash, log_index) DO NOTHING`: the count of rows, and the database.
unfoldable pub insert_event : Event → Database → ℕ × Database
unfolding has_event
insert_event e db =
    if has_event e.tx_hash e.log_index db.events
    then (0, db)
    else (1, record db { events = db.events ++ (e ∷ []) })
