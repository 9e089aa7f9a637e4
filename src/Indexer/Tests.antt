-- ===== src/Indexer/Tests.antt =====
-- Runs of the indexer on a small chain, and the theorems at concrete inputs.
use relay_settlement.Common.{◌≡◌, refl, [], ◌∷◌, none, some, ok, equal_bytes}
use relay_settlement.Host.{Text}
use relay_settlement.Indexer.Database.{Database, has_event, insert_event}
use relay_settlement.Indexer.Transfers.{
  Chain, TransferLog, ensure_token, is_zero_address, without, distinct, drop_zero,
  tracked_addresses, read_balances, finish, reconcile_transfer_state_from_chain, event_of,
  insert_parsed_transfer_log, replay_transfer_log_from_chain,
}
use relay_settlement.Indexer.Transfers.Reconcile.{Reconciled, reconcile-Reconciled}
use relay_settlement.Indexer.Transfers.Replay.{replay_transfer_log_again}

abbrev alice : Text
alice = b'a' ∷ []

abbrev bob : Text
bob = b'b' ∷ []

abbrev usd : Text
usd = b'u' ∷ []

abbrev chain : Chain
chain = record {
  balance_of = λ a t. some 5;
  total_supply = λ t. some 10;
  name = λ t. none;
  symbol = λ t. none;
  decimals = λ t. some 6;
  token_metadata = λ t. none;
  to_lower_case = λ t. t;
  zero_address = b'0' ∷ [];
}

abbrev before : Database
before = record {
  balances = record { address = alice; token_id = usd; balance = 9; last_transfer_at = none } ∷ [];
  tokens = [];
  events = [];
}

abbrev log : TransferLog
log = record {
  operator = alice;
  from = alice;
  to = bob;
  token_id = usd;
  amount = 4;
  block_number = 7;
  transaction_hash = b'h' ∷ [];
  index = 1;
}

abbrev reconciled : Database
unfolding reconcile_transfer_state_from_chain
reconciled = (reconcile_transfer_state_from_chain chain usd (alice ∷ bob ∷ []) (some 3) before).1

reconcile_run :
    reconcile_transfer_state_from_chain chain usd (alice ∷ bob ∷ []) (some 3) before
    ≡ (ok tt, reconciled)
unfolding reconcile_transfer_state_from_chain ensure_token tracked_addresses distinct without
    drop_zero is_zero_address read_balances finish equal_bytes
reconcile_run = refl

abbrev replayed : Database
unfolding replay_transfer_log_from_chain
replayed = (replay_transfer_log_from_chain chain log 3 before).1

replay_run : replay_transfer_log_from_chain chain log 3 before ≡ (ok 1, replayed)
unfolding replay_transfer_log_from_chain insert_parsed_transfer_log insert_event has_event event_of
    reconcile_transfer_state_from_chain ensure_token tracked_addresses distinct without drop_zero
    is_zero_address read_balances finish equal_bytes
replay_run = refl

reconcile-Reconciled_example : Reconciled chain usd (alice ∷ bob ∷ []) before reconciled
reconcile-Reconciled_example =
    reconcile-Reconciled chain usd (alice ∷ bob ∷ []) (some 3) before reconciled reconcile_run

replay_transfer_log_again_example :
    replay_transfer_log_from_chain chain log 3 replayed ≡ (ok 0, replayed)
replay_transfer_log_again_example =
    replay_transfer_log_again chain log 3 before replayed 1 replay_run
