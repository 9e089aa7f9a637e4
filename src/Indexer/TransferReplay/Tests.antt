-- ===== src/Indexer/TransferReplay/Tests.antt =====
-- A replay of three blocks over a provider that refuses every range of more than one block.
use relay_settlement.Common.{
  ℕ, ◌+◌, ◌≡◌, inl, inr, refl, List, [], ◌∷◌, true, false, none, some, ok, err, Bool-cases, ◌==◌,
  if◌then◌else◌, arith,
}
use relay_settlement.Common.Int.{pos, negsuc}
use relay_settlement.Common.Doubles.{exact_limit, rounded}
use relay_settlement.Indexer.Transfers.{Chain}
use relay_settlement.Indexer.Ranges.{
  IndexedLog, ReadError, is_get_logs_response_too_large_error, Provider,
  get_transfer_logs_with_split,
}
use relay_settlement.Indexer.Ranges.Complete.{
  logs_between, last_page, Serves, get_transfer_logs_with_split_complete,
}
use relay_settlement.Indexer.TransferReplay.Request.{
  integer, Fields, JsNumber, TransferReplayRequest, validate_transfer_replay_request,
}
use relay_settlement.Indexer.TransferReplay.Request.Valid.{
  Valid, validate_transfer_replay_request_iff,
}
use relay_settlement.Indexer.TransferReplay.Collect.{Env}
use relay_settlement.Indexer.TransferReplay.Run.{System}
use relay_settlement.Indexer.TransferReplay.Run.Writes.{Answers}
use relay_settlement.Indexer.TransferReplay.Run.Complete.{Completes, run_transfer_replay_complete}
use relay_settlement.Indexer.TransferReplay.Run.Lock.{LockKept, run_transfer_replay_lock}

abbrev log : ℕ → IndexedLog
log n = record {
  block_number = n;
  transaction_hash = b'h' ∷ [];
  index = n;
  topics = [];
  contents = [];
}

-- Blocks 1 and 3 have a log each.
abbrev blocks : ℕ → List IndexedLog
blocks n = if n == 1 then log 1 ∷ [] else if n == 3 then log 3 ∷ [] else []

abbrev too_large : ReadError
too_large = ReadError.object none [] (ReadError.object (some (negsuc 32004)) [] ReadError.plain)

abbrev provider : Provider
provider = record {
  get_logs = λ a b. if a == b then ok (logs_between blocks a b) else err too_large;
  get_logs_with_cursor = λ a b cursor. ok (record { cursor = none; logs = blocks a });
}

serves : Serves provider blocks 1
unfolding is_get_logs_response_too_large_error
serves = record {
  ranged = λ a b h. elim (Bool-cases (a == b)) [
    | inl e ↦ inl (rw e refl)
    | inr e ↦ inr (too_large, rw e refl, refl)
  ];
  paged = λ a. last_page 0 none (record { cursor = none; logs = blocks a }) refl refl;
}

get_transfer_logs_with_split_complete_example :
    get_transfer_logs_with_split provider 4 1 1 3 ≡ ok (log 1 ∷ log 3 ∷ [])
get_transfer_logs_with_split_complete_example =
    get_transfer_logs_with_split_complete provider blocks 1 serves 4 1 1 3 (omega arith)
      (omega arith) (omega arith) (omega arith)

abbrev chain : Chain
chain = record {
  balance_of = λ a t. some 5;
  total_supply = λ t. some 10;
  name = λ t. none;
  symbol = λ t. none;
  decimals = λ t. some 6;
  token_metadata = λ t. none;
  to_lower_case = λ t. t;
  zero_address = b'0' ∷ [];
}

abbrev env : Env
env = record {
  provider = provider;
  chain = chain;
  parse_transfer_log = λ l. some (record {
    amount = 4;
    from = b'a' ∷ [];
    operator = b'a' ∷ [];
    to = b'b' ∷ [];
    token_id = b'u' ∷ [];
  });
  get_block = λ n. some n;
  max_pages = 1;
  skip_token_ids = [];
}

answers : Answers env
answers = record { balance = λ a t. (5, refl); supply = λ t. (10, refl); block = λ n. (n, refl) }

abbrev request : TransferReplayRequest
request = record { batch_size = 2; from_block = 1; reconcile_chunk_size = 1; to_block = 3 }

abbrev idle : System
idle = record { db = record { balances = []; tokens = []; events = [] }; locked = false }

run_transfer_replay_complete_example :
    Completes env answers blocks 1 serves (omega arith) request (omega arith) idle
run_transfer_replay_complete_example =
    run_transfer_replay_complete env answers blocks 1 serves (omega arith) request (omega arith)
      (omega arith) (omega arith) (omega arith) (omega arith) idle refl

-- Another replay holds the lock.
abbrev taken : System
taken = record { db = record { balances = []; tokens = []; events = [] }; locked = true }

run_transfer_replay_lock_example : LockKept env request idle × LockKept env request taken
run_transfer_replay_lock_example =
    (run_transfer_replay_lock env request idle, run_transfer_replay_lock env request taken)

abbrev raw : Fields JsNumber
raw = record {
  batch_size = integer (pos 2);
  from_block = integer (pos 1);
  reconcile_chunk_size = integer (pos 1);
  to_block = integer (pos 3);
}

raw-Valid : Valid raw (some 3) request
raw-Valid = record {
  batch = refl;
  first = refl;
  chunk_number = refl;
  last = refl;
  some_batch = omega arith;
  some_chunk = omega arith;
  ordered = omega arith;
  within = omega arith;
}

validate_transfer_replay_request_iff_example :
    validate_transfer_replay_request raw (some 3) ≡ ok request
validate_transfer_replay_request_iff_example =
    (validate_transfer_replay_request_iff raw (some 3) request).1 raw-Valid

-- A tie goes to the even side, and a sum can be the number itself.
rounds_tie : rounded (exact_limit + 1) ≡ exact_limit
unfolding rounded
rounds_tie = refl

rounds_up : rounded (exact_limit + 3) ≡ exact_limit + 4
unfolding rounded
rounds_up = refl
