-- ===== src/Indexer/Executions/Tests.antt =====
-- A run on a transaction of a multicall, and the theorem at it.
use relay_settlement.Common.{◌≡◌, refl, [], ◌∷◌, none, some, ok, and_then, equal_bytes}
use relay_settlement.Indexer.Executions.{
  executed, multiple, execute_multiple, Context, Log, NormalizedOracleExecution, actions_equal,
  normalize_execution_struct, normalize_all, decode_parsed, decode_oracle_transaction, oracle_calls,
  decode_each, decode_multicall, decode_oracle_transaction_calls, get_decoded_oracle_transaction,
  candidates, with_key, matching_execution, process_oracle_execution_log,
}
use relay_settlement.Indexer.Executions.Matches.{Matched, process_oracle_execution_log-Matched}

abbrev context : Context
context = record {
  to_lower_case = λ t. t;
  parse_transaction = λ t. some (
      multiple
        (record { idempotency_key = 1 ∷ []; actions = (5 ∷ []) ∷ [] }
          ∷ record { idempotency_key = 2 ∷ []; actions = (6 ∷ []) ∷ [] }
          ∷ [])
        none ((7 ∷ []) ∷ (8 ∷ []) ∷ []));
  parse_multicall = λ t. some (
      record { target = 3 ∷ []; call_data = 4 ∷ [] }
      ∷ record { target = 9 ∷ []; call_data = 4 ∷ [] }
      ∷ []);
  get_transaction = λ t. some (record { to = some (0 ∷ []); data_text = 1 ∷ [] });
  oracle_contract_address = 9 ∷ [];
}

abbrev log : Log
log = record {
  block_number = 1;
  transaction_hash = 2 ∷ [];
  index = 3;
  parsed = some (executed (2 ∷ []) ((6 ∷ []) ∷ []));
}

abbrev stored : NormalizedOracleExecution
stored = record {
  tx_hash = 2 ∷ [];
  block_number = 1;
  log_index = 3;
  timestamp = 4;
  oracle_contract_address = 9 ∷ [];
  idempotency_key = 2 ∷ [];
  actions = (6 ∷ []) ∷ [];
  submitted_oracle_address = none;
  aggregated_signature = 8 ∷ [];
  execution_index = 1;
  execution_count = 2;
  method = execute_multiple;
}

run : process_oracle_execution_log context log 4 ≡ ok (some stored)
unfolding process_oracle_execution_log get_decoded_oracle_transaction
    decode_oracle_transaction_calls decode_multicall oracle_calls decode_each
    decode_oracle_transaction decode_parsed normalize_all normalize_execution_struct candidates
    with_key matching_execution actions_equal and_then equal_bytes
run = refl

process_oracle_execution_log-Matched_example : Matched context log stored
process_oracle_execution_log-Matched_example =
    process_oracle_execution_log-Matched context log 4 stored run
