-- ===== src/Indexer/Executions.antt =====
-- packages/indexer/src/services/oracleExecutionProcessor.ts: which execution of a decoded oracle
-- transaction a log belongs to. What ethers parses is data that the operations take: a parse that
-- throws or gives null is `none`. The cache of transactions is left out, as it gives what the
-- provider gave; errors are constructors.
pub mod Matches
mod Tests
use relay_settlement.Common.{
  ℕ, zero, suc, ◌+◌, List, [], ◌∷◌, ◌++◌, Bool, true, false, not, ◌&&◌, Option, none, some, Result,
  ok, err, and_then, or_throw, map, length, find?, ◌==◌, equal_bytes, if◌then◌else◌,
}
use relay_settlement.Host.{Text}

pub data Error : Type 0 where
  undecodable_log undecodable_transaction batch_mismatch unsupported_method target_mismatch
        no_oracle_call no_decoded_call transaction_missing calldata_missing execution_missing
        actions_mismatch :
      Error

pub data Method : Type 0 where
  execute execute_multiple : Method

-- The execution struct of the calldata, as ethers parses it.
pub record Struct : Type 0 where
  pub idempotency_key : Text
  pub actions : List Text

-- `parseTransaction` of the oracle's interface, with the oracle's address where the method has it.
pub data ParsedTransaction : Type 0 where
  single : Struct → Option Text → Text → ParsedTransaction
  multiple : List Struct → Option Text → List Text → ParsedTransaction
  other_method : ParsedTransaction

-- `parseLog` of the oracle's interface.
pub data ParsedLog : Type 0 where
  executed execution_failed : Text → List Text → ParsedLog
  other_log : ParsedLog

pub record Call : Type 0 where
  pub target : Text
  pub call_data : Text

pub record Transaction : Type 0 where
  pub to : Option Text
  pub data_text : Text

pub record DecodedOracleExecution : Type 0 where
  pub idempotency_key : Text
  pub actions : List Text
  pub aggregated_signature : Text
  pub execution_index : ℕ

pub record DecodedOracleTransaction : Type 0 where
  pub method : Method
  pub submitted_oracle_address : Option Text
  pub executions : List DecodedOracleExecution

pub record Log : Type 0 where
  pub block_number : ℕ
  pub transaction_hash : Text
  pub index : ℕ
  pub parsed : Option ParsedLog

pub record NormalizedOracleExecution : Type 0 where
  pub tx_hash : Text
  pub block_number : ℕ
  pub log_index : ℕ
  pub timestamp : ℕ
  pub oracle_contract_address : Text
  pub idempotency_key : Text
  pub actions : List Text
  pub submitted_oracle_address : Option Text
  pub aggregated_signature : Text
  pub execution_index : ℕ
  pub execution_count : ℕ
  pub method : Method

-- The host and the provider. `parse_multicall` gives the calls of `aggregate3` and
-- `aggregate3Value`; `get_transaction` is none where there is no such transaction.
pub record Context : Type 0 where
  pub to_lower_case : Text → Text
  pub parse_transaction : Text → Option ParsedTransaction
  pub parse_multicall : Text → Option (List Call)
  pub get_transaction : Text → Option Transaction
  pub oracle_contract_address : Text

unfoldable pub actions_equal : List Text → List Text → Bool
actions_equal [] [] = true
actions_equal [] (y ∷ ys) = false
actions_equal (x ∷ xs) [] = false
actions_equal (x ∷ xs) (y ∷ ys) = equal_bytes x y && actions_equal xs ys

module _ (context : Context) where
  unfoldable pub normalize_execution_struct : Struct → ℕ → Text → DecodedOracleExecution
  normalize_execution_struct s index signature = record {
    idempotency_key = context.to_lower_case s.idempotency_key;
    actions = map context.to_lower_case s.actions;
    aggregated_signature = context.to_lower_case signature;
    execution_index = index;
  }

  -- `executions.map((execution, index) => …)`, beside the signatures, from an index on.
  unfoldable pub normalize_all : ℕ → List Struct → List Text → List DecodedOracleExecution
  unfolding normalize_execution_struct
  normalize_all index [] signatures = []
  normalize_all index (s ∷ ss) [] = []
  normalize_all index (s ∷ ss) (g ∷ gs) =
      normalize_execution_struct s index g ∷ normalize_all (suc index) ss gs

  abbrev pub lowered : Option Text → Option Text
  lowered none = none
  lowered (some t) = some (context.to_lower_case t)

  unfoldable pub decode_parsed : ParsedTransaction → Result Error DecodedOracleTransaction
  unfolding normalize_all
  decode_parsed (single s oracle signature) = ok (record {
    method = execute;
    submitted_oracle_address = lowered oracle;
    executions = normalize_execution_struct s 0 signature ∷ [];
  })
  decode_parsed (multiple ss oracle signatures) =
      if not (length ss == length signatures)
      then err Error.batch_mismatch
      else ok (record {
        method = execute_multiple;
        submitted_oracle_address = lowered oracle;
        executions = normalize_all 0 ss signatures;
      })
  decode_parsed other_method = err Error.unsupported_method

  unfoldable pub decode_oracle_transaction : Text → Result Error DecodedOracleTransaction
  unfolding decode_parsed
  decode_oracle_transaction calldata =
      and_then (or_throw Error.undecodable_transaction (context.parse_transaction calldata))
        decode_parsed

  unfoldable pub oracle_calls : List Call → List Call
  oracle_calls [] = []
  oracle_calls (c ∷ cs) =
      let rest = oracle_calls cs in
      if equal_bytes (context.to_lower_case c.target)
        (context.to_lower_case context.oracle_contract_address)
      then c ∷ rest
      else rest

  -- The calls that decode; the errors of the others are only collected for a message.
  unfoldable pub decode_each : List Call → List DecodedOracleTransaction
  unfolding decode_oracle_transaction
  decode_each [] = []
  decode_each (c ∷ cs) =
      let rest = decode_each cs in
      elim (decode_oracle_transaction c.call_data) [ ok t ↦ t ∷ rest | err e ↦ rest ]

  abbrev pub non_empty {ℓ} : {A : Type ℓ} → Error → List A → Result Error (List A)
  non_empty e [] = err e
  non_empty e (x ∷ xs) = ok (x ∷ xs)

  abbrev pub is_oracle : Option Text → Bool
  is_oracle none = false
  is_oracle (some t) =
      equal_bytes (context.to_lower_case t) (context.to_lower_case context.oracle_contract_address)

  unfoldable pub decode_multicall : Text → Result Error (List DecodedOracleTransaction)
  unfolding oracle_calls decode_each
  decode_multicall calldata =
      and_then (or_throw Error.target_mismatch (context.parse_multicall calldata)) λ calls.
        and_then (non_empty Error.no_oracle_call (oracle_calls calls))
          λ found. non_empty Error.no_decoded_call (decode_each found)

  unfoldable pub decode_oracle_transaction_calls :
      Option Text → Text → Result Error (List DecodedOracleTransaction)
  unfolding decode_oracle_transaction decode_multicall
  decode_oracle_transaction_calls target calldata =
      if is_oracle target
      then (and_then (decode_oracle_transaction calldata) λ t. ok (t ∷ []))
      else decode_multicall calldata

  -- Calldata that is empty is missing.
  unfoldable pub get_decoded_oracle_transaction :
      Text → Result Error (List DecodedOracleTransaction)
  unfolding decode_oracle_transaction_calls
  get_decoded_oracle_transaction tx_hash =
      and_then (or_throw Error.transaction_missing (context.get_transaction tx_hash)) λ t.
        if equal_bytes t.data_text []
        then err Error.calldata_missing
        else decode_oracle_transaction_calls t.to t.data_text

  abbrev pub pair_with :
      DecodedOracleTransaction
      → List DecodedOracleExecution
      → List (DecodedOracleExecution × DecodedOracleTransaction)
  pair_with t [] = []
  pair_with t (e ∷ es) = (e, t) ∷ pair_with t es

  unfoldable pub candidates :
      List DecodedOracleTransaction → List (DecodedOracleExecution × DecodedOracleTransaction)
  candidates [] = []
  candidates (t ∷ ts) = pair_with t t.executions ++ candidates ts

  unfoldable pub with_key :
      Text
      → List (DecodedOracleExecution × DecodedOracleTransaction)
      → List (DecodedOracleExecution × DecodedOracleTransaction)
  with_key key [] = []
  with_key key (c ∷ cs) =
      let rest = with_key key cs in if equal_bytes c.0.idempotency_key key then c ∷ rest else rest

  unfoldable pub matching_execution :
      Text
      → List Text
      → List DecodedOracleTransaction
      → Result Error (DecodedOracleExecution × DecodedOracleTransaction)
  unfolding candidates with_key actions_equal
  matching_execution key actions transactions =
      and_then (non_empty Error.execution_missing (with_key key (candidates transactions))) λ found.
        or_throw Error.actions_mismatch (find? (λ c. actions_equal c.0.actions actions) found)

  -- `none` is a log of an execution that failed on the chain.
  unfoldable pub process_oracle_execution_log :
      Log → ℕ → Result Error (Option NormalizedOracleExecution)
  unfolding get_decoded_oracle_transaction matching_execution
  process_oracle_execution_log log timestamp = elim log.parsed [
    | none ↦ err Error.undecodable_log
    | some p ↦ elim p [
      | other_log ↦ err Error.undecodable_log
      | execution_failed key actions ↦ ok none
      | executed key actions ↦
          and_then (get_decoded_oracle_transaction log.transaction_hash) λ transactions.
            and_then
              (matching_execution (context.to_lower_case key) (map context.to_lower_case actions)
                transactions)
              λ found. ok (
                some (record {
                  tx_hash = log.transaction_hash;
                  block_number = log.block_number;
                  log_index = log.index;
                  timestamp = timestamp;
                  oracle_contract_address = context.to_lower_case context.oracle_contract_address;
                  idempotency_key = context.to_lower_case key;
                  actions = map context.to_lower_case actions;
                  submitted_oracle_address = found.1.submitted_oracle_address;
                  aggregated_signature = found.0.aggregated_signature;
                  execution_index = found.0.execution_index;
                  execution_count = length found.1.executions;
                  method = found.1.method;
                }))
    ]
  ]
