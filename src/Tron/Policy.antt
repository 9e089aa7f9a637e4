-- ===== src/Tron/Policy.antt =====
-- derivation/vm/tron/policy.ts: which batches of transactions the action signs. The arguments of a
-- call are encoded by viem; `now` is the time at which the transaction of an index is parsed. The
-- test that the fee limit is not negative is left out, as it is a number here.
pub mod Purposes
pub mod Accepted
pub mod Batches
pub mod Stages
pub mod Exact
use relay_settlement.Common.{
  ℕ, zero, suc, ◌+◌, ◌-◌, List, [], ◌∷◌, ◌++◌, Bool, true, false, not, ◌&&◌, Option, none, some,
  Result, ok, err, and_then, or_throw, require, length, map, drop, get_elem?, ltb, leb, ◌==◌,
  equal_bytes, if◌then◌else◌,
}
use relay_settlement.Host.{natural_big_int, decode_hex, Text, Host}
use relay_settlement.Tron.Values.{Error}
use relay_settlement.Tron.Transaction.{
  TriggerSmartContract, RawData, ParsedTronTransaction, TronWeb, decode_tron_raw_data,
}
use relay_settlement.Tron.Address.{decode_tron_address}

-- The fields that are read of the trigger, of its attestation and of a transaction.
pub record Trigger : Type 0 where
  pub currency : Text
  pub amount : Text
  pub order_id : Text
  pub depositor : Text

pub record Attestation : Type 0 where
  pub input_depository : Text

pub record TronVmTransaction : Type 0 where
  pub purpose : Text
  pub raw_data : Text

-- The host, TronWeb, `encodeFunctionData` of viem for the three functions, and the clock.
pub record Env : Type 0 where
  pub host : Host
  pub web : TronWeb
  pub deposit_native : Text → Text → Option Text
  pub deposit_erc20 : Text → Text → ℕ → Text → Option Text
  pub approve : Text → ℕ → Option Text
  pub now : ℕ → ℕ

abbrev pub tron_native_currency : Text
tron_native_currency =
    b'4' ∷ b'1' ∷ b'0' ∷ b'0' ∷ b'0' ∷ b'0' ∷ b'0' ∷ b'0' ∷ b'0' ∷ b'0' ∷ b'0' ∷ b'0' ∷ b'0' ∷ b'0'
    ∷ b'0' ∷ b'0' ∷ b'0' ∷ b'0' ∷ b'0' ∷ b'0' ∷ b'0' ∷ b'0' ∷ b'0' ∷ b'0' ∷ b'0' ∷ b'0' ∷ b'0'
    ∷ b'0' ∷ b'0' ∷ b'0' ∷ b'0' ∷ b'0' ∷ b'0' ∷ b'0' ∷ b'0' ∷ b'0' ∷ b'0' ∷ b'0' ∷ b'0' ∷ b'0'
    ∷ b'0' ∷ b'0' ∷ []

abbrev pub max_expiration_window_ms : ℕ
max_expiration_window_ms = 3600000

abbrev pub max_future_timestamp_ms : ℕ
max_future_timestamp_ms = 60000

abbrev pub max_fee_limit : ℕ
max_fee_limit = 1000000000

abbrev pub native_deposit : Text
native_deposit =
    b'n' ∷ b'a' ∷ b't' ∷ b'i' ∷ b'v' ∷ b'e' ∷ b'-' ∷ b'd' ∷ b'e' ∷ b'p' ∷ b'o' ∷ b's' ∷ b'i' ∷ b't'
    ∷ []

abbrev pub pre_approval : Text
pre_approval =
    b't' ∷ b'r' ∷ b'c' ∷ b'2' ∷ b'0' ∷ b'-' ∷ b'p' ∷ b'r' ∷ b'e' ∷ b'-' ∷ b'a' ∷ b'p' ∷ b'p' ∷ b'r'
    ∷ b'o' ∷ b'v' ∷ b'a' ∷ b'l' ∷ []

abbrev pub approval : Text
approval =
    b't' ∷ b'r' ∷ b'c' ∷ b'2' ∷ b'0' ∷ b'-' ∷ b'a' ∷ b'p' ∷ b'p' ∷ b'r' ∷ b'o' ∷ b'v' ∷ b'a' ∷ b'l'
    ∷ []

abbrev pub deposit : Text
deposit =
    b't' ∷ b'r' ∷ b'c' ∷ b'2' ∷ b'0' ∷ b'-' ∷ b'd' ∷ b'e' ∷ b'p' ∷ b'o' ∷ b's' ∷ b'i' ∷ b't' ∷ []

-- `texts.join(",")`.
unfoldable pub join : List Text → Text
join [] = []
join (x ∷ []) = x
join (x ∷ y ∷ rest) = x ++ (b',' ∷ join (y ∷ rest))

abbrev pub direct : Text
direct = approval ++ (b',' ∷ deposit)

abbrev pub reset : Text
reset = pre_approval ++ (b',' ∷ (approval ++ (b',' ∷ deposit)))

-- `0x${value.slice(2)}`.
abbrev pub protocol_hex_to_abi_address : Text → Text
protocol_hex_to_abi_address t = b'0' ∷ b'x' ∷ drop 2 t

unfoldable pub assert_fresh : RawData → ℕ → Result Error (Unit {0})
assert_fresh raw now =
    if leb raw.expiration now
    then err Error.expired
    else if ltb (now + max_future_timestamp_ms) raw.timestamp
    then err Error.future_timestamp
    else if leb raw.expiration raw.timestamp
    then err Error.expiration_order
    else if ltb max_expiration_window_ms (raw.expiration - raw.timestamp)
    then err Error.expiration_window
    else if ltb max_fee_limit raw.fee_limit
    then err Error.fee_limit
    else ok tt

-- A parsed transaction is always a TriggerSmartContract.
abbrev pub trigger_contract : ParsedTronTransaction → TriggerSmartContract
trigger_contract parsed = parsed.raw_data.contract

-- `transactions[index]`; a missing one throws where its fields are read.
abbrev pub transaction_at : List TronVmTransaction → ℕ → Result Error TronVmTransaction
transaction_at transactions index = or_throw Error.no_transaction (get_elem? transactions index)

-- The tests of a contract that is called: the address, the value and the encoded arguments.
unfoldable pub assert_call :
    TriggerSmartContract
    → Text
    → Error
    → Result Error ℕ
    → Error
    → Result Error Text
    → Result Error (Unit {0})
assert_call contract address wrong_address amount wrong_amount expected =
    if not (equal_bytes contract.contract_address address)
    then err wrong_address
    else and_then amount λ n.
      if not (contract.call_value == n)
      then err wrong_amount
      else and_then expected
          λ encoded. require (equal_bytes contract.input_data (drop 2 encoded)) Error.data_mismatch

-- The one transaction of a batch of native currency.
abbrev pub only_native : List TronVmTransaction → Result Error TronVmTransaction
only_native (t ∷ []) = if equal_bytes t.purpose native_deposit then ok t else err Error.native_batch
only_native _ = err Error.native_batch

module _ (env : Env) where
  unfoldable pub address_hex : Text → Result Error Text
  unfolding decode_hex decode_tron_address
  address_hex t = and_then (or_throw Error.not_hex_bytes (decode_hex env.host t)) λ bytes.
      and_then (decode_tron_address env.host bytes) λ _. ok (env.host.noble_bytes_to_hex bytes)

  unfoldable pub abi_address : Text → Result Error Text
  unfolding address_hex
  abi_address t = and_then (address_hex t) λ a. ok (protocol_hex_to_abi_address a)

  unfoldable pub bytes32_hex : Text → Result Error Text
  unfolding decode_hex
  bytes32_hex t = and_then (or_throw Error.not_hex_bytes (decode_hex env.host t)) λ bytes.
      if not (length bytes == 32)
      then err Error.not_bytes32
      else ok (b'0' ∷ b'x' ∷ env.host.noble_bytes_to_hex bytes)

  unfoldable pub parse_authorized_transaction :
      TronVmTransaction → ℕ → Result Error ParsedTronTransaction
  unfolding decode_tron_raw_data assert_fresh
  parse_authorized_transaction transaction index =
      and_then (decode_tron_raw_data env.host env.web transaction.raw_data)
        λ parsed. and_then (assert_fresh parsed.raw_data (env.now index)) λ _. ok parsed

  unfoldable pub native_data : Trigger → Result Error Text
  unfolding abi_address bytes32_hex
  native_data trigger = and_then (abi_address trigger.depositor) λ depositor.
      and_then (bytes32_hex trigger.order_id)
        λ id. or_throw Error.bad_arguments (env.deposit_native depositor id)

  unfoldable pub assert_native_deposit :
      Trigger → Attestation → List TronVmTransaction → Result Error (Unit {0})
  unfolding parse_authorized_transaction address_hex assert_call native_data
  assert_native_deposit trigger attestation transactions = and_then (only_native transactions) λ t.
      and_then (parse_authorized_transaction t 0) λ parsed.
        and_then (address_hex attestation.input_depository) λ depository.
          assert_call (trigger_contract parsed) depository Error.depository_mismatch
            (or_throw Error.bad_amount (natural_big_int env.host trigger.amount))
            Error.amount_mismatch (native_data trigger)

  unfoldable pub assert_approval :
      List TronVmTransaction → ℕ → Text → Text → ℕ → Result Error (Unit {0})
  unfolding parse_authorized_transaction assert_call
  assert_approval transactions index token depository amount =
      and_then (transaction_at transactions index) λ t.
        and_then (parse_authorized_transaction t index) λ parsed.
          assert_call (trigger_contract parsed) token Error.token_mismatch (ok 0) Error.call_value (
            or_throw Error.bad_arguments
              (env.approve (protocol_hex_to_abi_address depository) amount))

  unfoldable pub erc20_data : Trigger → Text → ℕ → Result Error Text
  unfolding abi_address bytes32_hex
  erc20_data trigger token amount = and_then (abi_address trigger.depositor) λ depositor.
      and_then (bytes32_hex trigger.order_id) λ id.
        or_throw Error.bad_arguments
          (env.deposit_erc20 depositor (protocol_hex_to_abi_address token) amount id)

  -- The deposit behind the approvals, at its index.
  unfoldable pub assert_trc20_call :
      Trigger → List TronVmTransaction → ℕ → Text → Text → ℕ → Result Error (Unit {0})
  unfolding parse_authorized_transaction assert_call erc20_data
  assert_trc20_call trigger transactions index token depository amount =
      and_then (transaction_at transactions index) λ t.
        and_then (parse_authorized_transaction t index) λ parsed.
          assert_call (trigger_contract parsed) depository Error.depository_mismatch (ok 0)
            Error.call_value (erc20_data trigger token amount)

  -- The approvals, and the index of the deposit.
  unfoldable pub assert_approvals : Bool → List TronVmTransaction → Text → Text → ℕ → Result Error ℕ
  unfolding assert_approval
  assert_approvals true transactions token depository amount =
      and_then (assert_approval transactions 0 token depository 0)
        λ _. and_then (assert_approval transactions 1 token depository amount) λ _. ok 2
  assert_approvals false transactions token depository amount =
      and_then (assert_approval transactions 0 token depository amount) λ _. ok 1

  unfoldable pub assert_trc20_deposit :
      Trigger → Attestation → List TronVmTransaction → Result Error (Unit {0})
  unfolding address_hex assert_approvals assert_trc20_call join
  assert_trc20_deposit trigger attestation transactions =
      let purposes = join (map (λ t. t.purpose) transactions) in
      if not (equal_bytes purposes direct) && not (equal_bytes purposes reset)
      then err Error.purposes
      else and_then (address_hex trigger.currency) λ token.
        and_then (address_hex attestation.input_depository) λ depository.
          and_then (or_throw Error.bad_amount (natural_big_int env.host trigger.amount)) λ amount.
            and_then
              (assert_approvals (equal_bytes purposes reset) transactions token depository amount)
              λ index. assert_trc20_call trigger transactions index token depository amount

  unfoldable pub assert_tron_transactions :
      Trigger → Attestation → List TronVmTransaction → Result Error (Unit {0})
  unfolding address_hex assert_native_deposit assert_trc20_deposit
  assert_tron_transactions trigger attestation transactions =
      and_then (address_hex trigger.currency) λ currency.
        if equal_bytes currency tron_native_currency
        then assert_native_deposit trigger attestation transactions
        else assert_trc20_deposit trigger attestation transactions
