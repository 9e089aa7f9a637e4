-- ===== src/Ethereum/Policy.antt =====
-- `verifyTransactions` of derivation/vm/ethereum/EthereumVmWalletDeriver.ts, with its two kinds of
-- deposit. `parseTransaction` of viem is a parameter; the texts of the errors are left out.
pub mod Calls
pub mod Exact
use relay_settlement.Common.{
  ℕ, ◌+◌, ◌*◌, List, [], ◌∷◌, ◌++◌, Bool, not, Option, none, some, Result, ok, err, and_then,
  or_throw, require, length, take, drop, ◌==◌, equal_bytes, if◌then◌else◌,
}
use relay_settlement.Host.{natural_big_int, starts_with, Text, Host}
use relay_settlement.Ethereum.Address.{
  Error, encode_ethereum_address_to_hex, normalize_ethereum_address_hex,
}

-- The fields that are read of the trigger, of its attestation and of a transaction.
pub record EthereumTrigger : Type 0 where
  pub currency : Text
  pub amount : Text
  pub order_id : Text
  pub depositor : Text

pub record EthereumAttestation : Type 0 where
  pub input_depository : Text

pub record EthereumVmTransaction : Type 0 where
  pub unsigned_transaction : Text

pub record ParsedTransaction : Type 0 where
  pub to : Option Text
  pub value : Option ℕ
  pub calldata : Option Text

abbrev pub zero_address_hex : Text
zero_address_hex =
    b'0' ∷ b'x' ∷ b'0' ∷ b'0' ∷ b'0' ∷ b'0' ∷ b'0' ∷ b'0' ∷ b'0' ∷ b'0' ∷ b'0' ∷ b'0' ∷ b'0' ∷ b'0'
    ∷ b'0' ∷ b'0' ∷ b'0' ∷ b'0' ∷ b'0' ∷ b'0' ∷ b'0' ∷ b'0' ∷ b'0' ∷ b'0' ∷ b'0' ∷ b'0' ∷ b'0'
    ∷ b'0' ∷ b'0' ∷ b'0' ∷ b'0' ∷ b'0' ∷ b'0' ∷ b'0' ∷ b'0' ∷ b'0' ∷ b'0' ∷ b'0' ∷ b'0' ∷ b'0'
    ∷ b'0' ∷ b'0' ∷ []

abbrev pub deposit_native_selector : Text
deposit_native_selector = b'0' ∷ b'x' ∷ b'4' ∷ b'9' ∷ b'2' ∷ b'9' ∷ b'0' ∷ b'c' ∷ b'1' ∷ b'c' ∷ []

abbrev pub erc20_approve_selector : Text
erc20_approve_selector = b'0' ∷ b'x' ∷ b'0' ∷ b'9' ∷ b'5' ∷ b'e' ∷ b'a' ∷ b'7' ∷ b'b' ∷ b'3' ∷ []

abbrev pub deposit_erc20_selector : Text
deposit_erc20_selector = b'0' ∷ b'x' ∷ b'e' ∷ b'8' ∷ b'0' ∷ b'1' ∷ b'7' ∷ b'9' ∷ b'5' ∷ b'2' ∷ []

abbrev pub word_hex_len : ℕ
word_hex_len = 64

abbrev pub prefixed : Text → Text
prefixed t = b'0' ∷ b'x' ∷ t

unfoldable pub word_at : Text → ℕ → Text
word_at text index = take word_hex_len (drop (10 + index * word_hex_len) text)

-- `data ?? "0x"` and `value ?? 0n`.
abbrev pub data_of : ParsedTransaction → Text
data_of parsed = elim (parsed.calldata) [ none ↦ prefixed [] | some t ↦ t ]

abbrev pub value_of_transaction : ParsedTransaction → ℕ
value_of_transaction parsed = elim (parsed.value) [ none ↦ 0 | some v ↦ v ]

-- `parsed.to ? … : undefined`, where the empty text is none as well.
abbrev pub recipient : ParsedTransaction → Option Text
recipient parsed = elim (parsed.to) [
  | none ↦ none
  | some t ↦ elim t [ [] ↦ none | c ∷ cs ↦ some (c ∷ cs) ]
]

abbrev pub one_transaction : List EthereumVmTransaction → Result Error EthereumVmTransaction
one_transaction (t ∷ []) = ok t
one_transaction _ = err Error.transaction_count

abbrev pub two_transactions :
    List EthereumVmTransaction → Result Error (EthereumVmTransaction × EthereumVmTransaction)
two_transactions (s ∷ t ∷ []) = ok (s, t)
two_transactions _ = err Error.transaction_count

module _ (host : Host) (parse_transaction : Text → Option ParsedTransaction) where
  unfoldable pub decode_address_arg : Text → ℕ → Text
  unfolding word_at
  decode_address_arg text index = prefixed (host.to_lower_case (drop 24 (word_at text index)))

  unfoldable pub decode_uint256_arg : Text → ℕ → Result Error ℕ
  unfolding word_at
  decode_uint256_arg text index =
      or_throw Error.bad_big_int (natural_big_int host (prefixed (word_at text index)))

  unfoldable pub decode_bytes32_arg : Text → ℕ → Text
  unfolding word_at
  decode_bytes32_arg text index = prefixed (host.to_lower_case (word_at text index))

  abbrev pub parsed_of : EthereumVmTransaction → Result Error ParsedTransaction
  parsed_of t = or_throw Error.bad_transaction (parse_transaction t.unsigned_transaction)

  -- The recipient is the address of a text of the trigger or the attestation.
  unfoldable pub assert_to : ParsedTransaction → Text → Result Error (Unit {0})
  unfolding normalize_ethereum_address_hex encode_ethereum_address_to_hex
  assert_to parsed text = and_then (normalize_ethereum_address_hex host text) λ expected.
      and_then (or_throw Error.to_mismatch (recipient parsed)) λ to.
        and_then (encode_ethereum_address_to_hex host to)
          λ actual. require (equal_bytes (host.to_lower_case actual) expected) Error.to_mismatch

  unfoldable pub assert_calldata : Text → Text → ℕ → Result Error (Unit {0})
  unfolding starts_with
  assert_calldata text selector words =
      if not (starts_with selector (host.to_lower_case text))
      then err Error.call_mismatch
      else require (length text == 10 + words * word_hex_len) Error.calldata_length

  -- An argument that is an address.
  unfoldable pub assert_address : Text → ℕ → Text → Error → Result Error (Unit {0})
  unfolding decode_address_arg encode_ethereum_address_to_hex normalize_ethereum_address_hex
  assert_address text index expected_text mismatch =
      and_then (encode_ethereum_address_to_hex host (decode_address_arg text index)) λ actual.
        and_then (normalize_ethereum_address_hex host expected_text)
          λ expected. require (equal_bytes (host.to_lower_case actual) expected) mismatch

  unfoldable pub assert_order : Text → ℕ → EthereumTrigger → Result Error (Unit {0})
  unfolding decode_bytes32_arg
  assert_order text index trigger =
      require
        (equal_bytes (host.to_lower_case (decode_bytes32_arg text index))
          (host.to_lower_case trigger.order_id))
        Error.order_mismatch

  abbrev pub assert_value : ParsedTransaction → ℕ → Result Error (Unit {0})
  assert_value parsed expected =
      require (value_of_transaction parsed == expected) Error.value_mismatch

  abbrev pub amount_of : EthereumTrigger → Result Error ℕ
  amount_of trigger = or_throw Error.bad_big_int (natural_big_int host trigger.amount)

  unfoldable pub verify_native_deposit :
      EthereumTrigger → EthereumAttestation → List EthereumVmTransaction → Result Error (Unit {0})
  unfolding assert_to assert_calldata assert_address assert_order
  verify_native_deposit trigger attestation transactions =
      and_then (one_transaction transactions) λ t. and_then (parsed_of t) λ parsed.
        and_then (assert_to parsed attestation.input_depository) λ _.
          and_then (amount_of trigger) λ amount. and_then (assert_value parsed amount) λ _.
            and_then (assert_calldata (data_of parsed) deposit_native_selector 2) λ _.
              and_then
                (assert_address (data_of parsed) 0 trigger.depositor Error.depositor_mismatch)
                λ _. assert_order (data_of parsed) 1 trigger

  -- The first transaction of a token deposit.
  unfoldable pub verify_approve :
      EthereumTrigger → EthereumAttestation → ℕ → EthereumVmTransaction → Result Error (Unit {0})
  unfolding assert_to assert_calldata decode_uint256_arg assert_address
  verify_approve trigger attestation amount t = and_then (parsed_of t) λ parsed.
      and_then (assert_value parsed 0) λ _. and_then (assert_to parsed trigger.currency) λ _.
        and_then (assert_calldata (data_of parsed) erc20_approve_selector 2) λ _.
          and_then (decode_uint256_arg (data_of parsed) 1) λ value.
            and_then
              (assert_address (data_of parsed) 0 attestation.input_depository
                Error.spender_mismatch)
              λ _. require (value == amount) Error.amount_mismatch

  -- The second.
  unfoldable pub verify_deposit_erc20 :
      EthereumTrigger → EthereumAttestation → ℕ → EthereumVmTransaction → Result Error (Unit {0})
  unfolding assert_to assert_calldata decode_uint256_arg assert_address assert_order
  verify_deposit_erc20 trigger attestation amount t = and_then (parsed_of t) λ parsed.
      and_then (assert_value parsed 0) λ _.
        and_then (assert_to parsed attestation.input_depository) λ _.
          and_then (assert_calldata (data_of parsed) deposit_erc20_selector 4) λ _.
            and_then (decode_uint256_arg (data_of parsed) 2) λ value.
              and_then
                (assert_address (data_of parsed) 0 trigger.depositor Error.depositor_mismatch)
                λ _.
                  and_then (assert_address (data_of parsed) 1 trigger.currency Error.token_mismatch)
                    λ _.
                      and_then (require (value == amount) Error.amount_mismatch)
                        λ _. assert_order (data_of parsed) 3 trigger

  unfoldable pub verify_erc20_deposit :
      EthereumTrigger → EthereumAttestation → List EthereumVmTransaction → Result Error (Unit {0})
  unfolding verify_approve verify_deposit_erc20
  verify_erc20_deposit trigger attestation transactions =
      and_then (two_transactions transactions) λ (s, t). and_then (amount_of trigger) λ amount.
        and_then (verify_approve trigger attestation amount s)
          λ _. verify_deposit_erc20 trigger attestation amount t

  unfoldable pub verify_ethereum_transactions :
      EthereumTrigger → EthereumAttestation → List EthereumVmTransaction → Result Error (Unit {0})
  unfolding normalize_ethereum_address_hex verify_native_deposit verify_erc20_deposit
  verify_ethereum_transactions trigger attestation transactions =
      and_then (normalize_ethereum_address_hex host trigger.currency) λ currency.
        if equal_bytes currency zero_address_hex
        then verify_native_deposit trigger attestation transactions
        else verify_erc20_deposit trigger attestation transactions
