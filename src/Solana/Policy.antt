-- ===== src/Solana/Policy.antt =====
-- `verifyTransactions` with `verifyDepositNative`, `verifyDepositToken` and the helpers behind the
-- parser: which message the action signs. The decoding of base64 is a parameter.
pub mod Carries
pub mod Accepted
use relay_settlement.Common.{
  ℕ, ◌-◌, List, [], ◌∷◌, Bool, true, false, not, ◌||◌, Option, Result, ok, err, and_then, or_throw,
  some, none, require, length, take, drop, get_elem?, ltb, ◌==◌, equal_bytes, if◌then◌else◌,
}
use relay_settlement.Host.{natural_big_int, decode_hex, Text, Host}
use relay_settlement.Bytes.{bytes_to_number_le}
use relay_settlement.Solana.Reader.{Error}
use relay_settlement.Solana.Message.{Instruction, Message, pubkey_len, parse_message}

-- The fields that are read of the trigger, of its attestation and of a transaction.
pub record SolanaTrigger : Type 0 where
  pub currency : Text
  pub amount : Text
  pub order_id : Text
  pub depositor : Text

pub record SolanaAttestation : Type 0 where
  pub input_depository : Text

pub record SolanaVmTransaction : Type 0 where
  pub message : Text

abbrev pub deposit_native_discriminator : List ℕ
deposit_native_discriminator = 0x0d ∷ 0x9e ∷ 0x0d ∷ 0xdf ∷ 0x5f ∷ 0xd5 ∷ 0x1c ∷ 0x06 ∷ []

abbrev pub deposit_token_discriminator : List ℕ
deposit_token_discriminator = 0x0b ∷ 0x9c ∷ 0x60 ∷ 0xda ∷ 0x27 ∷ 0xa3 ∷ 0xb4 ∷ 0x13 ∷ []

abbrev pub anchor_sender_index : ℕ
anchor_sender_index = 1

abbrev pub account_depositor_index : ℕ
account_depositor_index = 2

abbrev pub native_account_count : ℕ
native_account_count = 5

abbrev pub token_account_mint_index : ℕ
token_account_mint_index = 4

abbrev pub token_account_count : ℕ
token_account_count = 10

abbrev pub max_required_signatures : ℕ
max_required_signatures = 2

abbrev pub deposit_args_len : ℕ
deposit_args_len = 48

unfoldable pub resolve_static_key : Message → ℕ → Result Error (List ℕ)
resolve_static_key message index =
    or_throw Error.outside_static_keys (get_elem? message.static_account_keys index)

unfoldable pub is_zero_bytes : List ℕ → Bool
is_zero_bytes [] = true
is_zero_bytes (b ∷ bytes) = if not (b == 0) then false else is_zero_bytes bytes

-- The tests that both deposits begin with.
unfoldable pub assert_shape : Instruction → List ℕ → ℕ → Result Error (Unit {0})
assert_shape ix discriminator count =
    if not (length ix.args == deposit_args_len)
    then err Error.args_length
    else if not (equal_bytes (take 8 ix.args) discriminator)
    then err Error.discriminator
    else require (length ix.account_indexes == count) Error.account_count

-- The account in a slot of the instruction is the key that is expected.
unfoldable pub assert_key : Message → Instruction → ℕ → List ℕ → Error → Result Error (Unit {0})
unfolding resolve_static_key
assert_key message ix slot expected mismatch =
    and_then (or_throw Error.account_count (get_elem? ix.account_indexes slot)) λ index.
      and_then (resolve_static_key message index) λ key. require (equal_bytes key expected) mismatch

-- The amount and the id, with which both deposits end.
unfoldable pub assert_args : Instruction → ℕ → List ℕ → Result Error (Unit {0})
unfolding bytes_to_number_le
assert_args ix expected_amount expected_order_id =
    if not (bytes_to_number_le (take 8 (drop 8 ix.args)) == expected_amount)
    then err Error.amount_mismatch
    else require (equal_bytes (take 32 (drop 16 ix.args)) expected_order_id) Error.id_mismatch

unfoldable pub verify_deposit_native :
    Message → Instruction → List ℕ → ℕ → List ℕ → Result Error (Unit {0})
unfolding assert_shape assert_key assert_args
verify_deposit_native message ix depositor amount order_id =
    and_then (assert_shape ix deposit_native_discriminator native_account_count) λ _.
      and_then (assert_key message ix account_depositor_index depositor Error.depositor_mismatch)
        λ _. assert_args ix amount order_id

unfoldable pub verify_deposit_token :
    Message → Instruction → List ℕ → ℕ → List ℕ → List ℕ → Result Error (Unit {0})
unfolding assert_shape assert_key assert_args
verify_deposit_token message ix depositor amount order_id mint =
    and_then (assert_shape ix deposit_token_discriminator token_account_count) λ _.
      and_then (assert_key message ix account_depositor_index depositor Error.depositor_mismatch)
        λ _.
          and_then (assert_key message ix token_account_mint_index mint Error.mint_mismatch)
            λ _. assert_args ix amount order_id

abbrev pub only_transaction : List SolanaVmTransaction → Result Error SolanaVmTransaction
only_transaction (t ∷ []) = ok t
only_transaction _ = err Error.transaction_count

abbrev pub only_instruction : List Instruction → Result Error Instruction
only_instruction (i ∷ []) = ok i
only_instruction _ = err Error.instruction_count

unfoldable pub assert_signers : Message → Result Error (Unit {0})
assert_signers message =
    if ltb message.num_required_signatures 1
      || ltb max_required_signatures message.num_required_signatures
    then err Error.signer_count
    else ok tt

-- `accountIndexes[1]` of a shorter list is no index, and so not the one expected.
abbrev pub is_slot : Option ℕ → ℕ → Bool
is_slot (some i) expected = i == expected
is_slot none expected = false

unfoldable pub assert_sender : Message → Instruction → Result Error (Unit {0})
assert_sender message ix =
    require
      (is_slot (get_elem? ix.account_indexes anchor_sender_index)
        (message.num_required_signatures - 1))
      Error.sender_slot

module _ (host : Host) (base64_to_bytes : Text → Option (List ℕ)) where
  unfoldable pub hex32_bytes : Text → Result Error (List ℕ)
  unfolding decode_hex
  hex32_bytes hex =
      and_then (or_throw Error.not_hex (decode_hex host hex))
        λ bytes. if not (length bytes == pubkey_len) then err Error.not_32_bytes else ok bytes

  -- The program, and then the deposit by the currency.
  unfoldable pub verify_instruction :
      SolanaTrigger → SolanaAttestation → Message → Instruction → Result Error (Unit {0})
  unfolding hex32_bytes resolve_static_key is_zero_bytes verify_deposit_native verify_deposit_token
  verify_instruction trigger attestation message ix =
      and_then (hex32_bytes attestation.input_depository) λ expected_program.
        and_then (resolve_static_key message ix.program_id_index) λ program_key.
          if not (equal_bytes program_key expected_program)
          then err Error.program_mismatch
          else and_then (hex32_bytes trigger.depositor) λ depositor.
            and_then (or_throw Error.bad_big_int (natural_big_int host trigger.amount)) λ amount.
              and_then (hex32_bytes trigger.order_id) λ order_id.
                and_then (hex32_bytes trigger.currency) λ currency.
                  if is_zero_bytes currency
                  then verify_deposit_native message ix depositor amount order_id
                  else verify_deposit_token message ix depositor amount order_id currency

  unfoldable pub verify_transactions :
      SolanaTrigger → SolanaAttestation → List SolanaVmTransaction → Result Error (Unit {0})
  unfolding parse_message assert_signers assert_sender verify_instruction
  verify_transactions trigger attestation transactions =
      and_then (only_transaction transactions) λ t.
        and_then (or_throw Error.bad_base64 (base64_to_bytes t.message)) λ bytes.
          and_then (parse_message bytes) λ message. and_then (assert_signers message) λ _.
            and_then (only_instruction message.instructions) λ ix.
              and_then (assert_sender message ix)
                λ _. verify_instruction trigger attestation message ix
