-- ===== src/Bitcoin/Policy.antt =====
-- `assertBitcoinDepositTransaction` of transaction.ts: what an unsigned deposit must look like
-- before the action signs it. The error messages are constructors of `Error`.
pub mod Accepted
pub mod Amounts
use relay_settlement.Common.{
  ℕ, zero, suc, ◌+◌, ◌≡◌, List, [], ◌∷◌, ◌++◌, Bool, true, false, not, ◌&&◌, ◌||◌, Option, none,
  some, Result, ok, err, and_then, require, length, map, any, find?, ◌==◌, equal_bytes,
  if◌then◌else◌,
}
use relay_settlement.Host.{natural_big_int, Text, Host, starts_with}
use relay_settlement.Bitcoin.Reader.{Error}
use relay_settlement.Bitcoin.Tx.{TxInput, TxOutput, ParsedTx, parse_tx}
use relay_settlement.Bitcoin.Scripts.{address_scripts, op_return, find_depositor}
use relay_settlement.Bitcoin.Address.{
  or_throw, encode_bitcoin_address_to_hex, normalize_bitcoin_address_hex,
}

-- The fields that are read of `DepositAddressTrigger`, of its attestation and of the transaction.
pub record Trigger : Type 0 where
  pub currency : Text
  pub amount : Text
  pub order_id : Text
  pub refund_recipient : Text
  pub depositor : Text

pub record Attestation : Type 0 where
  pub input_depository : Text

pub record BitcoinVmTransaction : Type 0 where
  pub unsigned_transaction : Text
  pub sighashes : List Text
  pub input_values : List Text

abbrev pub btc_native_address : Text
btc_native_address =
    b'b' ∷ b'c' ∷ b'1' ∷ b'q' ∷ b'q' ∷ b'q' ∷ b'q' ∷ b'q' ∷ b'q' ∷ b'q' ∷ b'q' ∷ b'q' ∷ b'q' ∷ b'q'
    ∷ b'q' ∷ b'q' ∷ b'q' ∷ b'q' ∷ b'q' ∷ b'q' ∷ b'q' ∷ b'q' ∷ b'q' ∷ b'q' ∷ b'q' ∷ b'q' ∷ b'q'
    ∷ b'q' ∷ b'q' ∷ b'q' ∷ b'q' ∷ b'q' ∷ b'q' ∷ b'q' ∷ b'q' ∷ b'q' ∷ b'm' ∷ b'q' ∷ b'l' ∷ b'8'
    ∷ b'k' ∷ b'8' ∷ []

unfoldable pub btc_native : Host → Result Error Text
btc_native host =
    and_then (encode_bitcoin_address_to_hex host btc_native_address)
      λ hex. ok (host.to_lower_case hex)

unfoldable pub assert_counts : ParsedTx → BitcoinVmTransaction → Result Error (Unit {0})
assert_counts tx given =
    if not (length given.sighashes == length tx.inputs)
    then err Error.sighash_count
    else if not (length given.input_values == length tx.inputs)
    then err Error.input_value_count
    else ok tt

-- `scripts.some((s) => equal(s, script))`.
unfoldable pub pays_any : List (List ℕ) → TxOutput → Bool
pays_any scripts o = any (λ s. equal_bytes s o.script) scripts

unfoldable pub amount_to : List (List ℕ) → List TxOutput → ℕ
unfolding pays_any
amount_to scripts [] = 0
amount_to scripts (o ∷ os) = (if pays_any scripts o then o.value else 0) + amount_to scripts os

abbrev pub is_some {ℓ} : {A : Type ℓ} → Option A → Bool
is_some none = false
is_some (some a) = true

-- An output that neither pays the depository, nor is an OP_RETURN, nor pays the refund.
unfoldable pub is_invalid_change : Host → List (List ℕ) → List (List ℕ) → TxOutput → Bool
unfolding pays_any op_return
is_invalid_change host scripts refunds o =
    not (pays_any scripts o)
    && (not (is_some (op_return host o.script)) && not (pays_any refunds o))

-- The text of the first OP_RETURN output that starts with the order's id.
unfoldable pub metadata_of : Host → Text → List TxOutput → Option Text
unfolding op_return starts_with
metadata_of host order_id [] = none
metadata_of host order_id (o ∷ os) =
    let rest = metadata_of host order_id os in
    elim (op_return host o.script) [
      | none ↦ rest
      | some text ↦ if starts_with order_id text then some text else rest
    ]

-- An empty text is false.
abbrev pub truthy : Option Text → Option Text
truthy none = none
truthy (some []) = none
truthy (some (c ∷ cs)) = some (c ∷ cs)

unfoldable pub assert_metadata : Host → Trigger → List TxOutput → Result Error (Unit {0})
unfolding metadata_of find_depositor encode_bitcoin_address_to_hex
assert_metadata host trigger outputs =
    and_then (or_throw Error.no_metadata (truthy (metadata_of host trigger.order_id outputs)))
      λ metadata. and_then (or_throw Error.no_depositor (find_depositor metadata)) λ depositor.
        and_then (encode_bitcoin_address_to_hex host depositor) λ encoded.
          require (equal_bytes (host.to_lower_case encoded) (host.to_lower_case trigger.depositor))
            Error.depositor_mismatch

unfoldable pub assert_outputs :
    Host → Trigger → List (List ℕ) → List (List ℕ) → ℕ → List TxOutput → Result Error (Unit {0})
unfolding amount_to is_invalid_change assert_metadata
assert_outputs host trigger scripts refunds expected outputs =
    if not (amount_to scripts outputs == expected)
    then err Error.amount_mismatch
    else if is_some (find? (is_invalid_change host scripts refunds) outputs)
    then err Error.invalid_change
    else assert_metadata host trigger outputs

unfoldable pub assert_bitcoin_deposit_transaction :
    Host → Trigger → Attestation → BitcoinVmTransaction → Result Error (Unit {0})
unfolding btc_native normalize_bitcoin_address_hex assert_counts address_scripts assert_outputs
assert_bitcoin_deposit_transaction host trigger attestation given =
    and_then (btc_native host) λ native.
      and_then (normalize_bitcoin_address_hex host trigger.currency) λ currency.
        and_then (require (equal_bytes currency native) Error.only_native_btc) λ _.
          and_then (parse_tx host.noble_hex_to_bytes given.unsigned_transaction) λ tx.
            and_then (assert_counts tx given) λ _.
              and_then (or_throw Error.bad_big_int (natural_big_int host trigger.amount))
                λ expected. and_then (address_scripts host attestation.input_depository) λ scripts.
                  and_then (address_scripts host trigger.refund_recipient)
                    λ refunds. assert_outputs host trigger scripts refunds expected tx.outputs
