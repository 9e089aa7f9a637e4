-- ===== src/Tron/Transaction.antt =====
-- `decodeTronRawData`, `tronTransactionHash` and `encodeSignedTronTransaction` of
-- common/tron/transaction.ts. The fields of the TronWeb JSON that are constants of the source
-- (the type, a permission id of zero, empty memo, scripts and auths) are left out of `RawData`.
pub mod Canonical
use relay_settlement.Common.{
  ℕ, zero, suc, List, [], ◌∷◌, Bool, true, false, not, ◌&&◌, ◌||◌, Option, none, some, Result, ok,
  err, and_then, or_throw, require, length, ◌==◌, equal_bytes, if◌then◌else◌,
}
use relay_settlement.Host.{decode_hex, Text, Host}
use relay_settlement.Bitcoin.Tx.{}
use relay_settlement.Tron.Values.{
  Error, Value, undefined, null, other, boolean, whole, other_number, array, object, Values,
  no_values, value, Fields, member, as_record, string_field, integer_field, hex_field, fixed_hex,
}
use relay_settlement.Tron.Names.{
  contract_key, type_key, permission_key, parameter_key, type_url_key, value_key,
  call_token_value_key, token_id_key, data_key, scripts_key, auths_key, timestamp_key,
  expiration_key, owner_address_key, contract_address_key, call_value_key, fee_limit_key,
  ref_block_bytes_key, ref_block_hash_key,
}

pub record TriggerSmartContract : Type 0 where
  pub owner_address : Text
  pub contract_address : Text
  pub call_value : ℕ
  pub input_data : Text

pub record RawData : Type 0 where
  pub contract : TriggerSmartContract
  pub fee_limit : ℕ
  pub ref_block_bytes : Text
  pub ref_block_hash : Text
  pub expiration : ℕ
  pub timestamp : ℕ

-- `ParsedTronTransaction`: the same fields as bigints, and the bytes.
pub record ParsedTronTransaction : Type 0 where
  pub raw_data : RawData
  pub raw_data_bytes : List ℕ

-- What is taken from TronWeb: decoding, the bytes of the raw data, and the bytes of the transaction
-- with a signature. `number` is `Number` of a bigint.
pub record TronWeb : Type 0 where
  pub deserialize_transaction : Text → Option Value
  pub serialize_raw : RawData → Option (List ℕ)
  pub serialize_signed : RawData → List ℕ → Option (List ℕ)
  pub number : ℕ → ℕ

abbrev pub one_of : Value → Result Error Value
one_of (array (value v no_values)) = ok v
one_of _ = err Error.contract_count

abbrev pub require_empty : Value → Result Error (Unit {0})
require_empty (array no_values) = ok tt
require_empty _ = err Error.auths

abbrev pub trigger_name : Text
trigger_name =
    b'T' ∷ b'r' ∷ b'i' ∷ b'g' ∷ b'g' ∷ b'e' ∷ b'r' ∷ b'S' ∷ b'm' ∷ b'a' ∷ b'r' ∷ b't' ∷ b'C' ∷ b'o'
    ∷ b'n' ∷ b't' ∷ b'r' ∷ b'a' ∷ b'c' ∷ b't' ∷ []

abbrev pub type_url_prefix : Text → Text
type_url_prefix rest =
    b't' ∷ b'y' ∷ b'p' ∷ b'e' ∷ b'.' ∷ b'g' ∷ b'o' ∷ b'o' ∷ b'g' ∷ b'l' ∷ b'e' ∷ b'a' ∷ b'p' ∷ b'i'
    ∷ b's' ∷ b'.' ∷ b'c' ∷ b'o' ∷ b'm' ∷ b'/' ∷ b'p' ∷ b'r' ∷ b'o' ∷ b't' ∷ b'o' ∷ b'c' ∷ b'o'
    ∷ b'l' ∷ b'.' ∷ rest

abbrev pub is_text : Text → Value → Bool
is_text t (Value.text u) = equal_bytes t u
is_text t _ = false

-- `TriggerSmartContract` of the contract: the type, the permission, the type URL and the token
-- fields are checked on the way.
unfoldable pub trigger_of : Fields → Result Error Fields
unfolding member as_record string_field integer_field
trigger_of contract =
    and_then (require (is_text trigger_name (member type_key contract)) Error.contract_type) λ _.
      and_then (integer_field (member permission_key contract)) λ permission.
        and_then (require (permission == 0) Error.permission_id) λ _.
          and_then (as_record (member parameter_key contract)) λ parameter.
            and_then (string_field (member type_url_key parameter)) λ url.
              and_then (require (equal_bytes url (type_url_prefix trigger_name)) Error.type_url)
                λ _. and_then (as_record (member value_key parameter)) λ trigger.
                  and_then (integer_field (member call_token_value_key trigger)) λ token_value.
                    and_then (integer_field (member token_id_key trigger)) λ token_id.
                      and_then (require ((token_value == 0) && (token_id == 0)) Error.token_fields)
                        λ _. ok trigger

-- The memo, the scripts, the auths and the two times of the raw data.
unfoldable pub times_of : Fields → Result Error (ℕ × ℕ)
unfolding member string_field integer_field
times_of raw = and_then (string_field (member data_key raw)) λ memo.
    and_then (string_field (member scripts_key raw)) λ scripts.
      and_then (require (equal_bytes memo [] && equal_bytes scripts []) Error.memo_or_scripts) λ _.
        and_then (require_empty (member auths_key raw)) λ _.
          and_then (integer_field (member timestamp_key raw)) λ timestamp.
            and_then (integer_field (member expiration_key raw)) λ expiration.
              and_then (require (not (timestamp == 0) && not (expiration == 0)) Error.missing_times)
                λ _. ok (timestamp, expiration)

unfoldable pub contract_of : Host → Fields → Result Error TriggerSmartContract
unfolding member integer_field hex_field fixed_hex
contract_of host trigger =
    and_then (fixed_hex host.to_lower_case (member owner_address_key trigger) 21) λ owner.
      and_then (fixed_hex host.to_lower_case (member contract_address_key trigger) 21) λ address.
        and_then (integer_field (member call_value_key trigger)) λ amount.
          and_then (hex_field host.to_lower_case (member data_key trigger)) λ input_data.
            ok (record {
              owner_address = owner;
              contract_address = address;
              call_value = amount;
              input_data = input_data;
            })

unfoldable pub tron_web_raw_data : Host → Value → Result Error RawData
unfolding as_record member trigger_of times_of contract_of integer_field fixed_hex
tron_web_raw_data host v = and_then (as_record v) λ raw.
    and_then (one_of (member contract_key raw)) λ only. and_then (as_record only) λ contract.
      and_then (trigger_of contract) λ trigger. and_then (times_of raw) λ times.
        and_then (contract_of host trigger) λ called.
          and_then (integer_field (member fee_limit_key raw)) λ fee.
            and_then (fixed_hex host.to_lower_case (member ref_block_bytes_key raw) 2) λ block.
              and_then (fixed_hex host.to_lower_case (member ref_block_hash_key raw) 8) λ hash.
                ok (record {
                  contract = called;
                  fee_limit = fee;
                  ref_block_bytes = block;
                  ref_block_hash = hash;
                  expiration = times.1;
                  timestamp = times.0;
                })

unfoldable pub decode_tron_raw_data : Host → TronWeb → Text → Result Error ParsedTronTransaction
unfolding decode_hex tron_web_raw_data
decode_tron_raw_data host web encoded =
    and_then (or_throw Error.not_hex_bytes (decode_hex host encoded)) λ bytes.
      and_then
        (or_throw Error.bad_decode (web.deserialize_transaction (host.noble_bytes_to_hex bytes)))
        λ decoded. and_then (tron_web_raw_data host decoded) λ raw.
          and_then (or_throw Error.bad_encode (web.serialize_raw raw)) λ reencoded.
            if not (equal_bytes bytes reencoded)
            then err Error.not_canonical
            else ok (record { raw_data = raw; raw_data_bytes = bytes })

-- Back to the JSON of TronWeb, where the bigints become numbers.
unfoldable pub parsed_raw_data : TronWeb → RawData → RawData
parsed_raw_data web raw = record {
  contract = record {
    owner_address = raw.contract.owner_address;
    contract_address = raw.contract.contract_address;
    call_value = web.number raw.contract.call_value;
    input_data = raw.contract.input_data;
  };
  fee_limit = web.number raw.fee_limit;
  ref_block_bytes = raw.ref_block_bytes;
  ref_block_hash = raw.ref_block_hash;
  expiration = web.number raw.expiration;
  timestamp = web.number raw.timestamp;
}

unfoldable pub tron_transaction_hash : Host → TronWeb → Text → Result Error Text
unfolding decode_tron_raw_data
tron_transaction_hash host web encoded =
    and_then (decode_tron_raw_data host web encoded)
      λ parsed. ok (host.noble_bytes_to_hex (host.sha256 parsed.raw_data_bytes))

abbrev pub with_0x : Text → Text
with_0x t = b'0' ∷ b'x' ∷ t

unfoldable pub encode_signed_tron_transaction :
    Host → TronWeb → ParsedTronTransaction → List ℕ → Result Error Text
unfolding parsed_raw_data
encode_signed_tron_transaction host web parsed signature =
    if not (length signature == 65)
    then err Error.signature_length
    else and_then
        (or_throw Error.bad_encode (web.serialize_raw (parsed_raw_data web parsed.raw_data)))
        λ reencoded.
          if not (equal_bytes parsed.raw_data_bytes reencoded)
          then err Error.changed
          else and_then
              (or_throw Error.bad_encode
                (web.serialize_signed (parsed_raw_data web parsed.raw_data) signature))
              λ bytes. ok (with_0x (host.noble_bytes_to_hex bytes))
