-- ===== src/Ethereum/Address.antt =====
-- common/address/ethereum.ts: the codec of addresses of 20 bytes.
pub mod Names
use relay_settlement.Common.{
  ℕ, List, [], ◌∷◌, ◌++◌, Bool, not, Result, ok, err, and_then, or_throw, length, ◌==◌,
  if◌then◌else◌,
}
use relay_settlement.Host.{decode_hex, Text, Host}

pub data Error : Type 0 where
  not_hex not_20_bytes bad_transaction transaction_count to_mismatch value_mismatch call_mismatch
        calldata_length bad_big_int depositor_mismatch token_mismatch spender_mismatch
        amount_mismatch order_mismatch :
      Error

abbrev pub hex_of : Host → List ℕ → Text
hex_of host bytes = b'0' ∷ b'x' ∷ host.noble_bytes_to_hex bytes

module _ (host : Host) where
  unfoldable pub encode_ethereum_address : Text → Result Error (List ℕ)
  unfolding decode_hex
  encode_ethereum_address address =
      and_then (or_throw Error.not_hex (decode_hex host address))
        λ encoded. if not (length encoded == 20) then err Error.not_20_bytes else ok encoded

  unfoldable pub decode_ethereum_address : List ℕ → Result Error Text
  decode_ethereum_address encoded =
      if not (length encoded == 20) then err Error.not_20_bytes else ok (hex_of host encoded)

  unfoldable pub encode_ethereum_address_to_hex : Text → Result Error Text
  unfolding encode_ethereum_address
  encode_ethereum_address_to_hex address =
      and_then (encode_ethereum_address address) λ encoded. ok (hex_of host encoded)

  unfoldable pub normalize_ethereum_address_hex : Text → Result Error Text
  unfolding decode_hex decode_ethereum_address encode_ethereum_address_to_hex
  normalize_ethereum_address_hex encoded_hex =
      and_then (or_throw Error.not_hex (decode_hex host encoded_hex)) λ encoded.
        and_then (decode_ethereum_address encoded) λ address.
          and_then (encode_ethereum_address_to_hex address) λ hex. ok (host.to_lower_case hex)
