-- ===== src/Tron/Wallet.antt =====
-- `tronAddressFromPublicKey` of common/address/tron.ts and `signTransactionWithKey` of
-- derivation/vm/tron/TronVmWalletDeriver.ts.
pub mod Signed
use relay_settlement.Common.{
  ℕ, zero, suc, ◌*◌, List, [], ◌∷◌, ◌++◌, Bool, true, false, not, Option, none, some, Result, ok,
  err, and_then, or_throw, length, take, drop, get_or, ltb, equal_bytes, if◌then◌else◌,
}
use relay_settlement.Host.{decode_hex, Text, Host}
use relay_settlement.Tron.Values.{Error}
use relay_settlement.Tron.Transaction.{
  TronWeb, ParsedTronTransaction, decode_tron_raw_data, encode_signed_tron_transaction,
}
use relay_settlement.Tron.Address.{encode_tron_address, decode_tron_address}

-- @noble/curves and keccak256: the uncompressed point of a public key, the public key of a private
-- key, and the signature of a digest, which is the recovery byte and 64 bytes.
pub record Curve : Type 0 where
  pub uncompressed : Text → Option (List ℕ)
  pub keccak256 : List ℕ → List ℕ
  pub get_public_key : List ℕ → Option (List ℕ)
  pub sign : List ℕ → List ℕ → Option (List ℕ)

pub record SignedTransaction : Type 0 where
  pub raw_transaction : Text
  pub transaction_hash : Text

unfoldable pub tron_address_from_public_key : Host → Curve → Text → Result Error Text
unfolding decode_hex decode_tron_address
tron_address_from_public_key host curve public_key_hex =
    and_then (or_throw Error.not_hex_bytes (decode_hex host public_key_hex)) λ public_key.
      and_then
        (or_throw Error.signing_failed (curve.uncompressed (host.noble_bytes_to_hex public_key)))
        λ point. decode_tron_address host (0x41 ∷ drop 12 (curve.keccak256 (drop 1 point)))

unfoldable pub zeros : ℕ → List ℕ
zeros zero = []
zeros (suc n) = 0 ∷ zeros n

-- Sixty-four bytes behind the recovery byte, and then that byte.
unfoldable pub signature_of : List ℕ → Result Error (List ℕ)
unfolding zeros
signature_of recovered =
    if ltb 65 (length (drop 1 recovered))
    then err Error.signing_failed
    else ok (take 64 (drop 1 recovered ++ zeros 64) ++ (get_or recovered 0 0 ∷ []))

unfoldable pub signer_address : Host → Curve → List ℕ → Result Error Text
unfolding tron_address_from_public_key encode_tron_address
signer_address host curve private_key =
    and_then (or_throw Error.signing_failed (curve.get_public_key private_key)) λ public_key.
      and_then (tron_address_from_public_key host curve (host.noble_bytes_to_hex public_key))
        λ address.
          and_then (encode_tron_address host address) λ bytes. ok (host.noble_bytes_to_hex bytes)

unfoldable pub sign_transaction_with_key :
    Host → TronWeb → Curve → List ℕ → Text → Result Error SignedTransaction
unfolding decode_tron_raw_data signer_address signature_of encode_signed_tron_transaction
sign_transaction_with_key host web curve private_key raw_data =
    and_then (decode_tron_raw_data host web raw_data) λ parsed.
      and_then (signer_address host curve private_key) λ signer.
        if not (equal_bytes parsed.raw_data.contract.owner_address signer)
        then err Error.owner_mismatch
        else let digest = host.sha256 parsed.raw_data_bytes in
          and_then (or_throw Error.signing_failed (curve.sign digest private_key)) λ recovered.
            and_then (signature_of recovered) λ signature.
              and_then (encode_signed_tron_transaction host web parsed signature) λ encoded.
                ok (record {
                  raw_transaction = encoded;
                  transaction_hash = host.noble_bytes_to_hex digest;
                })
