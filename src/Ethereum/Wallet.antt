-- ===== src/Ethereum/Wallet.antt =====
-- `signTransactionWithKey`, `signEvmDigest` and `buildSignature` of the Ethereum wallet. The curve,
-- keccak256 and the serialization of viem are parameters; the type of a transaction is whether it is
-- a legacy one.
pub mod Parity
use relay_settlement.Common.{
  ℕ, ◌+◌, ◌*◌, List, [], ◌∷◌, ◌++◌, Bool, true, false, Option, none, some, Result, ok, err,
  and_then, or_throw, take, drop, get_or, length, ltb, ◌==◌, if◌then◌else◌,
}
use relay_settlement.Host.{decode_hex, Text, Host}
use relay_settlement.Tron.Wallet.{zeros}
use relay_settlement.Ethereum.Address.{hex_of}
use relay_settlement.Ethereum.Policy.{EthereumVmTransaction}

pub data WalletError : Type 0 where
  bad_hex bad_transaction signing_failed no_chain_id serialization_failed : WalletError

-- What the signature is built for.
pub record Kind : Type 0 where
  pub is_legacy : Bool
  pub chain_id : Option ℕ

-- The last part of a signature: the parity, or the number of a legacy transaction.
pub data Last : Type 0 where
  y_parity : ℕ → Last
  v_number : ℕ → Last

pub record Signature : Type 0 where
  pub r : Text
  pub s : Text
  pub last : Last

pub record Evm : Type 0 where
  pub keccak256 : List ℕ → List ℕ
  -- the recovery byte and 64 bytes
  pub sign : List ℕ → List ℕ → Option (List ℕ)
  pub kind_of : Text → Option Kind
  pub serialize : Text → Signature → Option Text

pub record EthereumVmSignedTransaction : Type 0 where
  pub raw_transaction : Text
  pub transaction_hash : Text

-- Sixty-four bytes behind the recovery byte, and then 27 or 28; more bytes than fit are refused
-- where they are set.
unfoldable pub canonical_signature : List ℕ → Result WalletError (List ℕ)
unfolding zeros
canonical_signature recovered =
    if ltb 65 (length (drop 1 recovered))
    then err signing_failed
    else ok (
        take 64 (drop 1 recovered ++ zeros 64)
        ++ ((if get_or recovered 0 1 == 0 then 27 else 28) ∷ []))

-- By whether the transaction is a legacy one, and its chain.
unfoldable pub signature_by : Bool → Option ℕ → Text → Text → ℕ → Result WalletError Signature
signature_by true none r s parity = err no_chain_id
signature_by true (some chain) r s parity =
    ok (record { r = r; s = s; last = v_number (35 + chain * 2 + parity) })
signature_by false chain r s parity = ok (record { r = r; s = s; last = y_parity parity })

unfoldable pub build_signature : Host → Kind → List ℕ → Result WalletError Signature
unfolding signature_by
build_signature host kind sig =
    signature_by kind.is_legacy kind.chain_id (hex_of host (take 32 sig))
      (hex_of host (take 32 (drop 32 sig))) (if get_or sig 64 0 == 27 then 0 else 1)

module _ (host : Host) (evm : Evm) where
  unfoldable pub sign_evm_digest : List ℕ → List ℕ → Result WalletError (List ℕ)
  unfolding canonical_signature
  sign_evm_digest digest private_key =
      and_then (or_throw signing_failed (evm.sign digest private_key)) canonical_signature

  unfoldable pub sign_ethereum_transaction :
      List ℕ → EthereumVmTransaction → Result WalletError EthereumVmSignedTransaction
  unfolding decode_hex sign_evm_digest build_signature
  sign_ethereum_transaction private_key transaction =
      let unsigned = transaction.unsigned_transaction in
      and_then (or_throw bad_transaction (evm.kind_of unsigned)) λ parsed.
        and_then (or_throw bad_hex (decode_hex host unsigned)) λ bytes.
          and_then (sign_evm_digest (evm.keccak256 bytes) private_key) λ sig.
            and_then (build_signature host parsed sig) λ signature.
              and_then (or_throw serialization_failed (evm.serialize unsigned signature)) λ raw.
                and_then (or_throw bad_hex (decode_hex host raw)) λ raw_bytes. ok (record {
                  raw_transaction = raw;
                  transaction_hash = hex_of host (evm.keccak256 raw_bytes);
                })
