-- ===== src/Solana/Wallet.antt =====
-- `signTransactionWithKey`: the signature of a compiled message, and its wire format. Base64 is a
-- parameter; bytes stand for Uint8Array.
pub mod Signed
use relay_settlement.Common.{
  ℕ, zero, suc, ◌+◌, ◌-◌, ◌*◌, List, [], ◌∷◌, ◌++◌, Bool, not, Option, none, some, Result, ok, err,
  and_then, or_throw, length, take, drop, get_elem?, ltb, ◌==◌, equal_bytes, if◌then◌else◌,
}
use relay_settlement.Host.{Text, Host}
use relay_settlement.Ed25519.{Ed25519, SignFault, sign_ed25519_bip32}
use relay_settlement.Solana.Reader.{Error}
use relay_settlement.Solana.Message.{parse_message}
use relay_settlement.Solana.Policy.{SolanaVmTransaction, assert_signers}

pub record Base64 : Type 0 where
  pub to_bytes : Text → Option (List ℕ)
  pub of_bytes : List ℕ → Text

pub record SolanaVmSignedTransaction : Type 0 where
  pub signature : Text
  pub raw_transaction : Text

abbrev pub signature_len : ℕ
signature_len = 64

unfoldable pub zero_bytes : ℕ → List ℕ
zero_bytes zero = []
zero_bytes (suc n) = 0 ∷ zero_bytes n

-- `target.set(bytes, offset)`, which throws where the bytes do not fit.
unfoldable pub set_bytes : List ℕ → List ℕ → ℕ → Option (List ℕ)
set_bytes target bytes offset =
    if ltb (length target) (offset + length bytes)
    then none
    else some (take offset target ++ (bytes ++ drop (offset + length bytes) target))

abbrev pub signed : Result SignFault (List ℕ) → Result Error (List ℕ)
signed (ok signature) = ok signature
signed (err e) = err Error.signing_failed

module _ (host : Host) (base64 : Base64) (ed : Ed25519) where
  -- The message of a transaction, with its length tested and its parse.
  unfoldable pub sign_solana_transaction :
      List ℕ → SolanaVmTransaction → Result Error SolanaVmSignedTransaction
  unfolding parse_message assert_signers sign_ed25519_bip32 zero_bytes set_bytes
  sign_solana_transaction private_key transaction =
      and_then (or_throw Error.bad_base64 (base64.to_bytes transaction.message)) λ bytes.
        if length bytes == 0
        then err Error.empty_message
        else and_then (parse_message bytes) λ parsed. and_then (assert_signers parsed) λ _.
          let wallet_slot = parsed.num_required_signatures - 1 in
          and_then (or_throw Error.signing_failed (ed.get_public_key private_key)) λ wallet_pubkey.
            and_then (or_throw Error.wrong_slot (get_elem? parsed.static_account_keys wallet_slot))
              λ slot_key.
                if not (equal_bytes slot_key wallet_pubkey)
                then err Error.wrong_slot
                else and_then (signed (sign_ed25519_bip32 ed bytes private_key)) λ signature.
                  and_then
                    (or_throw Error.signing_failed (
                      set_bytes (zero_bytes (parsed.num_required_signatures * signature_len))
                        signature (wallet_slot * signature_len)))
                    λ sigs. ok (record {
                      signature = b'0' ∷ b'x' ∷ host.noble_bytes_to_hex signature;
                      raw_transaction =
                          base64.of_bytes (parsed.num_required_signatures ∷ (sigs ++ bytes));
                    })
