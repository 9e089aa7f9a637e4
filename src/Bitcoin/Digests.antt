-- ===== src/Bitcoin/Digests.antt =====
-- `signableBitcoinDigests` of transaction.ts: the digests that the action signs, each computed
-- again from the transaction.
pub mod Signable
use relay_settlement.Common.{
  ℕ, zero, suc, ◌+◌, List, [], ◌∷◌, Bool, true, false, not, Option, none, some, Result, ok, err,
  and_then, length, map, get_elem?, get_or, ◌==◌, equal_bytes, if◌then◌else◌,
}
use relay_settlement.Common.Int.{ℤ}
use relay_settlement.Host.{Text, Host}
use relay_settlement.Bitcoin.Reader.{Error}
use relay_settlement.Bitcoin.Codec.{concat, u32_le, u64_le_int}
use relay_settlement.Bitcoin.Tx.{
  TxInput, TxOutput, ParsedTx, parse_tx, hex_to_bytes, outpoint, script, output,
}
use relay_settlement.Bitcoin.Address.{or_throw}
use relay_settlement.Bitcoin.Policy.{BitcoinVmTransaction, assert_counts}

-- `hash160` of packages/lit-deposit-address/src/common/crypto.ts.
unfoldable pub hash160 : Host → List ℕ → List ℕ
hash160 host bytes = host.ripemd160 (host.sha256 bytes)

unfoldable pub hash256 : Host → List ℕ → List ℕ
hash256 host bytes = host.sha256 (host.sha256 bytes)

unfoldable pub p2wpkh_code : Host → List ℕ → List ℕ
unfolding concat hash160
p2wpkh_code host pubkey =
    concat ((0x76 ∷ 0xa9 ∷ 0x14 ∷ []) ∷ hash160 host pubkey ∷ (0x88 ∷ 0xac ∷ []) ∷ [])

-- What is hashed for an input; `input` is `tx.inputs[inputIndex]`.
unfoldable pub preimage : Host → ParsedTx → TxInput → List ℕ → ℤ → List ℕ
unfolding concat p2wpkh_code hash256 outpoint script output
preimage host tx input pubkey value = concat (
    u32_le tx.version
    ∷ hash256 host (concat (map outpoint tx.inputs))
    ∷ hash256 host (concat (map (λ i. u32_le i.sequence) tx.inputs))
    ∷ outpoint input
    ∷ script (p2wpkh_code host pubkey)
    ∷ u64_le_int value
    ∷ u32_le input.sequence
    ∷ hash256 host (concat (map output tx.outputs))
    ∷ u32_le tx.locktime
    ∷ u32_le 1
    ∷ [])

-- `none` where there is no input of that index.
unfoldable pub sighash : Host → ParsedTx → ℕ → List ℕ → ℤ → Option (List ℕ)
unfolding preimage hash256
sighash host tx index pubkey value = elim (get_elem? tx.inputs index) [
  | none ↦ none
  | some input ↦ some (hash256 host (preimage host tx input pubkey value))
]

abbrev pub is_sighash : Option (List ℕ) → List ℕ → Bool
is_sighash none actual = false
is_sighash (some digest) actual = equal_bytes actual digest

-- The body of the callback, for one index.
unfoldable pub checked_digest :
    Host → ParsedTx → List ℕ → BitcoinVmTransaction → ℕ → Result Error (List ℕ)
unfolding sighash hex_to_bytes
checked_digest host tx pubkey given i =
    and_then (hex_to_bytes host.noble_hex_to_bytes (get_or given.sighashes i [])) λ actual.
      if not (length actual == 32)
      then err Error.sighash_length
      else and_then (or_throw Error.bad_big_int (host.big_int (get_or given.input_values i [])))
          λ value.
            if is_sighash (sighash host tx i pubkey value) actual
            then ok actual
            else err Error.sighash_mismatch

-- `tx.inputs.map((_, i) => …)`, from index `i` on.
unfoldable pub digests_from :
    Host
    → ParsedTx
    → List ℕ
    → BitcoinVmTransaction
    → ℕ
    → List TxInput
    → Result Error (List (List ℕ))
unfolding checked_digest
digests_from host tx pubkey given i [] = ok []
digests_from host tx pubkey given i (input ∷ inputs) =
    and_then (checked_digest host tx pubkey given i) λ digest.
      and_then (digests_from host tx pubkey given (i + 1) inputs) λ digests. ok (digest ∷ digests)

unfoldable pub signable_bitcoin_digests :
    Host → BitcoinVmTransaction → List ℕ → Result Error (List (List ℕ))
unfolding digests_from assert_counts
signable_bitcoin_digests host given pubkey =
    and_then (parse_tx host.noble_hex_to_bytes given.unsigned_transaction)
      λ tx. and_then (assert_counts tx given) λ _. digests_from host tx pubkey given 0 tx.inputs
