-- ===== src/Bitcoin/Tx.antt =====
-- `parseTx` of transaction.ts, with the writers of the parts of a transaction.
-- Text is a list of UTF-16 code units. The hex decoder of @noble/hashes is a parameter.
pub mod Encode
pub mod Parts
pub mod RoundTrip
use relay_settlement.Common.{
  ℕ, zero, suc, ◌+◌, ◌^◌, ◌==◌, Bool, true, false, not, List, [], ◌∷◌, Result, ok, err, and_then,
  Option, none, some, length, drop, ltb, if◌then◌else◌,
}
use relay_settlement.Host.{strip_prefix}
use relay_settlement.Bitcoin.Reader
use relay_settlement.Bitcoin.Reader.{
  Error, Reader, Parse, pure, throw, ◌>>=◌, ◌>>◌, unless, bytes_n, u8, u32, u64,
}
use relay_settlement.Bitcoin.Codec.{concat, u32_le, u64_le, var_int}

pub record TxInput : Type 0 where
  pub txid : List ℕ
  pub index : ℕ
  pub sequence : ℕ

pub record TxOutput : Type 0 where
  pub value : ℕ
  pub script : List ℕ

pub record ParsedTx : Type 0 where
  pub version : ℕ
  pub inputs : List TxInput
  pub outputs : List TxOutput
  pub locktime : ℕ

unfoldable pub repeat {ℓ} : {A : Type ℓ} → ℕ → Parse A → Parse (List A)
repeat zero m = pure []
repeat (suc n) m = do x ← m; xs ← repeat n m; pure (x ∷ xs)

-- `Array.from({ length }, …)`: a length of 2 ^ 32 or more is no array's.
unfoldable pub array_from {ℓ} : {A : Type ℓ} → ℕ → Parse A → Parse (List A)
array_from count m = if ltb count (2 ^ 32) then repeat count m else throw Error.invalid_array_length

unfoldable pub read_input : Parse TxInput
read_input = do
  txid ← bytes_n 32
  index ← u32
  size ← Reader.var_int
  signature ← bytes_n size
  sequence ← u32
  pure (record { txid = txid; index = index; sequence = sequence })

unfoldable pub read_output : Parse TxOutput
read_output = do
  value ← u64
  size ← Reader.var_int
  script ← bytes_n size
  pure (record { value = value; script = script })

-- A count of zero is the marker of the format with witnesses.
unfoldable pub read_count : ℕ → Parse ℕ
read_count zero = do flag ← u8; unless (flag == 1) Error.bad_marker; Reader.var_int
read_count (suc n) = pure (suc n)

unfoldable pub skip_witness : ℕ → Parse (Unit {0})
skip_witness zero = pure tt
skip_witness (suc n) = do
  items ← Reader.var_int
  unless (items == 0) Error.witness_not_empty
  skip_witness n

-- What follows the count of the inputs.
unfoldable pub read_rest : ℕ → Bool → ℕ → Parse ParsedTx
read_rest version has_witness input_count = do
  unless (not (input_count == 0)) Error.no_inputs
  inputs ← array_from input_count read_input
  output_count ← Reader.var_int
  unless (not (output_count == 0)) Error.no_outputs
  outputs ← array_from output_count read_output
  if has_witness then skip_witness input_count else pure tt
  locktime ← u32
  pure (record { version = version; inputs = inputs; outputs = outputs; locktime = locktime })

unfoldable pub read_body : Parse ParsedTx
read_body = do
  version ← u32
  first ← Reader.var_int
  input_count ← read_count first
  read_rest version (first == 0) input_count

unfoldable pub parse_bytes : List ℕ → Result Error ParsedTx
parse_bytes bytes =
    and_then (read_body (record { bytes = bytes; offset = 0 }))
      λ (tx, r). and_then (Reader.end r) λ _. ok tx

-- `hexToBytes` of bytes.ts.
module _ (noble_hex_to_bytes : List ℕ → Option (List ℕ)) where
  unfoldable pub hex_to_bytes : List ℕ → Result Error (List ℕ)
  hex_to_bytes value = elim (noble_hex_to_bytes (strip_prefix value)) [
    | none ↦ err Error.bad_hex
    | some bytes ↦ ok bytes
  ]

  unfoldable pub parse_tx : List ℕ → Result Error ParsedTx
  parse_tx raw_hex = and_then (hex_to_bytes raw_hex) parse_bytes

unfoldable pub outpoint : TxInput → List ℕ
unfolding concat
outpoint input = concat (input.txid ∷ u32_le input.index ∷ [])

unfoldable pub script : List ℕ → List ℕ
unfolding concat
script bytes = concat (var_int (length bytes) ∷ bytes ∷ [])

unfoldable pub output : TxOutput → List ℕ
unfolding concat script
output o = concat (u64_le o.value ∷ script o.script ∷ [])
