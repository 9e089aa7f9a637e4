-- ===== src/Bitcoin/Tx/Encode.antt =====
-- The two wire formats of a transaction, and the conditions under which its fields fit them.
use relay_settlement.Common.{ℕ, ◌^◌, ◌≤◌, ◌<◌, ◌≡◌, List, [], ◌∷◌, ◌++◌, map, length, All}
use relay_settlement.Bitcoin.Reader.{max_safe_integer}
use relay_settlement.Bitcoin.Codec.{concat, u32_le, var_int}
use relay_settlement.Bitcoin.Tx.{TxInput, TxOutput, ParsedTx, outpoint, script, output}

-- An input with the unlocking script that stands in its place on the wire.
abbrev pub Spent : Type 0
Spent = TxInput × List ℕ

abbrev pub input_of : Spent → TxInput
input_of s = s.0

unfoldable pub encode_input : Spent → List ℕ
unfolding outpoint script
encode_input s = outpoint s.0 ++ (script s.1 ++ u32_le s.0.sequence)

abbrev pub IsInput : Spent → Type 0
IsInput s =
    (length s.0.txid ≡ 32)
    × (s.0.index < 2 ^ 32)
    × (s.0.sequence < 2 ^ 32)
    × (length s.1 ≤ max_safe_integer)

abbrev pub IsOutput : TxOutput → Type 0
IsOutput o = (o.value < 2 ^ 64) × (length o.script ≤ max_safe_integer)

pub record Wire : Type 0 where
  pub version : ℕ
  pub spent : List Spent
  pub outputs : List TxOutput
  pub locktime : ℕ

pub record IsWire (w : Wire) : Type 0 where
  pub version : w.version < 2 ^ 32
  pub some_input : 0 < length w.spent
  pub input_count : length w.spent < 2 ^ 32
  pub spent : All IsInput w.spent
  pub some_output : 0 < length w.outputs
  pub output_count : length w.outputs < 2 ^ 32
  pub outputs : All IsOutput w.outputs
  pub locktime : w.locktime < 2 ^ 32

abbrev pub tx_of : Wire → ParsedTx
tx_of w = record {
  version = w.version;
  inputs = map input_of w.spent;
  outputs = w.outputs;
  locktime = w.locktime;
}

abbrev pub inputs_part : Wire → List ℕ
inputs_part w = var_int (length w.spent) ++ concat (map encode_input w.spent)

abbrev pub outputs_part : Wire → List ℕ
outputs_part w = var_int (length w.outputs) ++ concat (map output w.outputs)

-- The format without witnesses.
unfoldable pub encode_legacy : Wire → List ℕ
encode_legacy w = u32_le w.version ++ (inputs_part w ++ (outputs_part w ++ u32_le w.locktime))

abbrev pub empty_witnesses : List Spent → List ℕ
empty_witnesses [] = []
empty_witnesses (s ∷ rest) = 0 ∷ empty_witnesses rest

-- The format with witnesses, each of which is empty: marker 0, flag 1.
unfoldable pub encode_segwit : Wire → List ℕ
encode_segwit w =
    u32_le w.version
    ++ (0
        ∷ 1
        ∷ (inputs_part w ++ (outputs_part w ++ (empty_witnesses w.spent ++ u32_le w.locktime))))
