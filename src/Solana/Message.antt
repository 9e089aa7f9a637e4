-- ===== src/Solana/Message.antt =====
-- `parseSolanaCompiledMessage`: the header, the static keys and the instructions of a message.
pub mod RoundTrip
use relay_settlement.Common.{
  ℕ, List, [], ◌∷◌, Bool, not, bit_and, Result, ok, err, and_then, ◌==◌, if◌then◌else◌,
}
use relay_settlement.Solana.Reader.{
  Error, Parse, pure, throw, ◌>>=◌, ◌>>◌, read, read_byte, skip, read_short_u16, repeat,
}

pub record Instruction : Type 0 where
  pub program_id_index : ℕ
  pub account_indexes : List ℕ
  pub args : List ℕ

pub record Message : Type 0 where
  pub num_required_signatures : ℕ
  pub static_account_keys : List (List ℕ)
  pub instructions : List Instruction

abbrev pub pubkey_len : ℕ
pubkey_len = 32

unfoldable pub read_instruction : Parse Instruction
read_instruction = do
  program ← read_byte
  count ← read_short_u16
  accounts ← repeat count read_byte
  size ← read_short_u16
  args ← read size
  pure (record { program_id_index = program; account_indexes = accounts; args = args })

-- A first byte with the high bit names a version, and only version 0 is read.
unfoldable pub read_version : Parse (Unit {0})
read_version = do
  marker ← read_byte
  if bit_and marker 0x7f == 0 then pure tt else throw Error.unsupported_version

unfoldable pub read_message : Parse Message
read_message = do
  required ← read_byte
  skip 2
  key_count ← read_short_u16
  keys ← repeat key_count (read pubkey_len)
  skip 32
  instruction_count ← read_short_u16
  instructions ← repeat instruction_count read_instruction
  pure (record {
    num_required_signatures = required;
    static_account_keys = keys;
    instructions = instructions;
  })

-- What follows the instructions is not looked at.
unfoldable pub parse_message : List ℕ → Result Error Message
unfolding read_version read_message ◌>>=◌
parse_message [] = err Error.empty_message
parse_message (b ∷ bytes) =
    and_then
      (if not (bit_and b 0x80 == 0)
        then (read_version >> read_message) (b ∷ bytes)
        else read_message (b ∷ bytes))
      λ (message, _). ok message
