-- ===== src/Solana/Tests.antt =====
-- A native deposit that the Solana policy accepts and the wallet signs, on a small host where hex
-- and base64 are the bytes themselves.
use relay_settlement.Common.Int.{pos}
use relay_settlement.Common.{
  ℕ, ◌≡◌, refl, List, [], ◌∷◌, ◌++◌, none, some, ok, and_then, equal_bytes, arith,
}
use relay_settlement.Host.{natural_big_int, decode_hex, strip_prefix, Host}
use relay_settlement.Bytes.{bytes_to_number_le, le_loop, number_to_bytes_le}
use relay_settlement.Ed25519.{modulo_order, sign_ed25519_bip32}
use relay_settlement.Ed25519.Parity.{many, parity, parity_library, parity-IsCurve}
use relay_settlement.Solana.Reader.{◌>>=◌, pure, read, read_byte, skip, read_short_u16, repeat}
use relay_settlement.Solana.Reader.Reads.{encode_short_u16}
use relay_settlement.Solana.Message.{
  Instruction, read_instruction, read_version, read_message, parse_message,
}
use relay_settlement.Solana.Message.RoundTrip.{
  Wire, IsWire, encode_instruction, encode_message, parse_message-encode,
}
use relay_settlement.Solana.Policy.{
  SolanaTrigger, SolanaAttestation, SolanaVmTransaction, deposit_native_discriminator,
  resolve_static_key, is_zero_bytes, assert_shape, assert_key, assert_args, verify_deposit_native,
  assert_signers, assert_sender, hex32_bytes, verify_instruction, verify_transactions,
}
use relay_settlement.Solana.Policy.Accepted.{Accepted, verify_transactions_iff}
use relay_settlement.Solana.Wallet.{
  Base64, SolanaVmSignedTransaction, zero_bytes, set_bytes, sign_solana_transaction,
}
use relay_settlement.Solana.Wallet.Signed.{Sends, accepted-signed-Sends}

abbrev toy : Host
toy = record {
  noble_hex_to_bytes = λ t. some t;
  noble_bytes_to_hex = λ t. t;
  sha256 = λ t. t;
  ripemd160 = λ t. t;
  base58_decode = λ t. some t;
  base58_encode = λ t. t;
  bech32_decode = λ t. none;
  bech32m_decode = λ t. none;
  bech32_encode = λ p w. none;
  bech32m_encode = λ p w. none;
  from_words = λ w. none;
  to_words = λ w. w;
  to_lower_case = λ t. t;
  decode_utf8 = λ t. t;
  big_int = λ t. some (pos 5);
}

abbrev plain : Base64
plain = record { to_bytes = λ t. some t; of_bytes = λ t. t }

abbrev trigger : SolanaTrigger
trigger = record { currency = many 32 0; amount = []; order_id = many 32 4; depositor = many 32 2 }

abbrev attestation : SolanaAttestation
attestation = record { input_depository = many 32 3 }

abbrev native : Instruction
native = record {
  program_id_index = 2;
  account_indexes = 2 ∷ 0 ∷ 1 ∷ 2 ∷ 2 ∷ [];
  args = deposit_native_discriminator ++ ((5 ∷ many 7 0) ++ many 32 4);
}

-- The wallet is the point 1 of the small curve, and it is the only signer.
abbrev wire : Wire
wire = record {
  message = record {
    num_required_signatures = 1;
    static_account_keys = (1 ∷ many 31 0) ∷ many 32 2 ∷ many 32 3 ∷ [];
    instructions = native ∷ [];
  };
  read_only = 0 ∷ 0 ∷ [];
  blockhash = many 32 7;
  lookups = [];
}

wire-IsWire : IsWire wire
wire-IsWire = record {
  signers = omega arith;
  read_only = refl;
  keys = (refl, (refl, (refl, tt)));
  key_count = omega arith;
  blockhash = refl;
  instructions = (record { accounts = omega arith; args = omega arith }, tt);
  instruction_count = omega arith;
}

parse_message-encode_example :
    (parse_message (encode_message wire ++ []) ≡ ok wire.message)
    × (parse_message (128 ∷ (encode_message wire ++ [])) ≡ ok wire.message)
parse_message-encode_example = parse_message-encode wire wire-IsWire

abbrev transaction : SolanaVmTransaction
unfolding encode_message encode_instruction encode_short_u16
transaction = record { message = encode_message wire ++ [] }

accepts : verify_transactions toy (λ t. some t) trigger attestation (transaction ∷ []) ≡ ok tt
unfolding natural_big_int transaction verify_transactions parse_message assert_signers assert_sender
    verify_instruction hex32_bytes decode_hex strip_prefix resolve_static_key is_zero_bytes
    verify_deposit_native assert_shape assert_key assert_args bytes_to_number_le and_then
    equal_bytes read_version read_message ◌>>=◌ pure read read_byte skip read_short_u16 repeat
    read_instruction encode_message encode_instruction encode_short_u16
accepts = refl

verify_transactions_iff_example : Accepted toy (λ t. some t) trigger attestation (transaction ∷ [])
verify_transactions_iff_example =
    (verify_transactions_iff toy (λ t. some t) trigger attestation (transaction ∷ [])).0 accepts

abbrev signed_transaction : SolanaVmSignedTransaction
unfolding transaction encode_message encode_instruction encode_short_u16
signed_transaction = record {
  signature = b'0' ∷ b'x' ∷ ((1 ∷ many 31 0) ++ many 32 0);
  raw_transaction = 1 ∷ (((1 ∷ many 31 0) ++ many 32 0) ++ transaction.message);
}

abbrev private_key : List ℕ
private_key = 1 ∷ many 63 0

abbrev wallet_signature : List ℕ
wallet_signature = (1 ∷ many 31 0) ++ many 32 0

parses : parse_message transaction.message ≡ ok wire.message
unfolding transaction
parses = parse_message-encode_example.0

signs :
    sign_solana_transaction toy plain parity_library private_key transaction ≡ ok signed_transaction
unfolding signed_transaction sign_solana_transaction assert_signers and_then equal_bytes set_bytes
    zero_bytes bytes_to_number_le sign_ed25519_bip32 modulo_order number_to_bytes_le le_loop
signs = rw parses refl

accepted-signed-Sends_example :
    Sends toy plain parity parity_library trigger attestation private_key transaction
      signed_transaction
accepted-signed-Sends_example =
    accepted-signed-Sends toy plain parity parity_library parity-IsCurve trigger attestation
      private_key transaction signed_transaction accepts signs
