-- ===== src/Bitcoin/Tests.antt =====
-- Runs of the Bitcoin check on a small host, and the theorems at concrete inputs.
-- The host stands in for the libraries: hex and UTF-8 are the bytes themselves, the hash is
-- constant, and the text of an address is its bytes behind a prefix.
use relay_settlement.Common.Int.{pos}
use relay_settlement.Common.{
  ℕ, ◌+◌, ◌≤◌, ◌≡◌, ◌≢◌, ◌↔◌, refl, List, [], ◌∷◌, ◌++◌, Option, none, some, ok, err, and_then,
  arith, map, drop, equal_bytes, if◌then◌else◌, ◌==◌, get_or, length,
}
use relay_settlement.Host.{natural_big_int, strip_prefix, Text, Host, starts_with}
use relay_settlement.Bitcoin.Reader
use relay_settlement.Bitcoin.Reader.{Error}
use relay_settlement.Bitcoin.Codec.{concat, u32_le, u64_le, u64_le_int, var_int}
use relay_settlement.Bitcoin.Tx.{
  ParsedTx, parse_bytes, parse_tx, hex_to_bytes, read_body, read_rest, read_count, array_from,
  repeat, read_input, read_output, skip_witness, outpoint, script, output,
}
use relay_settlement.Bitcoin.Tx.Encode.{
  Wire, IsWire, tx_of, encode_input, encode_legacy, encode_segwit,
}
use relay_settlement.Bitcoin.Tx.RoundTrip.{parse_bytes-encode, parse_bytes-encode_trailing}
use relay_settlement.Bitcoin.Scripts.{find_depositor, depositor_tag}
use relay_settlement.Bitcoin.Scripts.Depositor.{Names, find_depositor-Names, find_depositor-ne-none}
use relay_settlement.Bitcoin.Address.{encode_bitcoin_address, decode_bitcoin_address}
use relay_settlement.Bitcoin.Address.Forms.{
  PaysHash, encode_bitcoin_address-PaysHash, decode-encode_bitcoin_address,
}
use relay_settlement.Bitcoin.Policy.{
  Trigger, Attestation, BitcoinVmTransaction, btc_native_address,
  assert_bitcoin_deposit_transaction,
}
use relay_settlement.Bitcoin.Policy.Accepted.{
  Accepted, paid_to, assert_bitcoin_deposit_transaction_iff,
}
use relay_settlement.Bitcoin.Policy.Amounts.{total_value, data_value, total_value-le}
use relay_settlement.Bitcoin.Digests.{signable_bitcoin_digests}
use relay_settlement.Bitcoin.Digests.Signable.{AllSign, signable_bitcoin_digests-AllSign}

abbrev twenty : List ℕ
twenty =
    1 ∷ 2 ∷ 3 ∷ 4 ∷ 5 ∷ 6 ∷ 7 ∷ 8 ∷ 9 ∷ 10 ∷ 11 ∷ 12 ∷ 13 ∷ 14 ∷ 15 ∷ 16 ∷ 17 ∷ 18 ∷ 19 ∷ 20 ∷ []

abbrev thirty_two : List ℕ
thirty_two =
    9 ∷ 9 ∷ 9 ∷ 9 ∷ 9 ∷ 9 ∷ 9 ∷ 9 ∷ 9 ∷ 9 ∷ 9 ∷ 9 ∷ 9 ∷ 9 ∷ 9 ∷ 9 ∷ 9 ∷ 9 ∷ 9 ∷ 9 ∷ 9 ∷ 9 ∷ 9 ∷ 9
    ∷ 9 ∷ 9 ∷ 9 ∷ 9 ∷ 9 ∷ 9 ∷ 9 ∷ 9 ∷ []

abbrev digit : ℕ → ℕ
digit c = if c == b'q' then 0 else c

abbrev letter : ℕ → ℕ
letter w = if w == 0 then b'q' else w

abbrev toy_base58 : Text → Option (List ℕ)
toy_base58 [] = none
toy_base58 (c ∷ cs) = if c == b'1' then some (0 ∷ cs) else none

abbrev toy_base58_text : List ℕ → Text
toy_base58_text [] = []
toy_base58_text (b ∷ bs) = b'1' ∷ bs

abbrev toy : Host
toy = record {
  noble_hex_to_bytes = λ t. some t;
  noble_bytes_to_hex = λ t. t;
  sha256 = λ t. thirty_two;
  ripemd160 = λ t. twenty;
  base58_decode = toy_base58;
  base58_encode = toy_base58_text;
  bech32_decode = λ t. some (record { prefix = b'b' ∷ b'c' ∷ []; words = map digit (drop 3 t) });
  bech32m_decode = λ t. none;
  bech32_encode = λ p w. some (p ++ (b'1' ∷ map letter w));
  bech32m_encode = λ p w. none;
  from_words = λ w. some w;
  to_words = λ w. w;
  to_lower_case = λ t. t;
  decode_utf8 = λ t. t;
  big_int = λ t. some (pos (get_or t 0 0));
}

abbrev depositor_bytes : List ℕ
depositor_bytes = twenty ++ (9 ∷ 9 ∷ 9 ∷ 9 ∷ [])

-- `id|depositor=1…|`
abbrev note : Text
note =
    b'i'
    ∷ b'd'
    ∷ b'|'
    ∷ b'd'
    ∷ b'e'
    ∷ b'p'
    ∷ b'o'
    ∷ b's'
    ∷ b'i'
    ∷ b't'
    ∷ b'o'
    ∷ b'r'
    ∷ b'='
    ∷ b'1'
    ∷ (depositor_bytes ++ (b'|' ∷ []))

abbrev wire : Wire
wire = record {
  version = 2;
  spent = (record { txid = thirty_two; index = 3; sequence = 0xffff_fffd }, []) ∷ [];
  outputs =
      record { value = 50; script = 0x76 ∷ 0xa9 ∷ 0x14 ∷ (twenty ++ (0x88 ∷ 0xac ∷ [])) }
      ∷ record { value = 7; script = 0xa9 ∷ 0x14 ∷ (twenty ++ (0x87 ∷ [])) }
      ∷ record { value = 0; script = 0x6a ∷ 39 ∷ note }
      ∷ [];
  locktime = 0;
}

wire-IsWire : IsWire wire
wire-IsWire = omega arith

parse_bytes-encode_example :
    (parse_bytes (encode_legacy wire) ≡ ok (tx_of wire))
    × (parse_bytes (encode_segwit wire) ≡ ok (tx_of wire))
parse_bytes-encode_example = parse_bytes-encode wire wire-IsWire

parse_bytes-encode_trailing_example :
    (parse_bytes (encode_legacy wire ++ (0 ∷ [])) ≡ err Error.trailing_bytes)
    × (parse_bytes (encode_segwit wire ++ (0 ∷ [])) ≡ err Error.trailing_bytes)
parse_bytes-encode_trailing_example = parse_bytes-encode_trailing wire wire-IsWire 0 []

abbrev trigger : Trigger
trigger = record {
  currency = b'0' ∷ b'x' ∷ 0 ∷ map digit (drop 4 btc_native_address);
  amount = 50 ∷ [];
  order_id = b'i' ∷ b'd' ∷ [];
  refund_recipient = b'0' ∷ b'x' ∷ 0xff ∷ 5 ∷ twenty;
  depositor = b'0' ∷ b'x' ∷ 0xff ∷ 0 ∷ twenty;
}

abbrev attestation : Attestation
attestation = record { input_depository = b'0' ∷ b'x' ∷ 0xff ∷ 0 ∷ twenty }

abbrev given : BitcoinVmTransaction
given = record {
  unsigned_transaction = encode_legacy wire;
  sighashes = thirty_two ∷ [];
  input_values = (60 ∷ []) ∷ [];
}

-- A run of the check computes with all of these.
whole_check : ℕ
unfolding assert_bitcoin_deposit_transaction natural_big_int u64_le_int and_then equal_bytes
    encode_legacy parse_tx hex_to_bytes strip_prefix parse_bytes read_body read_rest read_count
    array_from repeat read_input read_output skip_witness outpoint script output encode_input
    Reader.◌>>=◌ Reader.pure Reader.throw Reader.bytes_n Reader.u8 Reader.u32 Reader.u64
    Reader.var_int Reader.end u32_le u64_le var_int concat
whole_check = 0

given_accepted : assert_bitcoin_deposit_transaction toy trigger attestation given ≡ ok tt
unfolding whole_check
given_accepted = refl

assert_bitcoin_deposit_transaction_iff_example :
    (assert_bitcoin_deposit_transaction toy trigger attestation given ≡ ok tt)
    ↔ Accepted toy trigger attestation given
assert_bitcoin_deposit_transaction_iff_example =
    assert_bitcoin_deposit_transaction_iff toy trigger attestation given

total_value-le_example :
    (a : Accepted toy trigger attestation given) × (amount : ℕ) × (natural_big_int toy
        trigger.amount
      ≡ some amount)
    × (total_value a.tx.outputs
        ≤ amount + paid_to a.refund a.tx.outputs + data_value toy a.tx.outputs)
total_value-le_example = total_value-le toy trigger attestation given given_accepted

digests_returned : signable_bitcoin_digests toy given twenty ≡ ok (thirty_two ∷ [])
unfolding whole_check signable_bitcoin_digests
digests_returned = refl

signable_bitcoin_digests-AllSign_example :
    (tx : ParsedTx) × (parse_tx toy.noble_hex_to_bytes given.unsigned_transaction ≡ ok tx)
    × (length given.sighashes ≡ length tx.inputs)
    × (length given.input_values ≡ length tx.inputs)
    × AllSign toy twenty given tx 0 tx.inputs (thirty_two ∷ [])
signable_bitcoin_digests-AllSign_example =
    signable_bitcoin_digests-AllSign toy twenty given (thirty_two ∷ []) digests_returned

abbrev legacy_address : Text
legacy_address = b'1' ∷ depositor_bytes

legacy_encoded : encode_bitcoin_address toy legacy_address ≡ ok (0xff ∷ 0 ∷ twenty)
unfolding encode_bitcoin_address whole_check
legacy_encoded = refl

encode_bitcoin_address-PaysHash_example : PaysHash toy legacy_address (0xff ∷ 0 ∷ twenty)
unfolding starts_with
encode_bitcoin_address-PaysHash_example =
    encode_bitcoin_address-PaysHash toy legacy_address (0xff ∷ 0 ∷ twenty) refl legacy_encoded

toy_base58_one :
    (c : ℕ) (cs raw : List ℕ) → toy_base58 (c ∷ cs) ≡ some raw → (c ≡ b'1') × (raw ≡ 0 ∷ cs)
toy_base58_one c cs raw h = ground arith

toy_base58_law :
    (text : Text) (raw : List ℕ) → toy_base58 text ≡ some raw → toy_base58_text raw ≡ text
toy_base58_law [] raw h = absurd (cc)
toy_base58_law (c ∷ cs) raw h = ground (arith, toy_base58_one c cs raw)

decode-encode_bitcoin_address_example :
    decode_bitcoin_address toy (0xff ∷ 0 ∷ twenty) ≡ ok legacy_address
unfolding starts_with
decode-encode_bitcoin_address_example =
    decode-encode_bitcoin_address toy legacy_address (0xff ∷ 0 ∷ twenty) toy_base58_law refl
      legacy_encoded

find_depositor-Names_example : Names note legacy_address
unfolding find_depositor
find_depositor-Names_example = find_depositor-Names note legacy_address refl

find_depositor-ne-none_example :
    find_depositor (b'x' ∷ (depositor_tag ++ ((b'1' ∷ []) ++ (b'|' ∷ [])))) ≢ none
find_depositor-ne-none_example =
    find_depositor-ne-none (b'x' ∷ []) (b'1' ∷ []) [] (λ p. cc) (omega arith)
