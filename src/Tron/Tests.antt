-- ===== src/Tron/Tests.antt =====
-- Runs of the Tron policy and wallet on a small host, and the theorems at concrete inputs. Hex is
-- coded as it is; the hashes are constant, and base58 is the bytes themselves.
use relay_settlement.Common.Int.{pos}
use relay_settlement.Common.{
  ℕ, zero, suc, ◌+◌, ◌-◌, ◌*◌, ◌/◌, ◌%◌, ◌≡◌, ◌⊎◌, refl, List, [], ◌∷◌, ◌++◌, none, some, ok,
  and_then, or_throw, length, leb, equal_bytes, if◌then◌else◌,
}
use relay_settlement.Host.{natural_big_int, decode_hex, strip_prefix, Text, Host}
use relay_settlement.Bitcoin.Tx.{}
use relay_settlement.Bitcoin.Address.{double_sha256}
use relay_settlement.Tron.Names.{
  contract_key, type_key, permission_key, parameter_key, type_url_key, value_key,
  call_token_value_key, token_id_key, data_key, scripts_key, auths_key, timestamp_key,
  expiration_key, owner_address_key, contract_address_key, call_value_key, fee_limit_key,
  ref_block_bytes_key, ref_block_hash_key,
}
use relay_settlement.Tron.Values.{
  Error, Value, whole, text, array, object, no_values, value, Fields, no_fields, field, member,
  as_record, string_field, integer_field, is_hex, hex_field, fixed_hex,
}
use relay_settlement.Tron.Transaction.{
  ParsedTronTransaction, TronWeb, trigger_name, type_url_prefix, with_0x, trigger_of, times_of,
  contract_of, tron_web_raw_data, decode_tron_raw_data, parsed_raw_data,
  encode_signed_tron_transaction,
}
use relay_settlement.Tron.Transaction.Canonical.{encode_signed-decode_tron_raw_data}
use relay_settlement.Tron.Address.{
  checksum, encode_tron_address, decode_tron_address, encode-decode_tron_address,
}
use relay_settlement.Tron.Policy.{
  Trigger, Attestation, TronVmTransaction, Env, tron_native_currency, native_deposit, address_hex,
  abi_address, bytes32_hex, assert_fresh, parse_authorized_transaction, assert_call, native_data,
  assert_native_deposit, assert_tron_transactions,
}
use relay_settlement.Tron.Policy.Batches.{Native, Trc20}
use relay_settlement.Tron.Policy.Exact.{assert_tron_transactions_iff}
use relay_settlement.Tron.Wallet.{
  Curve, SignedTransaction, tron_address_from_public_key, zeros, signature_of, signer_address,
  sign_transaction_with_key,
}
use relay_settlement.Tron.Wallet.Signed.{SignsDecoded, sign_transaction_with_key-SignsDecoded}

abbrev digit : ℕ → ℕ
digit n = if leb n 9 then 48 + n else 87 + n

abbrev nibble : ℕ → ℕ
nibble c = if leb c b'9' then c - 48 else c - 87

abbrev to_hex : List ℕ → Text
to_hex [] = []
to_hex (b ∷ bs) = digit (b / 16) ∷ digit (b % 16) ∷ to_hex bs

abbrev pairs : Text → List ℕ
pairs [] = []
pairs (a ∷ []) = []
pairs (a ∷ b ∷ rest) = (nibble a * 16 + nibble b) ∷ pairs rest

abbrev many : ℕ → ℕ → Text
many zero c = []
many (suc n) c = c ∷ many n c

abbrev toy : Host
toy = record {
  noble_hex_to_bytes = λ t. some (pairs t);
  noble_bytes_to_hex = to_hex;
  sha256 = λ t. many 32 7;
  ripemd160 = λ t. many 20 7;
  base58_decode = λ t. some t;
  base58_encode = λ t. t;
  bech32_decode = λ t. none;
  bech32m_decode = λ t. none;
  bech32_encode = λ p w. none;
  bech32m_encode = λ p w. none;
  from_words = λ w. none;
  to_words = λ w. w;
  to_lower_case = λ t. t;
  decode_utf8 = λ t. t;
  big_int = λ t. some (pos 5);
}

-- An address that repeats one digit behind the prefix.
abbrev address : ℕ → Text
address c = b'4' ∷ b'1' ∷ many 40 c

abbrev trigger_fields : Fields
trigger_fields = field owner_address_key (text (address b'0')) (
    field contract_address_key (text (address b'1')) (
      field call_value_key (whole 5) (
        field data_key (text (b'a' ∷ b'b' ∷ []))
          (field call_token_value_key (whole 0) (field token_id_key (whole 0) no_fields)))))

abbrev contract : Value
contract = object (
    field type_key (text trigger_name) (
      field permission_key (whole 0) (
        field parameter_key
          (object (
            field type_url_key (text (type_url_prefix trigger_name))
              (field value_key (object trigger_fields) no_fields)))
          no_fields)))

abbrev json : Value
json = object (
    field contract_key (array (value contract no_values)) (
      field data_key (text []) (
        field scripts_key (text []) (
          field auths_key (array no_values) (
            field timestamp_key (whole 100) (
              field expiration_key (whole 200) (
                field fee_limit_key (whole 9) (
                  field ref_block_bytes_key (text (many 4 b'2'))
                    (field ref_block_hash_key (text (many 16 b'3')) no_fields)))))))))

abbrev web : TronWeb
web = record {
  deserialize_transaction = λ t. some json;
  serialize_raw = λ r. some (1 ∷ 2 ∷ []);
  serialize_signed = λ r s. some (1 ∷ 2 ∷ s);
  number = λ n. n;
}

abbrev env : Env
env = record {
  host = toy;
  web = web;
  deposit_native = λ d i. some (b'0' ∷ b'x' ∷ b'a' ∷ b'b' ∷ []);
  deposit_erc20 = λ d t n i. none;
  approve = λ d n. none;
  now = λ i. 150;
}

abbrev raw_text : Text
raw_text = b'0' ∷ b'1' ∷ b'0' ∷ b'2' ∷ []

abbrev trigger : Trigger
trigger = record {
  currency = tron_native_currency;
  amount = [];
  order_id = many 64 b'6';
  depositor = address b'7';
}

abbrev attestation : Attestation
attestation = record { input_depository = address b'1' }

abbrev batch : List TronVmTransaction
batch = record { purpose = native_deposit; raw_data = raw_text } ∷ []

abbrev curve : Curve
curve = record {
  uncompressed = λ t. some (many 65 4);
  keccak256 = λ t. many 32 0;
  get_public_key = λ k. some (many 33 2);
  sign = λ d k. some (many 65 1);
}

abbrev parsed : ParsedTronTransaction
parsed = record {
  raw_data = record {
    contract = record {
      owner_address = address b'0';
      contract_address = address b'1';
      call_value = 5;
      input_data = b'a' ∷ b'b' ∷ [];
    };
    fee_limit = 9;
    ref_block_bytes = many 4 b'2';
    ref_block_hash = many 16 b'3';
    expiration = 200;
    timestamp = 100;
  };
  raw_data_bytes = 1 ∷ 2 ∷ [];
}

decode_run : decode_tron_raw_data toy web raw_text ≡ ok parsed
unfolding decode_tron_raw_data decode_hex strip_prefix tron_web_raw_data as_record member trigger_of
    times_of contract_of string_field integer_field is_hex hex_field fixed_hex and_then equal_bytes
decode_run = refl

native_run : assert_tron_transactions env trigger attestation batch ≡ ok tt
unfolding natural_big_int assert_tron_transactions assert_native_deposit address_hex abi_address
    bytes32_hex assert_fresh parse_authorized_transaction assert_call native_data
    decode_tron_address checksum decode_tron_raw_data decode_hex strip_prefix tron_web_raw_data
    as_record member trigger_of times_of contract_of string_field integer_field is_hex hex_field
    fixed_hex and_then equal_bytes
native_run = refl

abbrev signed : SignedTransaction
signed = record {
  raw_transaction = with_0x (to_hex (1 ∷ 2 ∷ many 65 1));
  transaction_hash = to_hex (many 32 7);
}

sign_run : sign_transaction_with_key toy web curve [] raw_text ≡ ok signed
unfolding sign_transaction_with_key signer_address tron_address_from_public_key encode_tron_address
    decode_tron_address checksum double_sha256 signature_of zeros encode_signed_tron_transaction
    parsed_raw_data decode_tron_raw_data decode_hex strip_prefix tron_web_raw_data as_record member
    trigger_of times_of contract_of string_field integer_field is_hex hex_field fixed_hex and_then
    equal_bytes
sign_run = refl

assert_tron_transactions_iff_example :
    ((address_hex env trigger.currency ≡ ok tron_native_currency)
      × Native env trigger attestation batch)
    ⊎ Trc20 env trigger attestation batch
assert_tron_transactions_iff_example =
    (assert_tron_transactions_iff env trigger attestation batch).0 native_run

encode_signed-decode_tron_raw_data_example :
    (web.serialize_raw parsed.raw_data ≡ some parsed.raw_data_bytes)
    × (encode_signed_tron_transaction toy web parsed (many 65 1)
        ≡ and_then
            (or_throw Error.bad_encode (web.serialize_signed parsed.raw_data (many 65 1)))
            λ bytes. ok (with_0x (to_hex bytes)))
encode_signed-decode_tron_raw_data_example =
    encode_signed-decode_tron_raw_data toy web raw_text parsed (many 65 1) (λ n h. refl) decode_run
      refl

four_bytes : (bytes : List ℕ) → length (checksum toy bytes) ≡ 4
unfolding checksum double_sha256
four_bytes bytes = refl

sign_transaction_with_key-SignsDecoded_example : SignsDecoded toy web curve [] raw_text signed
sign_transaction_with_key-SignsDecoded_example =
    sign_transaction_with_key-SignsDecoded toy web curve [] raw_text signed (λ n h. refl)
      (λ b. refl) four_bytes sign_run

abbrev address_bytes : List ℕ
address_bytes = 0x41 ∷ many 20 9

abbrev address_text : Text
address_text = address_bytes ++ many 4 7

address_run : decode_tron_address toy address_bytes ≡ ok address_text
unfolding decode_tron_address checksum double_sha256
address_run = refl

encode-decode_tron_address_example : encode_tron_address toy address_text ≡ ok address_bytes
encode-decode_tron_address_example =
    encode-decode_tron_address toy (λ b. refl) four_bytes address_bytes address_text address_run
