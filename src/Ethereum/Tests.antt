-- ===== src/Ethereum/Tests.antt =====
-- A token deposit, on a small host.
use relay_settlement.Common.Int.{pos}
use relay_settlement.Common.{
  ℕ, zero, suc, ◌≡◌, refl, List, [], ◌∷◌, ◌++◌, Option, none, some, ok, true, and_then, equal_bytes,
  take, ap, subst,
}
use relay_settlement.Host.{natural_big_int, starts_with, decode_hex, strip_prefix, Text, Host}
use relay_settlement.Ethereum.Address.{
  encode_ethereum_address, decode_ethereum_address, encode_ethereum_address_to_hex,
  normalize_ethereum_address_hex,
}
use relay_settlement.Ethereum.Address.Names.{IsHex}
use relay_settlement.Ethereum.Policy.{
  EthereumTrigger, EthereumAttestation, EthereumVmTransaction, ParsedTransaction,
  erc20_approve_selector, deposit_erc20_selector, prefixed, word_at, decode_address_arg,
  decode_uint256_arg, decode_bytes32_arg, assert_to, assert_calldata, assert_address, assert_order,
  verify_native_deposit, verify_approve, verify_deposit_erc20, verify_erc20_deposit,
  verify_ethereum_transactions,
}
use relay_settlement.Ethereum.Wallet.{Kind}
use relay_settlement.Ethereum.Policy.Exact.{Batch, verify_ethereum_transactions_iff}

abbrev copies : ℕ → ℕ → Text
copies zero c = []
copies (suc n) c = c ∷ copies n c

-- An address is the first twenty digits of its text.
abbrev toy : Host
toy = record {
  noble_hex_to_bytes = λ t. some (take 20 t);
  noble_bytes_to_hex = λ t. t;
  sha256 = λ t. t;
  ripemd160 = λ t. t;
  base58_decode = λ t. some t;
  base58_encode = λ t. t;
  bech32_decode = λ t. none;
  bech32m_decode = λ t. none;
  bech32_encode = λ p w. none;
  bech32m_encode = λ p w. none;
  from_words = λ w. none;
  to_words = λ w. w;
  to_lower_case = λ t. t;
  decode_utf8 = λ t. t;
  big_int = λ t. some (pos 5);
}

cut_again : (n : ℕ) (t : Text) → take n (take n t) ≡ take n t
cut_again zero t = refl
cut_again (suc n) [] = refl
cut_again (suc n) (c ∷ t) = ap (λ u. c ∷ u) (cut_again n t)

content : {A : Type 0} {a b : A} → ◌≡◌ {A = Option A} (some a) (some b) → a ≡ b
content h = cc

toy-IsHex : IsHex toy
toy-IsHex = record {
  again = λ t bs h. subst (λ b. some (take 20 b) ≡ some b) (content h) (ap some (cut_again 20 t));
  lower = λ bs. refl;
}

abbrev address_word : ℕ → Text
address_word c = copies 24 b'0' ++ (copies 20 c ++ copies 20 b'0')

abbrev approve : ParsedTransaction
approve = record {
  to = some (copies 20 4);
  value = none;
  calldata = some (erc20_approve_selector ++ (address_word 3 ++ copies 64 5));
}

abbrev deposit : ParsedTransaction
deposit = record {
  to = some (copies 20 3);
  value = some 0;
  calldata = some (
      deposit_erc20_selector
      ++ (address_word 2 ++ (address_word 4 ++ (copies 64 5 ++ copies 64 9))));
}

-- The first transaction is the empty text.
abbrev parse : Text → Option ParsedTransaction
parse [] = some approve
parse (c ∷ cs) = some deposit

abbrev trigger : EthereumTrigger
trigger = record {
  currency = copies 20 4;
  amount = [];
  order_id = prefixed (copies 64 9);
  depositor = copies 20 2;
}

abbrev attestation : EthereumAttestation
attestation = record { input_depository = copies 20 3 }

abbrev batch : List EthereumVmTransaction
batch = record { unsigned_transaction = [] } ∷ record { unsigned_transaction = 1 ∷ [] } ∷ []

accepts : verify_ethereum_transactions toy parse trigger attestation batch ≡ ok tt
unfolding natural_big_int verify_ethereum_transactions verify_native_deposit verify_erc20_deposit
    verify_approve verify_deposit_erc20 assert_to assert_calldata assert_address assert_order
    decode_address_arg decode_uint256_arg decode_bytes32_arg word_at starts_with decode_hex
    strip_prefix encode_ethereum_address decode_ethereum_address encode_ethereum_address_to_hex
    normalize_ethereum_address_hex and_then equal_bytes
accepts = refl

verify_ethereum_transactions_iff_example : Batch toy toy-IsHex parse trigger attestation batch
verify_ethereum_transactions_iff_example =
    (verify_ethereum_transactions_iff toy toy-IsHex parse trigger attestation batch).0 accepts

abbrev legacy : Kind
legacy = record { is_legacy = true; chain_id = some 10 }
