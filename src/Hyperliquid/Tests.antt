-- ===== src/Hyperliquid/Tests.antt =====
-- The text 1.5 in a currency of two decimals.
use relay_settlement.Common.Int.{pos}
use relay_settlement.Common.{◌≡◌, refl, [], ◌∷◌, none, some, ok}
use relay_settlement.Host.{natural_big_int, Host}
use relay_settlement.Hyperliquid.Amount.{raw_amount}
use relay_settlement.Hyperliquid.Amount.Value.{value, ReadsDigits, raw_amount-value}

abbrev toy : Host
toy = record {
  noble_hex_to_bytes = λ t. some t;
  noble_bytes_to_hex = λ t. t;
  sha256 = λ t. t;
  ripemd160 = λ t. t;
  base58_decode = λ t. some t;
  base58_encode = λ t. t;
  bech32_decode = λ t. none;
  bech32m_decode = λ t. none;
  bech32_encode = λ p w. none;
  bech32m_encode = λ p w. none;
  from_words = λ w. none;
  to_words = λ w. w;
  to_lower_case = λ t. t;
  decode_utf8 = λ t. t;
  big_int = λ t. some (pos (value t));
}

toy-ReadsDigits : ReadsDigits toy
unfolding natural_big_int
toy-ReadsDigits = record { reads = λ c ds h. refl }

raw_amount-value_example :
    (raw_amount toy (b'1' ∷ b'.' ∷ b'5' ∷ []) 2 ≡ ok 150) × (raw_amount toy (b'1' ∷ []) 2 ≡ ok 100)
raw_amount-value_example = raw_amount-value toy toy-ReadsDigits b'1' [] refl b'5' [] 2 refl
