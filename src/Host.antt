-- ===== src/Host.antt =====
-- What the deposit-address package takes from its libraries and from the JavaScript host.
-- Text is a list of UTF-16 code units; `none` is a call that throws.
use relay_settlement.Common.Int.{ℤ, pos, negsuc}
use relay_settlement.Common.{
  ℕ, List, [], ◌∷◌, Option, none, some, Bool, true, false, ◌==◌, ◌||◌, if◌then◌else◌,
}

abbrev pub Text : Type 0
Text = List ℕ

-- The text before the separator of a bech32 address, and the groups of five bits behind it.
pub record Decoded : Type 0 where
  pub prefix : Text
  pub words : List ℕ

pub record Host : Type 0 where
  -- @noble/hashes
  pub noble_hex_to_bytes : Text → Option (List ℕ)
  pub noble_bytes_to_hex : List ℕ → Text
  pub sha256 : List ℕ → List ℕ
  pub ripemd160 : List ℕ → List ℕ
  -- @scure/base, the bech32 codecs with the limit of 90 characters
  pub base58_decode : Text → Option (List ℕ)
  pub base58_encode : List ℕ → Text
  pub bech32_decode : Text → Option Decoded
  pub bech32m_decode : Text → Option Decoded
  pub bech32_encode : Text → List ℕ → Option Text
  pub bech32m_encode : Text → List ℕ → Option Text
  pub from_words : List ℕ → Option (List ℕ)
  pub to_words : List ℕ → List ℕ
  -- the host: String.prototype.toLowerCase, TextDecoder.decode, and BigInt of a text
  pub to_lower_case : Text → Text
  pub decode_utf8 : List ℕ → Text
  pub big_int : Text → Option ℤ

-- `BigInt(text)` where it is only compared with amounts, none of which is negative: a negative number
-- is refused as a text that is no number is.
unfoldable pub natural_big_int : Host → Text → Option ℕ
natural_big_int host text = elim (host.big_int text) [
  | some (pos n) ↦ some n
  | some (negsuc n) ↦ none
  | none ↦ none
]

-- `text.startsWith(prefix)`.
unfoldable pub starts_with : Text → Text → Bool
starts_with [] text = true
starts_with (p ∷ ps) [] = false
starts_with (p ∷ ps) (c ∷ cs) = if p == c then starts_with ps cs else false

-- `text.includes(part)`.
unfoldable pub includes : Text → Text → Bool
unfolding starts_with
includes [] part = starts_with part []
includes (c ∷ cs) part = starts_with part (c ∷ cs) || includes cs part

-- What `hexToBytes` of bytes.ts decodes: an optional `0x`, and then the digits.
unfoldable pub strip_prefix : Text → Text
strip_prefix (a ∷ b ∷ rest) =
    if a == b'0' then (if b == b'x' then rest else a ∷ b ∷ rest) else a ∷ b ∷ rest
strip_prefix text = text

unfoldable pub decode_hex : Host → Text → Option (List ℕ)
unfolding strip_prefix
decode_hex host text = host.noble_hex_to_bytes (strip_prefix text)
