-- ===== src/Bitcoin/Reader.antt =====
-- The class `Reader` of transaction.ts: a cursor over the bytes of a transaction. A method is a
-- function from the reader to its result and the reader after it, or an error; what an error says
-- of the field that was read is left out.
pub mod Reads
pub mod Words
use relay_settlement.Common.{
  ℕ, ◌+◌, ◌-◌, ◌*◌, ◌%◌, ◌^◌, List, Bool, bit_or, Result, ok, err, length, take, drop, get_or, ltb,
  ◌==◌, if◌then◌else◌,
}
use relay_settlement.Bytes.{bytes_to_number_le}

pub data Error : Type 0 where
  bad_hex truncated too_large trailing_bytes bad_marker no_inputs no_outputs : Error
  witness_not_empty invalid_array_length sighash_count input_value_count : Error
  bad_legacy_address bad_address only_native_btc amount_mismatch invalid_change : Error
  bad_base58 bad_checksum bad_base58_format bad_address_format bad_witness_version : Error
  bad_bech32 bad_big_int no_metadata no_depositor depositor_mismatch sighash_length
        sighash_mismatch :
      Error

pub record Reader : Type 0 where
  pub bytes : List ℕ
  pub offset : ℕ

abbrev pub Parse {ℓ} : Type ℓ → Type ℓ
Parse A = Reader → Result Error (A × Reader)

module _ {ℓ} {A : Type ℓ} where
  unfoldable pub pure : A → Parse A
  pure a r = ok (a, r)

  unfoldable pub throw : Error → Parse A
  throw e r = err e

module _ {ℓ κ} {A : Type ℓ} {B : Type κ} where
  abbrev next : Result Error (A × Reader) → (A → Parse B) → Result Error (B × Reader)
  next (ok (a, r)) f = f a r
  next (err e) f = err e

  infixl 10 ◌>>=◌ ◌>>◌
  unfoldable pub ◌>>=◌ : Parse A → (A → Parse B) → Parse B
  ◌>>=◌ m f r = next (m r) f

  abbrev pub ◌>>◌ : Parse A → Parse B → Parse B
  m >> n = m >>= λ _. n

abbrev pub unless : Bool → Error → Parse (Unit {0})
unless test e r = if test then ok (tt, r) else err e

unfoldable pub bytes_n : ℕ → Parse (List ℕ)
bytes_n count r =
    if ltb (length r.bytes) (r.offset + count)
    then err truncated
    else ok (take count (drop r.offset r.bytes), record r { offset = r.offset + count })

unfoldable pub u8 : Parse ℕ
unfolding bytes_n ◌>>=◌ pure
u8 = do b ← bytes_n 1; pure (get_or b 0 0)

-- `|` on 32-bit patterns, and `>>> 0` reads the pattern as an unsigned number.
abbrev pub u32_of : List ℕ → ℕ
u32_of b =
    bit_or (bit_or (bit_or (get_or b 0 0) (get_or b 1 0 * 2 ^ 8)) (get_or b 2 0 * 2 ^ 16))
      (get_or b 3 0 * 2 ^ 24)
    % 2 ^ 32

unfoldable pub u32 : Parse ℕ
unfolding bytes_n ◌>>=◌ pure
u32 = do b ← bytes_n 4; pure (u32_of b)

-- The loop is the one of `bytesToNumberLE`.
unfoldable pub u64 : Parse ℕ
unfolding bytes_n ◌>>=◌ pure bytes_to_number_le
u64 = do b ← bytes_n 8; pure (bytes_to_number_le b)

abbrev pub u16_of : List ℕ → ℕ
u16_of b = bit_or (get_or b 0 0) (get_or b 1 0 * 2 ^ 8)

abbrev pub max_safe_integer : ℕ
max_safe_integer = 2 ^ 53 - 1

checked : ℕ → Parse ℕ
unfolding throw pure
checked value = if ltb max_safe_integer value then throw too_large else pure value

wide_var_int : ℕ → Parse ℕ
unfolding u32 u64 checked
wide_var_int first =
    if first == 0xfd
    then (do b ← bytes_n 2; pure (u16_of b))
    else if first == 0xfe
    then u32
    else do value ← u64; checked value

unfoldable pub var_int : Parse ℕ
unfolding u8 wide_var_int
var_int = do first ← u8; if ltb first 0xfd then pure first else wide_var_int first

unfoldable pub end : Parse (Unit {0})
end r = if r.offset == length r.bytes then ok (tt, r) else err trailing_bytes
