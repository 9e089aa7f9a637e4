-- ===== src/Bytes.antt =====
-- The byte helpers of packages/lit-deposit-address/src/common/bytes.ts that are computed there:
-- little-endian numbers. Bytes are a list of numbers, and a bigint that is not negative a number.
pub mod LittleEndian
mod Tests
use relay_settlement.Common.{
  ℕ, zero, suc, ◌*◌, ◌/◌, ◌^◌, ◌<◌, List, [], ◌∷◌, bit_and, bit_or, Result, ok, err, ◌==◌,
  if◌then◌else◌,
}

abbrev pub IsByte : ℕ → Type 0
IsByte b = b < 256

pub data Misfit : Type 0 where
  does_not_fit : Misfit

-- What the loop has written, and what is left of the number behind it.
unfoldable pub le_loop : ℕ → ℕ → List ℕ × ℕ
le_loop zero current = ([], current)
le_loop (suc n) current =
    let (out, left) = le_loop n (current / 2 ^ 8) in (bit_and current 0xff ∷ out, left)

unfoldable pub number_to_bytes_le : ℕ → ℕ → Result Misfit (List ℕ)
unfolding le_loop
number_to_bytes_le value length =
    let (out, left) = le_loop length value in if left == 0 then ok out else err does_not_fit

-- The loop runs from the last byte down to the first.
unfoldable pub bytes_to_number_le : List ℕ → ℕ
bytes_to_number_le [] = 0
bytes_to_number_le (b ∷ bs) = bit_or (bytes_to_number_le bs * 2 ^ 8) b
