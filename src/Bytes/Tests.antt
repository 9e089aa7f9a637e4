-- ===== src/Bytes/Tests.antt =====
-- The theorems on the little-endian helpers at concrete inputs.
use relay_settlement.Common.{ℕ, ◌≡◌, List, [], ◌∷◌, arith, ok, err, length, All}
use relay_settlement.Bytes.{IsByte, does_not_fit, number_to_bytes_le, bytes_to_number_le}
use relay_settlement.Bytes.LittleEndian.{
  number_to_bytes_le_fits, number_to_bytes_le_misfit, number_to_bytes_le-bytes_to_number_le,
}

number_to_bytes_le_fits_example :
    (bs : List ℕ) × (number_to_bytes_le 1000 2 ≡ ok bs)
    × (length bs ≡ 2)
    × All IsByte bs
    × (bytes_to_number_le bs ≡ 1000)
number_to_bytes_le_fits_example = number_to_bytes_le_fits 1000 2 (omega arith)

number_to_bytes_le_misfit_example : number_to_bytes_le 65536 2 ≡ err does_not_fit
number_to_bytes_le_misfit_example = number_to_bytes_le_misfit 65536 2 (omega arith)

number_to_bytes_le-bytes_to_number_le_example :
    number_to_bytes_le (bytes_to_number_le (232 ∷ 3 ∷ [])) 2 ≡ ok (232 ∷ 3 ∷ [])
number_to_bytes_le-bytes_to_number_le_example =
    number_to_bytes_le-bytes_to_number_le (232 ∷ 3 ∷ []) (omega arith)
