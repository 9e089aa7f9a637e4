-- ===== src/Bitcoin/Codec.antt =====
-- The writers of transaction.ts: little-endian words and the compact size.
use relay_settlement.Common.{
  ℕ, ◌-◌, ◌/◌, ◌%◌, ◌^◌, List, [], ◌∷◌, ◌++◌, bit_and, ltb, leb, if◌then◌else◌,
}
use relay_settlement.Common.Int.{ℤ, pos, negsuc}
use relay_settlement.Bytes.{le_loop}

unfoldable pub concat : List (List ℕ) → List ℕ
concat [] = []
concat (part ∷ parts) = part ++ concat parts

-- `n >>> k` reads the low 32 bits of `n`.
unfoldable pub u32_le : ℕ → List ℕ
u32_le n =
    let w = n % 2 ^ 32 in
    bit_and w 0xff
    ∷ bit_and (w / 2 ^ 8) 0xff
    ∷ bit_and (w / 2 ^ 16) 0xff
    ∷ bit_and (w / 2 ^ 24) 0xff
    ∷ []

unfoldable pub u64_le : ℕ → List ℕ
unfolding le_loop
u64_le n = (le_loop 8 n).0

-- A BigInt that is negative is written in two's complement.
unfoldable pub u64_le_int : ℤ → List ℕ
unfolding u64_le
u64_le_int (pos n) = u64_le n
u64_le_int (negsuc n) = u64_le (2 ^ 64 - 1 - n % 2 ^ 64)

unfoldable pub var_int : ℕ → List ℕ
unfolding concat u32_le u64_le
var_int v =
    if ltb v 0xfd
    then v ∷ []
    else if leb v 0xffff
    then 0xfd ∷ bit_and v 0xff ∷ bit_and (v / 2 ^ 8) 0xff ∷ []
    else if leb v 0xffff_ffff
    then concat ((0xfe ∷ []) ∷ u32_le v ∷ [])
    else concat ((0xff ∷ []) ∷ u64_le v ∷ [])
