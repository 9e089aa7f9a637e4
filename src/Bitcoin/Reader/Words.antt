-- ===== src/Bitcoin/Reader/Words.antt =====
-- The words of the writers and of the reader.
use relay_settlement.Common.{
  ℕ, ◌+◌, ◌*◌, ◌/◌, ◌%◌, ◌^◌, ◌≤◌, ◌<◌, ◌≡◌, refl, ◌∙◌, List, [], ◌∷◌, arith, bit_and, length, All,
  bit_and_mask, bit_or_low_high, append-nil, ltb, leb, Bool-cases, inl, inr, lt→ltb, ltb→lt, false,
}
use relay_settlement.Bytes.{IsByte, bytes_to_number_le}
use relay_settlement.Bytes.LittleEndian.{bytes_to_number_le-le_loop}
use relay_settlement.Bitcoin.Reader
use relay_settlement.Bitcoin.Reader.{
  ◌>>=◌, pure, bytes_n, u8, u32, u32_of, u64, u16_of, max_safe_integer, checked, wide_var_int,
}
use relay_settlement.Bitcoin.Reader.Reads.{Reads, Reads-bytes_n, Reads-pure, Reads-bind, Reads-last}
use relay_settlement.Bitcoin.Codec.{concat, u32_le, u64_le, var_int}

pub Reads-u8 : (b : ℕ) → Reads u8 (b ∷ []) b
unfolding u8
Reads-u8 b = Reads-last (bytes_n 1) _ (b ∷ []) (b ∷ []) b (Reads-bytes_n (b ∷ [])) (Reads-pure b)

low_byte : (a : ℕ) → bit_and a 0xff ≡ a % 256
low_byte a = bit_and_mask 8 a

u32_of_bytes :
    (a b c d : ℕ)
    → All IsByte (a ∷ b ∷ c ∷ d ∷ [])
    → u32_of (a ∷ b ∷ c ∷ d ∷ []) ≡ a + b * 256 + c * 65536 + d * 16777216
u32_of_bytes a b c d h = ground (
  arith,
  bit_or_low_high 8 a b,
  bit_or_low_high 16 (a + b * 256) c,
  bit_or_low_high 24 (a + b * 256 + c * 65536) d,
)

u32_of-u32_le : (n : ℕ) → n < 2 ^ 32 → u32_of (u32_le n) ≡ n
unfolding u32_le
u32_of-u32_le n h =
    simp low_byte (u32_of_bytes (n % 2 ^ 32 % 256) _ _ _ (omega arith) ∙ omega arith)

length-u32_le : (n : ℕ) → length (u32_le n) ≡ 4
unfolding u32_le
length-u32_le n = refl

pub Reads-u32 : (n : ℕ) → n < 2 ^ 32 → Reads u32 (u32_le n) n
unfolding u32
Reads-u32 n h =
    Reads-last (bytes_n 4) _ (u32_le n) (u32_le n) n
      (rw (length-u32_le n) at (Reads-bytes_n (u32_le n))) (rw (u32_of-u32_le n h) (Reads-pure n))

length-u64_le : (n : ℕ) → length (u64_le n) ≡ 8
unfolding u64_le
length-u64_le n = refl

bytes_to_number_le-u64_le : (n : ℕ) → n < 2 ^ 64 → bytes_to_number_le (u64_le n) ≡ n
unfolding u64_le
bytes_to_number_le-u64_le n h = bytes_to_number_le-le_loop 8 n h

pub Reads-u64 : (n : ℕ) → n < 2 ^ 64 → Reads u64 (u64_le n) n
unfolding u64
Reads-u64 n h =
    Reads-last (bytes_n 8) _ (u64_le n) (u64_le n) n
      (rw (length-u64_le n) at (Reads-bytes_n (u64_le n)))
      (rw (bytes_to_number_le-u64_le n h) (Reads-pure n))

-- The compact size of `v`, by the width that its size asks for.
var_int_1 : (v : ℕ) → v < 0xfd → Reads Reader.var_int (v ∷ []) v
unfolding Reader.var_int
var_int_1 v h = Reads-last u8 _ (v ∷ []) v v (Reads-u8 v) (rw (lt→ltb v 0xfd h) (Reads-pure v))

-- A first byte from 0xfd on says how many bytes follow.
var_int_wide :
    (first v : ℕ) (xs : List ℕ)
    → ltb first 0xfd ≡ false
    → Reads (wide_var_int first) xs v
    → Reads Reader.var_int (first ∷ xs) v
unfolding Reader.var_int
var_int_wide first v xs t h = Reads-bind u8 _ (first ∷ []) xs first v (Reads-u8 first) (rw t h)

u16_of_bytes : (v : ℕ) → v ≤ 0xffff → u16_of (bit_and v 0xff ∷ bit_and (v / 2 ^ 8) 0xff ∷ []) ≡ v
u16_of_bytes v h =
    simp low_byte (bit_or_low_high 8 (v % 256) (v / 256 % 256) (omega arith) ∙ omega arith)

var_int_3 :
    (v : ℕ)
    → v ≤ 0xffff
    → Reads (wide_var_int 0xfd) (bit_and v 0xff ∷ bit_and (v / 2 ^ 8) 0xff ∷ []) v
unfolding wide_var_int
var_int_3 v h =
    let b : List ℕ = bit_and v 0xff ∷ bit_and (v / 2 ^ 8) 0xff ∷ [] in
    Reads-last (bytes_n 2) _ b b v (Reads-bytes_n b) (rw (u16_of_bytes v h) (Reads-pure v))

var_int_5 : (v : ℕ) → v < 2 ^ 32 → Reads (wide_var_int 0xfe) (u32_le v) v
unfolding wide_var_int
var_int_5 v h = Reads-u32 v h

checked_lem : (v : ℕ) → v ≤ max_safe_integer → checked v ≡ pure v
unfolding checked
checked_lem v h = ground arith

var_int_9 : (v : ℕ) → v ≤ max_safe_integer → Reads (wide_var_int 0xff) (u64_le v) v
unfolding wide_var_int
var_int_9 v h =
    Reads-last u64 checked (u64_le v) v v (Reads-u64 v (omega arith))
      (rw (checked_lem v h) (Reads-pure v))

pub Reads-var_int : (v : ℕ) → v ≤ max_safe_integer → Reads Reader.var_int (var_int v) v
unfolding var_int concat
Reads-var_int v h = elim (Bool-cases (ltb v 0xfd)) [
  | inl one ↦ rw one (var_int_1 v (ltb→lt v 0xfd one))
  | inr more ↦ rw more (elim (Bool-cases (leb v 0xffff)) [
    | inl three ↦ rw three (var_int_wide 0xfd v _ refl (var_int_3 v (ground arith)))
    | inr more' ↦ rw more' (elim (Bool-cases (leb v 0xffff_ffff)) [
      | inl five ↦ rw (five, append-nil) (var_int_wide 0xfe v _ refl (var_int_5 v (ground arith)))
      | inr nine ↦ rw (nine, append-nil) (var_int_wide 0xff v _ refl (var_int_9 v h))
    ])
  ])
]

pub var_int-zero : var_int 0 ≡ 0 ∷ []
unfolding var_int
var_int-zero = refl
