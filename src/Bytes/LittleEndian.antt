-- ===== src/Bytes/LittleEndian.antt =====
-- The two directions of the little-endian helpers.
use relay_settlement.Common.{
  ℕ, zero, suc, ◌+◌, ◌*◌, ◌/◌, ◌%◌, ◌^◌, ◌<◌, ◌≡◌, refl, List, [], ◌∷◌, bit_and, arith, ok, err,
  ◌≤◌, ◌∙◌, length, All, ap, bit_or_high_low, bit_and_mask,
}
use relay_settlement.Bytes.{IsByte, does_not_fit, le_loop, number_to_bytes_le, bytes_to_number_le}
use native.Mathlib.Nat.{pow-suc}

-- The number that bytes stand for, in plain arithmetic.
abbrev pub value_of : List ℕ → ℕ
value_of [] = 0
value_of (b ∷ bs) = b + 256 * value_of bs

pub bytes_to_number_le-eq-value_of :
    (bs : List ℕ) → All IsByte bs → bytes_to_number_le bs ≡ value_of bs
unfolding bytes_to_number_le
bytes_to_number_le-eq-value_of [] h = refl
bytes_to_number_le-eq-value_of (b ∷ bs) h =
    ground
      (arith, bit_or_high_low 8 (bytes_to_number_le bs) b, bytes_to_number_le-eq-value_of bs h.1)

pub value_of-lt : (bs : List ℕ) → All IsByte bs → value_of bs < 256 ^ length bs
value_of-lt [] h = omega arith
value_of-lt (b ∷ bs) h = omega (arith, value_of-lt bs h.1, pow-suc 256 (length bs))

low_byte : (a : ℕ) → bit_and a 0xff ≡ a % 256
low_byte a = bit_and_mask 8 a

-- The loop writes bytes, and they stand for the number up to what is left.
pub le_loop_lem :
    (n v : ℕ)
    → All IsByte (le_loop n v).0
      × (length (le_loop n v).0 ≡ n)
      × (value_of (le_loop n v).0 + 256 ^ n * (le_loop n v).1 ≡ v)
unfolding le_loop
le_loop_lem zero v = omega arith
le_loop_lem (suc n) v =
    let (all, len, sum) = le_loop_lem n (v / 256) in
    (
      (omega (arith, low_byte v), all),
      omega arith,
      omega (arith, low_byte v, ap (λ (t : ℕ). t * (le_loop n (v / 256)).1) (pow-suc 256 n)),
    )

-- Cutting one byte off.
head_byte : (b n : ℕ) → b < 256 → (bit_and (b + 256 * n) 0xff ≡ b) × ((b + 256 * n) / 256 ≡ n)
head_byte b n h = omega (arith, low_byte (b + 256 * n))

pub le_loop-value_of : (bs : List ℕ) → All IsByte bs → le_loop (length bs) (value_of bs) ≡ (bs, 0)
unfolding le_loop
le_loop-value_of [] h = refl
le_loop-value_of (b ∷ bs) h =
    let (low, high) = head_byte b (value_of bs) h.0 in rw (low, high, le_loop-value_of bs h.1)

quotient_zero : (p a l v : ℕ) → a + p * l ≡ v → v < p → l ≡ 0
quotient_zero p a zero v e h = refl
quotient_zero p a (suc l) v e h = absurd (omega arith)

-- Below `256 ^ n` the loop leaves nothing.
pub le_loop_left : (n v : ℕ) → v < 256 ^ n → (le_loop n v).1 ≡ 0
le_loop_left n v h =
    quotient_zero (256 ^ n) (value_of (le_loop n v).0) (le_loop n v).1 v (le_loop_lem n v).2 h

pub bytes_to_number_le-le_loop : (n v : ℕ) → v < 256 ^ n → bytes_to_number_le (le_loop n v).0 ≡ v
bytes_to_number_le-le_loop n v h =
    let (all, len, sum) = le_loop_lem n v in
    let exact : value_of (le_loop n v).0 + 256 ^ n * 0 ≡ v = rw (le_loop_left n v h) at sum in
    bytes_to_number_le-eq-value_of (le_loop n v).0 all ∙ omega arith

-- A number below `256 ^ n` is written as `n` bytes, and reading these gives the number back.
pub number_to_bytes_le_fits :
    (v n : ℕ)
    → v < 256 ^ n
    → (bs : List ℕ) × (number_to_bytes_le v n ≡ ok bs)
      × (length bs ≡ n)
      × All IsByte bs
      × (bytes_to_number_le bs ≡ v)
unfolding number_to_bytes_le
number_to_bytes_le_fits v n h =
    let (all, len, sum) = le_loop_lem n v in
    ((le_loop n v).0, rw (le_loop_left n v h), len, all, bytes_to_number_le-le_loop n v h)

-- A number that needs more than `n` bytes is refused.
pub number_to_bytes_le_misfit : (v n : ℕ) → 256 ^ n ≤ v → number_to_bytes_le v n ≡ err does_not_fit
unfolding number_to_bytes_le
number_to_bytes_le_misfit v n h =
    let (all, len, sum) = le_loop_lem n v in
    let bound : value_of (le_loop n v).0 < 256 ^ n = rw len at (value_of-lt (le_loop n v).0 all) in
    ground (arith, sum, bound)

-- Bytes that were read as a number are written back as they were.
pub number_to_bytes_le-bytes_to_number_le :
    (bs : List ℕ) → All IsByte bs → number_to_bytes_le (bytes_to_number_le bs) (length bs) ≡ ok bs
unfolding number_to_bytes_le
number_to_bytes_le-bytes_to_number_le bs h =
    rw (bytes_to_number_le-eq-value_of bs h, le_loop-value_of bs h)
