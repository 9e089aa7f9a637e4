-- ===== src/Hyperliquid/Amount/Value.antt =====
-- The value of a decimal text, for `rawAmount`.
use relay_settlement.Common.{
  ℕ, zero, suc, ◌+◌, ◌-◌, ◌*◌, ◌^◌, ◌≡◌, ◌≤◌, Bool-cases, inl, inr, refl, sym, ap, ap₂, ◌∙◌, [],
  ◌∷◌, ◌++◌, true, false, none, some, ok, err, length, length-append, ltb, ◌==◌, if◌then◌else◌,
  arith,
}
use relay_settlement.Host.{natural_big_int, Text, Host}
use relay_settlement.Hyperliquid.Amount.{
  AmountError, all_digits, before_dot, after_dot, is_unsigned_decimal, zero_digits, pad_end,
  raw_amount,
}
use native.Mathlib.Nat.{pow-succ', one-mul, zero-mul, mul_assoc, add-mul}

-- The value of digits, each times its power of ten.
abbrev pub value : Text → ℕ
value [] = 0
value (c ∷ cs) = (c - 48) * 10 ^ length cs + value cs

power_add : (m n : ℕ) → 10 ^ (m + n) ≡ 10 ^ m * 10 ^ n
power_add zero n =
    let same : zero + n ≡ n = omega arith in ap (λ k. 10 ^ k) same ∙ sym (one-mul (10 ^ n))
power_add (suc m) n =
    let swap : suc m + n ≡ suc (m + n) = omega arith in
    ap (λ k. 10 ^ k) swap
    ∙ pow-succ' 10 (m + n)
    ∙ ap (λ p. 10 * p) (power_add m n)
    ∙ sym (mul_assoc 10 (10 ^ m) (10 ^ n))
    ∙ ap (λ p. p * 10 ^ n) (sym (pow-succ' 10 m))

-- One digit in front.
digit_front : (d n m v w : ℕ) → d * 10 ^ (n + m) + (v * 10 ^ m + w) ≡ (d * 10 ^ n + v) * 10 ^ m + w
digit_front d n m v w =
    let product : d * 10 ^ (n + m) ≡ d * 10 ^ n * 10 ^ m =
      ap (λ p. d * p) (power_add n m) ∙ sym (mul_assoc d (10 ^ n) (10 ^ m)) in
    omega (arith, product, add-mul (d * 10 ^ n) v (10 ^ m))

value-append : (xs ys : Text) → value (xs ++ ys) ≡ value xs * 10 ^ length ys + value ys
value-append [] ys = omega (arith, zero-mul (10 ^ length ys))
value-append (c ∷ xs) ys =
    ap₂ (λ n v. (c - 48) * 10 ^ n + v) (length-append xs ys) (value-append xs ys)
    ∙ digit_front (c - 48) (length xs) (length ys) (value xs) (value ys)

zeros_value : (n : ℕ) → (value (zero_digits n) ≡ 0) × (length (zero_digits n) ≡ n)
unfolding zero_digits
zeros_value zero = (refl, refl)
zeros_value (suc n) =
    let (v, l) = zeros_value n in
    (omega (arith, v, zero-mul (10 ^ length (zero_digits n))), omega (arith, l))

zeros_digits : (n : ℕ) → all_digits (zero_digits n) ≡ true
unfolding zero_digits
zeros_digits zero = refl
zeros_digits (suc n) = zeros_digits n

digits-append :
    (xs ys : Text) → all_digits xs ≡ true → all_digits ys ≡ true → all_digits (xs ++ ys) ≡ true
digits-append [] ys h k = k
digits-append (c ∷ xs) ys h k = ground (arith, digits-append xs ys)

-- Digits have no dot.
cut_digits : (ws : Text) → all_digits ws ≡ true → (before_dot ws ≡ ws) × (after_dot ws ≡ none)
unfolding before_dot after_dot
cut_digits [] h = (refl, refl)
cut_digits (c ∷ ws) h =
    let (p, q) = cut_digits ws (ground arith) in
    let other : (c == b'.') ≡ false = ground arith in (rw (other) (ap (λ t. c ∷ t) p), rw (other) q)

cut_at_dot :
    (ws fs : Text)
    → all_digits ws ≡ true
    → (before_dot (ws ++ (b'.' ∷ fs)) ≡ ws) × (after_dot (ws ++ (b'.' ∷ fs)) ≡ some fs)
unfolding before_dot after_dot
cut_at_dot [] fs h = (refl, refl)
cut_at_dot (c ∷ ws) fs h =
    let (p, q) = cut_at_dot ws fs (ground arith) in
    let other : (c == b'.') ≡ false = ground arith in (rw (other) (ap (λ t. c ∷ t) p), rw (other) q)

padded_value :
    (ws fs : Text) (d : ℕ)
    → length fs ≤ d
    → value (ws ++ pad_end fs d) ≡ value ws * 10 ^ d + value fs * 10 ^ (d - length fs)
unfolding pad_end
padded_value ws fs d h =
    let (v, l) = zeros_value (d - length fs) in
    let zeros = zero_digits (d - length fs) in
    let size : length (fs ++ zeros) ≡ d = omega (arith, length-append fs zeros, l) in
    let inner : value (fs ++ zeros) ≡ value fs * 10 ^ (d - length fs) =
      value-append fs zeros ∙ ap₂ (λ n m. value fs * 10 ^ n + m) l v ∙ omega arith in
    value-append ws (fs ++ zeros) ∙ ap₂ (λ n m. value ws * 10 ^ n + m) size inner

-- `BigInt` of digits.
pub record ReadsDigits (host : Host) : Type 0 where
  pub reads :
      (c : ℕ) (ds : Text)
      → all_digits (c ∷ ds) ≡ true
      → natural_big_int host (c ∷ ds) ≡ some (value (c ∷ ds))

module _ (host : Host) (numerals : ReadsDigits host) (w : ℕ) (ws : Text)
    (whole : all_digits (w ∷ ws) ≡ true) where
  read_padded :
      (fs : Text) (d : ℕ)
      → all_digits fs ≡ true
      → length fs ≤ d
      → natural_big_int host ((w ∷ ws) ++ pad_end fs d)
        ≡ some (value (w ∷ ws) * 10 ^ d + value fs * 10 ^ (d - length fs))
  unfolding pad_end
  read_padded fs d h k =
      numerals.reads w (ws ++ (fs ++ zero_digits (d - length fs))) (
        digits-append (w ∷ ws) (fs ++ zero_digits (d - length fs)) whole
          (digits-append fs (zero_digits (d - length fs)) h (zeros_digits (d - length fs))))
      ∙ ap some (padded_value (w ∷ ws) fs d k)

  plain_amount : (d : ℕ) → raw_amount host (w ∷ ws) d ≡ ok (value (w ∷ ws) * 10 ^ d)
  unfolding raw_amount is_unsigned_decimal
  plain_amount d =
      let (before, after) = cut_digits (w ∷ ws) whole in
      let nothing : value (w ∷ ws) * 10 ^ d + 0 * 10 ^ (d - 0) ≡ value (w ∷ ws) * 10 ^ d =
        omega (arith, zero-mul (10 ^ (d - 0))) in
      let enough : ltb d 0 ≡ false = ground arith in
      rw (before, after, whole, enough, read_padded [] d refl (omega arith)) (ap ok nothing)

  -- A decimal text is read as its value in the smallest unit: the whole part times ten to the
  -- decimals, plus the fraction times ten to the decimals that it leaves; a fraction with more digits
  -- than decimals is refused, and a text without a fraction is its whole part.
  pub raw_amount-value :
      (f : ℕ) (fs : Text) (d : ℕ)
      → all_digits (f ∷ fs) ≡ true
      → (raw_amount host ((w ∷ ws) ++ (b'.' ∷ f ∷ fs)) d ≡ (
          if ltb d (length (f ∷ fs))
          then err AmountError.too_many_decimals
          else ok (value (w ∷ ws) * 10 ^ d + value (f ∷ fs) * 10 ^ (d - length (f ∷ fs)))))
        × (raw_amount host (w ∷ ws) d ≡ ok (value (w ∷ ws) * 10 ^ d))
  unfolding raw_amount is_unsigned_decimal
  raw_amount-value f fs d h =
      let (before, after) = cut_at_dot (w ∷ ws) (f ∷ fs) whole in
      (
        elim (Bool-cases (ltb d (length (f ∷ fs)))) [
          | inl b ↦ rw (before, after, whole, h, b) refl
          | inr b ↦ rw (before, after, whole, h, b, read_padded (f ∷ fs) d h (ground arith)) refl
        ],
        plain_amount d,
      )
