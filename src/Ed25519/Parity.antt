-- ===== src/Ed25519/Parity.antt =====
-- A curve of two points, on which the signature of ed25519.ts can be run.
use relay_settlement.Common.{
  ℕ, zero, suc, ◌+◌, ◌*◌, ◌/◌, ◌%◌, ◌≡◌, refl, sym, ap, ◌∙◌, List, [], ◌∷◌, Bool, true, false, not,
  Option, some, none, length, take, ◌==◌, if◌then◌else◌, arith,
}
use relay_settlement.Bytes.{bytes_to_number_le}
use relay_settlement.Ed25519.{Ed25519}
use relay_settlement.Ed25519.Verifies.{Group, IsCurve}

abbrev pub many : ℕ → ℕ → List ℕ
many zero c = []
many (suc n) c = c ∷ many n c

-- The point `true` is the base, and `false` the neutral point.
abbrev add : Bool → Bool → Bool
add true p = not p
add false p = p

abbrev multiply : ℕ → Bool → Bool
multiply zero p = false
multiply (suc n) p = add p (multiply n p)

abbrev encode : Bool → List ℕ
encode true = 1 ∷ many 31 0
encode false = 0 ∷ many 31 0

abbrev decode : List ℕ → Option Bool
decode [] = none
decode (b ∷ bytes) = if b == 0 then some false else some true

abbrev pub parity : Group
parity = record {
  Point = Bool;
  add = add;
  multiply = multiply;
  base = true;
  encode = encode;
  decode = decode;
}

abbrev pub parity_library : Ed25519
parity_library = record {
  order = 2;
  base_multiply_bytes = λ n. if n == 0 then none else some (encode (multiply n true));
  sha512 = λ m. 1 ∷ [];
  get_public_key = λ key. some (encode (multiply (bytes_to_number_le (take 32 key)) true));
}

add_assoc : (p q r : Bool) → add (add p q) r ≡ add p (add q r)
add_assoc true true true = refl
add_assoc true true false = refl
add_assoc true false r = refl
add_assoc false q r = refl

multiply_add : (a b : ℕ) (p : Bool) → multiply (a + b) p ≡ add (multiply a p) (multiply b p)
multiply_add zero b p = ap (λ n. multiply n p) (omega arith)
multiply_add (suc a) b p =
    let swap : suc a + b ≡ suc (a + b) = omega arith in
    ap (λ n. multiply n p) swap
    ∙ ap (λ q. add p q) (multiply_add a b p)
    ∙ sym (add_assoc p (multiply a p) (multiply b p))

multiply_multiply : (a b : ℕ) (p : Bool) → multiply (a * b) p ≡ multiply a (multiply b p)
multiply_multiply zero b p =
    let nothing : zero * b ≡ zero = omega arith in ap (λ n. multiply n p) nothing
multiply_multiply (suc a) b p =
    let split : suc a * b ≡ b + a * b = omega arith in
    ap (λ n. multiply n p) split
    ∙ multiply_add b (a * b) p
    ∙ ap (λ q. add (multiply b p) q) (multiply_multiply a b p)

twice : (p : Bool) → multiply 2 p ≡ false
twice true = refl
twice false = refl

multiply_order : (a : ℕ) → multiply (a % 2) true ≡ multiply a true
multiply_order a =
    let split : a ≡ 2 * (a / 2) + a % 2 = omega arith in
    sym (
      ap (λ n. multiply n true) split
      ∙ multiply_add (2 * (a / 2)) (a % 2) true
      ∙ ap (λ q. add q (multiply (a % 2) true))
          (multiply_multiply 2 (a / 2) true ∙ twice (multiply (a / 2) true)))

encode_size : (p : Bool) → length (encode p) ≡ 32
encode_size true = refl
encode_size false = refl

decode-encode : (p : Bool) → decode (encode p) ≡ some p
decode-encode true = refl
decode-encode false = refl

pub parity-IsCurve : IsCurve parity parity_library
parity-IsCurve = record {
  multiply_add = multiply_add;
  multiply_multiply = multiply_multiply;
  multiply_order = multiply_order;
  encode_size = encode_size;
  decode_encode = decode-encode;
  order_positive = omega arith;
  order_size = omega arith;
  base_multiply = λ n h k. ground arith;
  base_multiply_zero = refl;
  public_key = λ key. refl;
}
