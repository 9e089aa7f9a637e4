-- ===== src/Ed25519/Verifies.antt =====
-- What a verifier of RFC 8032 asks of a signature of ed25519.ts.
use relay_settlement.Common.{
  ℕ, ◌+◌, ◌*◌, ◌%◌, ◌^◌, ◌≤◌, ◌<◌, ◌≡◌, refl, sym, ap, ◌∙◌, subst, subst₂, List, ◌++◌, Option, none,
  some, and_then-eq-ok, or_throw-eq-ok, ok_same, ◌⊎◌, inl, inr, ok, and_then, length, take, drop,
  take-append, drop-append, length-append, arith,
}
use relay_settlement.Bytes.{bytes_to_number_le}
use relay_settlement.Bytes.LittleEndian.{number_to_bytes_le_fits}
use relay_settlement.Ed25519.{Ed25519, SignFault, modulo_order, sign_ed25519_bip32}
use native.Mathlib.Nat.{mod-lt, lt_of_lt_of_le}

-- Points that are added and multiplied, and their encoding in 32 bytes.
pub record Group : Type 1 where
  pub Point : Type 0
  pub add : Point → Point → Point
  pub multiply : ℕ → Point → Point
  pub base : Point
  pub encode : Point → List ℕ
  pub decode : List ℕ → Option Point

-- The laws of the points, and the library as the arithmetic of these points.
pub record IsCurve (g : Group) (ed : Ed25519) : Type 0 where
  pub multiply_add :
      (a b : ℕ) (p : g.Point) → g.multiply (a + b) p ≡ g.add (g.multiply a p) (g.multiply b p)
  pub multiply_multiply :
      (a b : ℕ) (p : g.Point) → g.multiply (a * b) p ≡ g.multiply a (g.multiply b p)
  pub multiply_order : (a : ℕ) → g.multiply (a % ed.order) g.base ≡ g.multiply a g.base
  pub encode_size : (p : g.Point) → length (g.encode p) ≡ 32
  pub decode_encode : (p : g.Point) → g.decode (g.encode p) ≡ some p
  pub order_positive : 0 < ed.order
  pub order_size : ed.order ≤ 256 ^ 32
  pub base_multiply :
      (n : ℕ)
      → 0 < n
      → n < ed.order
      → ed.base_multiply_bytes n ≡ some (g.encode (g.multiply n g.base))
  pub base_multiply_zero : ed.base_multiply_bytes 0 ≡ none
  pub public_key :
      (key : List ℕ)
      → ed.get_public_key key
        ≡ some (g.encode (g.multiply (bytes_to_number_le (take 32 key)) g.base))

-- What a verifier computes from a message, a signature and a public key.
pub record Verifies (g : Group) (ed : Ed25519) (message signature public_key : List ℕ)
    : Type 0 where
  pub commitment : g.Point
  pub key : g.Point
  pub size : length signature ≡ 64
  pub commitment_decoded : g.decode (take 32 signature) ≡ some commitment
  pub key_decoded : g.decode public_key ≡ some key
  pub reduced : bytes_to_number_le (drop 32 signature) < ed.order
  pub equation :
      g.multiply (bytes_to_number_le (drop 32 signature)) g.base
      ≡ g.add commitment (
          g.multiply
            (modulo_order ed (ed.sha512 (take 32 signature ++ (public_key ++ message))))
            key)

some_same : {A : Type 0} {a b : A} → ◌≡◌ {A = Option A} (some a) (some b) → a ≡ b
some_same h = cc

module _ (g : Group) (ed : Ed25519) (curve : IsCurve g ed) where
  -- The two sides of the equation, for the secret `k`, the nonce `r` and the challenge `c`.
  equation_holds :
      (k r c : ℕ)
      → g.multiply ((r + c * (k % ed.order)) % ed.order) g.base
        ≡ g.add (g.multiply r g.base) (g.multiply c (g.multiply k g.base))
  equation_holds k r c =
      curve.multiply_order (r + c * (k % ed.order))
      ∙ curve.multiply_add r (c * (k % ed.order)) g.base
      ∙ ap (λ p. g.add (g.multiply r g.base) p)
          (curve.multiply_multiply c (k % ed.order) g.base
            ∙ ap (λ p. g.multiply c p) (curve.multiply_order k))

  Verifies-parts :
      (message : List ℕ) (k r : ℕ) (tail : List ℕ)
      → let encoded_r = g.encode (g.multiply r g.base) in
        let public_key = g.encode (g.multiply k g.base) in
        let c = modulo_order ed (ed.sha512 (encoded_r ++ (public_key ++ message))) in
        bytes_to_number_le tail ≡ (r + c * (k % ed.order)) % ed.order
        → length tail ≡ 32
        → Verifies g ed message (encoded_r ++ tail) public_key
  Verifies-parts message k r tail h size =
      let encoded_r = g.encode (g.multiply r g.base) in
      let public_key = g.encode (g.multiply k g.base) in
      let c = modulo_order ed (ed.sha512 (encoded_r ++ (public_key ++ message))) in
      let first : take 32 (encoded_r ++ tail) ≡ encoded_r =
        subst (λ n. take n (encoded_r ++ tail) ≡ encoded_r)
          (curve.encode_size (g.multiply r g.base)) (take-append encoded_r tail) in
      let second : drop 32 (encoded_r ++ tail) ≡ tail =
        subst (λ n. drop n (encoded_r ++ tail) ≡ tail) (curve.encode_size (g.multiply r g.base))
          (drop-append encoded_r tail) in
      let number : bytes_to_number_le (drop 32 (encoded_r ++ tail))
          ≡ (r + c * (k % ed.order)) % ed.order =
        ap (λ t. bytes_to_number_le t) second ∙ h in
      record {
        commitment = g.multiply r g.base;
        key = g.multiply k g.base;
        size = omega (arith, length-append encoded_r tail, curve.encode_size (g.multiply r g.base));
        commitment_decoded = ap (λ t. g.decode t) first ∙ curve.decode_encode (g.multiply r g.base);
        key_decoded = curve.decode_encode (g.multiply k g.base);
        reduced =
            subst (λ n. n < ed.order) (sym number)
              (mod-lt (r + c * (k % ed.order)) curve.order_positive);
        equation =
            ap (λ n. g.multiply n g.base) number
            ∙ equation_holds k r c
            ∙ ap
                (λ t. g.add (g.multiply r g.base) (
                  g.multiply (modulo_order ed (ed.sha512 (t ++ (public_key ++ message))))
                    (g.multiply k g.base)))
                (sym first);
      }

  module _ (message key : List ℕ) where
    -- The number that commits to the message: the secret half of the key is hashed with it.
    abbrev pub nonce : ℕ
    nonce = modulo_order ed (ed.sha512 (take 32 (drop 32 key) ++ message))

    -- Over a curve with these laws, and where the nonce is not zero, signing does not throw, and its
    -- signature of 64 bytes verifies for the message under the public key of the secret, with a
    -- second half that is reduced.
    pub sign_ed25519_bip32-Verifies :
        0 < nonce
        → (signature : List ℕ) × (public_key : List ℕ) × (sign_ed25519_bip32 ed message key
            ≡ ok signature)
          × (ed.get_public_key key ≡ some public_key)
          × Verifies g ed message signature public_key
    unfolding sign_ed25519_bip32 and_then modulo_order
    sign_ed25519_bip32-Verifies positive =
        let k = bytes_to_number_le (take 32 key) in
        let encoded_r = g.encode (g.multiply nonce g.base) in
        let public_key = g.encode (g.multiply k g.base) in
        let c = modulo_order ed (ed.sha512 (encoded_r ++ (public_key ++ message))) in
        let s = (nonce + c * (k % ed.order)) % ed.order in
        let reduced : nonce < ed.order =
          mod-lt (bytes_to_number_le (ed.sha512 (take 32 (drop 32 key) ++ message)))
            curve.order_positive in
        let below : s < ed.order = mod-lt (nonce + c * (k % ed.order)) curve.order_positive in
        let (tail, written, size, all, value) =
          number_to_bytes_le_fits s 32 (lt_of_lt_of_le below curve.order_size) in
        (
          encoded_r ++ tail,
          public_key,
          rw (curve.public_key key, curve.base_multiply nonce positive reduced, written) refl,
          curve.public_key key,
          Verifies-parts message k nonce tail value size,
        )

    zero_or_positive : (n : ℕ) → (n ≡ 0) ⊎ (0 < n)
    zero_or_positive n = ground arith

    absent : {A : Type 0} {a : A} {o : Option A} → o ≡ some a → o ≡ none → 1 ≤ 0
    absent h k = cc

    sign-positive :
        (signature : List ℕ) → sign_ed25519_bip32 ed message key ≡ ok signature → 0 < nonce
    unfolding sign_ed25519_bip32
    sign-positive signature h =
        let (public_key, e1, h1) = and_then-eq-ok _ _ h in
        let (encoded_r, e2, h2) = and_then-eq-ok _ _ h1 in
        elim (zero_or_positive nonce) [
          | inl z ↦ absurd (
              omega (
                arith,
                absent (or_throw-eq-ok SignFault.no_multiple _ _ e2)
                    (ap (λ n. ed.base_multiply_bytes n) z ∙ curve.base_multiply_zero),
              ))
          | inr p ↦ p
        ]

    -- Whatever the signing returns verifies.
    pub signed-Verifies :
        (signature public_key : List ℕ)
        → sign_ed25519_bip32 ed message key ≡ ok signature
        → ed.get_public_key key ≡ some public_key
        → Verifies g ed message signature public_key
    signed-Verifies signature public_key h e =
        let (signature', public_key', h', e', v) =
          sign_ed25519_bip32-Verifies (sign-positive signature h) in
        subst₂ (λ s p. Verifies g ed message s p) (ok_same (sym h' ∙ h)) (some_same (sym e' ∙ e)) v
