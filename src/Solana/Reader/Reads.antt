-- ===== src/Solana/Reader/Reads.antt =====
-- What a method of the reader takes from the front of its bytes, whatever follows.
use relay_settlement.Common.{
  ℕ, zero, suc, ◌+◌, ◌*◌, ◌/◌, ◌%◌, ◌^◌, ◌<◌, ◌≡◌, refl, ◌∙◌, List, [], ◌∷◌, ◌++◌, append_assoc,
  Bool, true, false, ◌&&◌, arith, ok, length, length-append, take-append, drop-append, ltb, ◌==◌,
  bit_and, bit_and_mask, bit_or_low_high, if◌then◌else◌, Bool-cases, inl, inr, ltb→lt, lt→ltb, All,
  subst,
}
use relay_settlement.Solana.Reader.{
  Parse, pure, ◌>>=◌, read, read_byte, skip, second_round, third_round, read_short_u16, repeat,
}

-- `m` takes `xs` and returns `a`.
abbrev pub Reads {ℓ} : {A : Type ℓ} → Parse A → List ℕ → A → Type ℓ
Reads m xs a = (rest : List ℕ) → m (xs ++ rest) ≡ ok (a, rest)

pub Reads-read : (xs : List ℕ) → Reads (read (length xs)) xs xs
unfolding read
Reads-read xs rest =
    ground (arith, length-append {0} xs rest, take-append xs rest, drop-append xs rest)

pub Reads-skip : (xs : List ℕ) → Reads (skip (length xs)) xs tt
unfolding skip
Reads-skip xs rest = ground (arith, length-append {0} xs rest, drop-append xs rest)

pub Reads-read_byte : (b : ℕ) → Reads read_byte (b ∷ []) b
unfolding read_byte
Reads-read_byte b rest = refl

module _ {ℓ} {A : Type ℓ} where
  pub Reads-pure : (a : A) → Reads (pure a) [] a
  unfolding pure
  Reads-pure a rest = refl

module _ {ℓ κ} {A : Type ℓ} {B : Type κ} where
  pub Reads-bind :
      (m : Parse A) (f : A → Parse B) (xs ys : List ℕ) (a : A) (b : B)
      → Reads m xs a
      → Reads (f a) ys b
      → Reads (m >>= f) (xs ++ ys) b
  unfolding ◌>>=◌
  Reads-bind m f xs ys a b hm hf rest = rw append_assoc (rw (hm (ys ++ rest)) (hf rest))

  pub Reads-last :
      (m : Parse A) (f : A → Parse B) (xs : List ℕ) (a : A) (b : B)
      → Reads m xs a
      → Reads (f a) [] b
      → Reads (m >>= f) xs b
  unfolding ◌>>=◌
  Reads-last m f xs a b hm hf rest = rw (hm rest) (hf rest)

-- The bytes of each item in turn.
module _ {A : Type 0} (encode : A → List ℕ) where
  abbrev pub encode_all : List A → List ℕ
  encode_all [] = []
  encode_all (x ∷ xs) = encode x ++ encode_all xs

  pub Reads-repeat :
      (m : Parse A) (xs : List A)
      → All (λ x. Reads m (encode x) x) xs
      → Reads (repeat (length xs) m) (encode_all xs) xs
  unfolding repeat
  Reads-repeat m [] h = Reads-pure []
  Reads-repeat m (x ∷ xs) h = Reads-bind m _ (encode x) (encode_all xs) x (x ∷ xs) h.0 (
      Reads-last (repeat (length xs) m) _ (encode_all xs) xs (x ∷ xs) (Reads-repeat m xs h.1)
        (Reads-pure (x ∷ xs)))

-- The marks of a byte, over all bytes.
holds_to : (ℕ → Bool) → ℕ → Bool
holds_to test zero = true
holds_to test (suc top) = holds_to test top && test top

holds_to_at : (test : ℕ → Bool) (top b : ℕ) → b < top → holds_to test top ≡ true → test b ≡ true
unfolding holds_to
holds_to_at test zero b small h = absurd (omega arith)
holds_to_at test (suc top) b small h = ground (arith, holds_to_at test top b)

abbrev same_bool : Bool → Bool → Bool
same_bool true b = b
same_bool false true = false
same_bool false false = true

same_bool_eq : (a b : Bool) → same_bool a b ≡ true → a ≡ b
same_bool_eq true true h = refl
same_bool_eq true false h = absurd (cc)
same_bool_eq false true h = absurd (cc)
same_bool_eq false false h = refl

top_bit_table : holds_to (λ b. same_bool (bit_and b 0x80 == 0) (ltb b 128)) 256 ≡ true
unfolding holds_to
top_bit_table = refl

pub top_bit : (b : ℕ) → b < 256 → (bit_and b 0x80 == 0) ≡ ltb b 128
top_bit b h = same_bool_eq _ _ (holds_to_at _ 256 b h top_bit_table)

high_bits_table : holds_to (λ b. same_bool (bit_and b 0xfc == 0) (ltb b 4)) 256 ≡ true
unfolding holds_to
high_bits_table = refl

pub high_bits : (b : ℕ) → b < 256 → (bit_and b 0xfc == 0) ≡ ltb b 4
high_bits b h = same_bool_eq _ _ (holds_to_at _ 256 b h high_bits_table)

pub low_bits : (b : ℕ) → bit_and b 0x7f ≡ b % 128
low_bits b = bit_and_mask 7 b

-- Seven bits to a byte, the lowest first; the high bit of a byte says that another follows.
unfoldable pub encode_short_u16 : ℕ → List ℕ
encode_short_u16 v =
    if ltb v 128
    then v ∷ []
    else if ltb v 16384
    then (v % 128 + 128) ∷ (v / 128) ∷ []
    else (v % 128 + 128) ∷ (v / 128 % 128 + 128) ∷ (v / 16384) ∷ []

Reads-third_round :
    (value b : ℕ) → value < 16384 → b < 4 → Reads (third_round value) (b ∷ []) (value + b * 2 ^ 14)
unfolding third_round ◌>>=◌ read_byte pure
Reads-third_round value b hv hb rest =
    rw (high_bits b (omega arith), lt→ltb b 4 hb, bit_or_low_high 14 value b hv)

-- A second byte, with or without the high bit.
Reads-second_last :
    (value b : ℕ) → value < 128 → b < 128 → Reads (second_round value) (b ∷ []) (value + b * 2 ^ 7)
unfolding second_round ◌>>=◌ read_byte pure
Reads-second_last value b hv hb rest =
    let group : bit_and b 0x7f ≡ b = low_bits b ∙ omega arith in
    rw (top_bit b (omega arith), lt→ltb b 128 hb, group, bit_or_low_high 7 value b hv)

Reads-second_more :
    (value g c : ℕ)
    → value < 128
    → g < 128
    → c < 4
    → Reads (second_round value) ((g + 128) ∷ c ∷ []) (value + g * 2 ^ 7 + c * 2 ^ 14)
unfolding second_round ◌>>=◌ read_byte
Reads-second_more value g c hv hg hc rest =
    let more : (bit_and (g + 128) 0x80 == 0) ≡ false =
      top_bit (g + 128) (omega arith) ∙ ground arith in
    let group : bit_and (g + 128) 0x7f ≡ g = low_bits (g + 128) ∙ omega arith in
    rw (more, group, bit_or_low_high 7 value g hv)
      (Reads-third_round (value + g * 2 ^ 7) c (omega arith) hc rest)

-- A first byte with the high bit leaves the rest to the second round.
Reads-first_more :
    (g : ℕ) (xs : List ℕ) (v : ℕ)
    → g < 128
    → Reads (second_round g) xs v
    → Reads read_short_u16 ((g + 128) ∷ xs) v
unfolding read_short_u16 ◌>>=◌ read_byte
Reads-first_more g xs v hg h rest =
    let more : (bit_and (g + 128) 0x80 == 0) ≡ false =
      top_bit (g + 128) (omega arith) ∙ ground arith in
    let group : bit_and (g + 128) 0x7f ≡ g = low_bits (g + 128) ∙ omega arith in
    rw (more, group) (h rest)

Reads-one_byte : (v : ℕ) → v < 128 → Reads read_short_u16 (v ∷ []) v
unfolding read_short_u16 ◌>>=◌ read_byte pure
Reads-one_byte v h rest =
    let group : bit_and v 0x7f ≡ v = low_bits v ∙ omega arith in
    rw (top_bit v (omega arith), lt→ltb v 128 h, group)

pub Reads-encode_short_u16 : (v : ℕ) → v < 65536 → Reads read_short_u16 (encode_short_u16 v) v
unfolding encode_short_u16
Reads-encode_short_u16 v h = elim (Bool-cases (ltb v 128)) [
  | inl one ↦ rw one (Reads-one_byte v (ltb→lt v 128 one))
  | inr more ↦ rw more (elim (Bool-cases (ltb v 16384)) [
    | inl two ↦ rw two (
        subst (Reads read_short_u16 ((v % 128 + 128) ∷ (v / 128) ∷ [])) (omega arith) (
          Reads-first_more (v % 128) ((v / 128) ∷ []) _ (omega arith)
            (Reads-second_last (v % 128) (v / 128) (omega arith) (ground arith))))
    | inr three ↦ rw three (
        subst (Reads read_short_u16 ((v % 128 + 128) ∷ (v / 128 % 128 + 128) ∷ (v / 16384) ∷ []))
          (omega arith)
          (Reads-first_more (v % 128) ((v / 128 % 128 + 128) ∷ (v / 16384) ∷ []) _ (omega arith) (
            Reads-second_more (v % 128) (v / 128 % 128) (v / 16384) (omega arith) (omega arith)
              (omega arith))))
  ])
]
