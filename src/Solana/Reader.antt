-- ===== src/Solana/Reader.antt =====
-- The class `ByteReader`. The reader is the bytes from its offset on, and a method gives its result
-- and the bytes behind it; the texts of the errors are left out.
pub mod Reads
use relay_settlement.Common.{
  ℕ, zero, suc, ◌+◌, ◌*◌, ◌^◌, List, [], ◌∷◌, Bool, bit_and, bit_or, not, Result, ok, err, length,
  take, drop, ltb, ◌==◌, if◌then◌else◌,
}

pub data Error : Type 0 where
  empty_message truncated bad_shortvec unsupported_version transaction_count signer_count
        instruction_count sender_slot not_hex not_32_bytes bad_base64 bad_big_int
        outside_static_keys program_mismatch args_length discriminator account_count
        depositor_mismatch mint_mismatch amount_mismatch id_mismatch wrong_slot signing_failed :
      Error

abbrev pub Parse {ℓ} : Type ℓ → Type ℓ
Parse A = List ℕ → Result Error (A × List ℕ)

module _ {ℓ} {A : Type ℓ} where
  unfoldable pub pure : A → Parse A
  pure a bytes = ok (a, bytes)

  unfoldable pub throw : Error → Parse A
  throw e bytes = err e

module _ {ℓ κ} {A : Type ℓ} {B : Type κ} where
  abbrev next : Result Error (A × List ℕ) → (A → Parse B) → Result Error (B × List ℕ)
  next (ok (a, rest)) f = f a rest
  next (err e) f = err e

  infixl 10 ◌>>=◌ ◌>>◌
  unfoldable pub ◌>>=◌ : Parse A → (A → Parse B) → Parse B
  ◌>>=◌ m f bytes = next (m bytes) f

  abbrev pub ◌>>◌ : Parse A → Parse B → Parse B
  m >> n = m >>= λ _. n

unfoldable pub read : ℕ → Parse (List ℕ)
read n bytes = if ltb (length bytes) n then err Error.truncated else ok (take n bytes, drop n bytes)

unfoldable pub read_byte : Parse ℕ
read_byte [] = err Error.truncated
read_byte (b ∷ bytes) = ok (b, bytes)

unfoldable pub skip : ℕ → Parse (Unit {0})
skip n bytes = if ltb (length bytes) n then err Error.truncated else ok (tt, drop n bytes)

-- The three rounds of the loop.
third_round : ℕ → Parse ℕ
unfolding ◌>>=◌ pure throw read_byte
third_round value = do
  b ← read_byte
  if not (bit_and b 0xfc == 0) then throw Error.bad_shortvec else pure (bit_or value (b * 2 ^ 14))

second_round : ℕ → Parse ℕ
unfolding ◌>>=◌ pure read_byte third_round
second_round value = do
  b ← read_byte
  let value' = bit_or value (bit_and b 0x7f * 2 ^ 7)
  if bit_and b 0x80 == 0 then pure value' else third_round value'

unfoldable pub read_short_u16 : Parse ℕ
unfolding ◌>>=◌ pure read_byte second_round
read_short_u16 = do
  b ← read_byte
  if bit_and b 0x80 == 0 then pure (bit_and b 0x7f) else second_round (bit_and b 0x7f)

unfoldable pub repeat {ℓ} : {A : Type ℓ} → ℕ → Parse A → Parse (List A)
repeat zero m = pure []
repeat (suc n) m = do x ← m; xs ← repeat n m; pure (x ∷ xs)
