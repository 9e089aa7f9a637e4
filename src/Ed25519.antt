-- ===== src/Ed25519.antt =====
-- packages/lit-deposit-address/src/common/ed25519.ts: the signature with an extended secret. The
-- curve, its public keys and SHA-512 are parameters.
pub mod Verifies
pub mod Parity
mod Tests
use relay_settlement.Common.{
  ℕ, ◌+◌, ◌*◌, ◌%◌, List, ◌++◌, Option, Result, ok, err, and_then, or_throw, take, drop,
}
use relay_settlement.Bytes.{Misfit, bytes_to_number_le, number_to_bytes_le}

-- @noble/curves: the order of the base point, and the bytes of a multiple of it, which throws for the
-- number 0; @noble/hashes; and the public key of @metamask/key-tree.
pub record Ed25519 : Type 0 where
  pub order : ℕ
  pub base_multiply_bytes : ℕ → Option (List ℕ)
  pub sha512 : List ℕ → List ℕ
  pub get_public_key : List ℕ → Option (List ℕ)

pub data SignFault : Type 0 where
  no_public_key no_multiple does_not_fit : SignFault

abbrev pub fits : Result Misfit (List ℕ) → Result SignFault (List ℕ)
fits (ok bytes) = ok bytes
fits (err e) = err SignFault.does_not_fit

module _ (ed : Ed25519) where
  -- The number that bytes stand for, modulo the order of the base point.
  unfoldable pub modulo_order : List ℕ → ℕ
  unfolding bytes_to_number_le
  modulo_order bytes = bytes_to_number_le bytes % ed.order

  unfoldable pub sign_ed25519_bip32 : List ℕ → List ℕ → Result SignFault (List ℕ)
  unfolding modulo_order number_to_bytes_le
  sign_ed25519_bip32 message private_key =
      let scalar = modulo_order (take 32 private_key) in
      let r = modulo_order (ed.sha512 (take 32 (drop 32 private_key) ++ message)) in
      and_then (or_throw SignFault.no_public_key (ed.get_public_key private_key)) λ public_key.
        and_then (or_throw SignFault.no_multiple (ed.base_multiply_bytes r)) λ encoded_r.
          let challenge = modulo_order (ed.sha512 (encoded_r ++ (public_key ++ message))) in
          let s = (r + challenge * scalar) % ed.order in
          and_then (fits (number_to_bytes_le s 32)) λ encoded_s. ok (encoded_r ++ encoded_s)
