-- ===== src/Ethereum/Address/Names.antt =====
-- Texts that name the same address.
use relay_settlement.Common.{
  ℕ, ◌≡◌, refl, sym, ap, ◌∙◌, List, ◌∷◌, Option, some, ok, and_then, and_then-eq-ok, or_throw-eq-ok,
  guard-eq-ok, ok_same, length, ==_iff,
}
use relay_settlement.Host.{decode_hex, strip_prefix, Text, Host}
use relay_settlement.Ethereum.Address.{
  Error, hex_of, encode_ethereum_address, decode_ethereum_address, encode_ethereum_address_to_hex,
  normalize_ethereum_address_hex,
}

-- Hex of @noble/hashes: what was decoded is written in lower case and decoded again as it was.
pub record IsHex (host : Host) : Type 0 where
  pub again :
      (text : Text) (bytes : List ℕ)
      → host.noble_hex_to_bytes text ≡ some bytes
      → host.noble_hex_to_bytes (host.noble_bytes_to_hex bytes) ≡ some bytes
  pub lower : (bytes : List ℕ) → host.to_lower_case (hex_of host bytes) ≡ hex_of host bytes

pub record IsAddress (host : Host) (text : Text) (bytes : List ℕ) : Type 0 where
  pub decoded : decode_hex host text ≡ some bytes
  pub size : length bytes ≡ 20

some_equal : {A : Type 0} {a b : A} → ◌≡◌ {A = Option A} (some a) (some b) → a ≡ b
some_equal h = cc

tail_equal : {a b c d : ℕ} {s t : Text} → a ∷ b ∷ s ≡ c ∷ d ∷ t → s ≡ t
tail_equal h = cc

module _ (host : Host) where
  encode-IsAddress :
      (t : Text) (bs : List ℕ) → encode_ethereum_address host t ≡ ok bs → IsAddress host t bs
  unfolding encode_ethereum_address
  encode-IsAddress t bs h =
      let (xs, e1, h1) = and_then-eq-ok _ _ h in
      let (size, h2) = guard-eq-ok _ Error.not_20_bytes _ h1 in
      record {
        decoded = or_throw-eq-ok Error.not_hex _ _ e1 ∙ ap some (ok_same h2);
        size = ap (λ b. length b) (sym (ok_same h2)) ∙ (==_iff _ _).0 size;
      }

  IsAddress-encode :
      (t : Text) (bs : List ℕ) → IsAddress host t bs → encode_ethereum_address host t ≡ ok bs
  unfolding encode_ethereum_address and_then
  IsAddress-encode t bs a = rw (a.decoded, (==_iff _ _).1 a.size) refl

  -- The address that a text is encoded as.
  pub encode_hex-IsAddress :
      (t e : Text)
      → encode_ethereum_address_to_hex host t ≡ ok e
      → (bs : List ℕ) × IsAddress host t bs × (hex_of host bs ≡ e)
  unfolding encode_ethereum_address_to_hex
  encode_hex-IsAddress t e h =
      let (bs, e1, h1) = and_then-eq-ok _ _ h in (bs, encode-IsAddress t bs e1, ok_same h1)

  pub IsAddress-encode_hex :
      (t : Text) (bs : List ℕ)
      → IsAddress host t bs
      → encode_ethereum_address_to_hex host t ≡ ok (hex_of host bs)
  unfolding encode_ethereum_address_to_hex and_then
  IsAddress-encode_hex t bs a = rw (IsAddress-encode t bs a) refl

  module _ (hex : IsHex host) where
    decoded_again :
        (t : Text) (bs : List ℕ) → IsAddress host t bs → IsAddress host (hex_of host bs) bs
    unfolding decode_hex strip_prefix
    decoded_again t bs a = record {
      decoded = hex.again (strip_prefix t) bs a.decoded;
      size = a.size;
    }

    pub normalize-IsAddress :
        (t e : Text)
        → normalize_ethereum_address_hex host t ≡ ok e
        → (bs : List ℕ) × IsAddress host t bs × (hex_of host bs ≡ e)
    unfolding normalize_ethereum_address_hex decode_ethereum_address
    normalize-IsAddress t e h =
        let (bs, e1, h1) = and_then-eq-ok _ _ h in
        let (address, e2, h2) = and_then-eq-ok _ _ h1 in
        let (size, same) = guard-eq-ok _ Error.not_20_bytes _ e2 in
        let a : IsAddress host t bs = record {
          decoded = or_throw-eq-ok Error.not_hex _ _ e1;
          size = (==_iff _ _).0 size;
        } in
        let (found, e3, h3) = and_then-eq-ok _ _ h2 in
        let again = IsAddress-encode_hex (hex_of host bs) bs (decoded_again t bs a) in
        let shown : hex_of host bs ≡ found =
          ok_same
            (sym again ∙ ap (λ x. encode_ethereum_address_to_hex host x) (ok_same same) ∙ e3) in
        (bs, a, sym (hex.lower bs) ∙ ap (λ x. host.to_lower_case x) shown ∙ ok_same h3)

    pub IsAddress-normalize :
        (t : Text) (bs : List ℕ)
        → IsAddress host t bs
        → normalize_ethereum_address_hex host t ≡ ok (hex_of host bs)
    unfolding normalize_ethereum_address_hex decode_ethereum_address and_then
    IsAddress-normalize t bs a =
        rw
          (
            a.decoded,
            (==_iff _ _).1 a.size,
            IsAddress-encode_hex (hex_of host bs) bs (decoded_again t bs a),
            hex.lower bs,
          )
          refl

    -- Two addresses that are written alike are the same bytes.
    pub hex_of_same :
        (s t : Text) (as' bs : List ℕ)
        → IsAddress host s as'
        → IsAddress host t bs
        → hex_of host as' ≡ hex_of host bs
        → as' ≡ bs
    unfolding decode_hex
    hex_of_same s t as' bs a b h = some_equal (
        sym (hex.again (strip_prefix s) as' a.decoded)
        ∙ ap (λ x. host.noble_hex_to_bytes x) (tail_equal h)
        ∙ hex.again (strip_prefix t) bs b.decoded)
