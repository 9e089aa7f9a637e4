-- ===== src/Bitcoin/Address.antt =====
-- The address codec, packages/lit-deposit-address/src/common/address/bitcoin.ts. The base58 and
-- bech32 codecs and the hash are the host's.
pub mod Forms
pub use relay_settlement.Common.{or_throw, or_throw-eq-ok}
use relay_settlement.Common.{
  ℕ, ◌-◌, ◌≡◌, List, [], ◌∷◌, ◌++◌, Bool, true, false, ◌&&◌, ◌||◌, not, Option, none, some, Result,
  ok, err, and_then, length, take, drop, get_or, ltb, leb, ◌==◌, equal_bytes, if◌then◌else◌,
}
use relay_settlement.Host.{Text, Host, Decoded, starts_with}
use relay_settlement.Bitcoin.Reader.{Error}
use relay_settlement.Bitcoin.Tx.{hex_to_bytes}

-- A library call that throws.
module _ (host : Host) where
  unfoldable pub double_sha256 : List ℕ → List ℕ
  double_sha256 bytes = host.sha256 (host.sha256 bytes)

  abbrev pub checksum_of : List ℕ → List ℕ
  checksum_of payload = take 4 (double_sha256 payload)

  unfoldable pub split_checksum : List ℕ → Result Error (List ℕ)
  unfolding equal_bytes double_sha256
  split_checksum decoded =
      if ltb (length decoded) 5
      then err Error.bad_base58
      else let payload = take (length decoded - 4) decoded in
        let checksum = drop (length decoded - 4) decoded in
        if equal_bytes checksum (checksum_of payload) then ok payload else err Error.bad_checksum

  unfoldable pub encode_base58_check_payload : Text → Result Error (List ℕ)
  unfolding split_checksum
  encode_base58_check_payload address =
      and_then (or_throw Error.bad_base58 (host.base58_decode address)) split_checksum

  unfoldable pub decode_base58_check_payload : List ℕ → Text
  unfolding double_sha256
  decode_base58_check_payload payload = host.base58_encode (payload ++ checksum_of payload)

-- 21 bytes, with the version of P2PKH or of P2SH.
abbrev pub is_legacy_payload : List ℕ → Bool
is_legacy_payload payload =
    (length payload == 21) && ((get_or payload 0 0 == 0x00) || (get_or payload 0 0 == 0x05))

unfoldable pub legacy_bytes : List ℕ → Result Error (List ℕ)
legacy_bytes payload =
    if is_legacy_payload payload then ok (0xff ∷ payload) else err Error.bad_base58_format

abbrev pub hrp : Text
hrp = b'b' ∷ b'c' ∷ []

-- The version and the program of a decoded address, if its prefix and its version are right.
unfoldable pub witness_bytes : Host → (ℕ → Bool) → Decoded → Option (Option (List ℕ))
witness_bytes host version_fits decoded = elim decoded.words [
  | [] ↦ none
  | version ∷ words ↦
      if equal_bytes decoded.prefix hrp && version_fits version
      then some
          (elim (host.from_words words) [ none ↦ none | some program ↦ some (version ∷ program) ])
      else none
]

-- The `try` block: what it returns, or `none` where it throws or goes on.
unfoldable pub try_bech32 : Host → Text → Option (List ℕ)
unfolding witness_bytes
try_bech32 host lower = elim (host.bech32_decode lower) [
  | none ↦ none
  | some decoded ↦ elim (witness_bytes host (λ v. v == 0) decoded) [
    | none ↦ none
    | some found ↦ found
  ]
]

unfoldable pub encode_bech32m : Host → Text → Result Error (List ℕ)
unfolding witness_bytes
encode_bech32m host lower = elim (host.bech32m_decode lower) [
  | none ↦ err Error.bad_bech32
  | some decoded ↦ elim (witness_bytes host (λ v. leb 1 v) decoded) [
    | none ↦ err Error.bad_address_format
    | some found ↦ or_throw Error.bad_bech32 found
  ]
]

unfoldable pub encode_bitcoin_address : Host → Text → Result Error (List ℕ)
unfolding starts_with encode_base58_check_payload legacy_bytes try_bech32 encode_bech32m
encode_bitcoin_address host address =
    if starts_with (b'1' ∷ []) address || starts_with (b'3' ∷ []) address
    then and_then (encode_base58_check_payload host address) legacy_bytes
    else let lower = host.to_lower_case address in
      if starts_with (hrp ++ (b'1' ∷ [])) lower
      then elim (try_bech32 host lower) [ some found ↦ ok found | none ↦ encode_bech32m host lower ]
      else err Error.bad_address_format

abbrev pub witness_text : Host → ℕ → List ℕ → Option Text
witness_text host version words =
    if version == 0 then host.bech32_encode hrp words else host.bech32m_encode hrp words

unfoldable pub decode_bitcoin_address : Host → List ℕ → Result Error Text
unfolding decode_base58_check_payload
decode_bitcoin_address host [] = err Error.bad_address_format
decode_bitcoin_address host (b ∷ payload) =
    if b == 0xff
    then (if is_legacy_payload payload
        then ok (decode_base58_check_payload host payload)
        else err Error.bad_legacy_address)
    else if ltb (length (b ∷ payload)) 3
    then err Error.bad_address_format
    else if ltb 16 b
    then err Error.bad_witness_version
    else or_throw Error.bad_bech32 (witness_text host b (b ∷ host.to_words payload))

unfoldable pub encode_bitcoin_address_to_hex : Host → Text → Result Error Text
unfolding encode_bitcoin_address
encode_bitcoin_address_to_hex host address =
    and_then (encode_bitcoin_address host address)
      λ encoded. ok (b'0' ∷ b'x' ∷ host.noble_bytes_to_hex encoded)

unfoldable pub normalize_bitcoin_address_hex : Host → Text → Result Error Text
unfolding hex_to_bytes decode_bitcoin_address encode_bitcoin_address_to_hex
normalize_bitcoin_address_hex host encoded_hex =
    and_then (hex_to_bytes host.noble_hex_to_bytes encoded_hex) λ encoded.
      and_then (decode_bitcoin_address host encoded) λ address.
        and_then (encode_bitcoin_address_to_hex host address) λ hex. ok (host.to_lower_case hex)
