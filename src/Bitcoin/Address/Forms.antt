-- ===== src/Bitcoin/Address/Forms.antt =====
-- Legacy addresses: the bytes that they are encoded to, the output script of these bytes, and the
-- way back.
use relay_settlement.Common.{
  ℕ, zero, suc, ◌-◌, ◌≡◌, ◌⊎◌, inl, inr, refl, sym, ap, ◌∙◌, List, [], ◌∷◌, ◌++◌, Bool, true, ◌||◌,
  some, ok, and_then-eq-ok, arith, length, take, drop, equal_bytes_iff,
}
use relay_settlement.Host.{Text, Host, starts_with}
use relay_settlement.Bitcoin.Reader.{Error}
use relay_settlement.Bitcoin.Codec.{concat}
use relay_settlement.Bitcoin.Scripts.{script_of_bytes}
use relay_settlement.Bitcoin.Address.{
  or_throw, or_throw-eq-ok, double_sha256, checksum_of, split_checksum, encode_base58_check_payload,
  is_legacy_payload, legacy_bytes, encode_bitcoin_address, decode_bitcoin_address,
}

abbrev pub is_legacy_text : Text → Bool
is_legacy_text address = starts_with (b'1' ∷ []) address || starts_with (b'3' ∷ []) address

-- The standard scripts that pay a hash of 20 bytes.
abbrev pub p2pkh : List ℕ → List ℕ
p2pkh h = 0x76 ∷ 0xa9 ∷ 0x14 ∷ (h ++ (0x88 ∷ 0xac ∷ []))

abbrev pub p2sh : List ℕ → List ℕ
p2sh h = 0xa9 ∷ 0x14 ∷ (h ++ (0x87 ∷ []))

take-append-drop {ℓ} : {A : Type ℓ} (n : ℕ) (xs : List A) → take n xs ++ drop n xs ≡ xs
take-append-drop zero xs = refl
take-append-drop (suc n) [] = refl
take-append-drop (suc n) (x ∷ xs) = ap (λ t. x ∷ t) (take-append-drop n xs)

module _ (host : Host) where
  split_checksum-eq-ok :
      (decoded payload : List ℕ)
      → split_checksum host decoded ≡ ok payload
      → payload ++ checksum_of host payload ≡ decoded
  unfolding split_checksum
  split_checksum-eq-ok decoded payload h =
      let front = take (length decoded - 4) decoded in
      let back = drop (length decoded - 4) decoded in
      ground (
        arith,
        take-append-drop (length decoded - 4) decoded,
        equal_bytes_iff back (checksum_of host front),
      )

-- The address is the base58 text of a version, a hash of 20 bytes and the first four bytes of their
-- double SHA-256; `bytes` are the legacy form of that hash, and the script of `bytes` pays it.
pub record PaysHash (host : Host) (address : Text) (bytes : List ℕ) : Type 0 where
  pub version : ℕ
  pub hash : List ℕ
  pub twenty : length hash ≡ 20
  pub stands_for :
      host.base58_decode address
      ≡ some ((version ∷ hash) ++ take 4 (host.sha256 (host.sha256 (version ∷ hash))))
  pub pays :
      ((version ≡ 0x00) × (bytes ≡ 0xff ∷ 0x00 ∷ hash) × (script_of_bytes bytes ≡ ok (p2pkh hash)))
      ⊎ ((version ≡ 0x05) × (bytes ≡ 0xff ∷ 0x05 ∷ hash) × (script_of_bytes bytes ≡ ok (p2sh hash)))

legacy_test :
    (v : ℕ) (hash : List ℕ)
    → is_legacy_payload (v ∷ hash) ≡ true
    → (length hash ≡ 20) × ((v ≡ 0) ⊎ (v ≡ 5))
legacy_test v hash h = ground arith

script_p2pkh :
    (hash : List ℕ) → length hash ≡ 20 → script_of_bytes (0xff ∷ 0x00 ∷ hash) ≡ ok (p2pkh hash)
unfolding script_of_bytes concat
script_p2pkh hash h = ground arith

script_p2sh :
    (hash : List ℕ) → length hash ≡ 20 → script_of_bytes (0xff ∷ 0x05 ∷ hash) ≡ ok (p2sh hash)
unfolding script_of_bytes concat
script_p2sh hash h = ground arith

legacy_bytes-eq-ok :
    (payload bytes : List ℕ)
    → legacy_bytes payload ≡ ok bytes
    → (is_legacy_payload payload ≡ true) × (0xff ∷ payload ≡ bytes)
unfolding legacy_bytes
legacy_bytes-eq-ok payload bytes h = ground arith

legacy_bytes-PaysHash :
    (host : Host) (address : Text) (payload bytes : List ℕ)
    → host.base58_decode address ≡ some (payload ++ checksum_of host payload)
    → legacy_bytes payload ≡ ok bytes
    → PaysHash host address bytes
unfolding double_sha256
legacy_bytes-PaysHash host address [] bytes d h = absurd (cc (legacy_bytes-eq-ok [] bytes h).0)
legacy_bytes-PaysHash host address (v ∷ hash) bytes d h =
    let (test, same) = legacy_bytes-eq-ok (v ∷ hash) bytes h in
    let (twenty, version) = legacy_test v hash test in
    let at : (w : ℕ) → v ≡ w → bytes ≡ 0xff ∷ w ∷ hash =
      λ w e. sym same ∙ ap (λ t. 0xff ∷ t ∷ hash) e in
    record {
      version = v;
      hash = hash;
      stands_for = d;
      twenty = twenty;
      pays = elim version [
        | inl e ↦ inl (e, at 0 e, ap script_of_bytes (at 0 e) ∙ script_p2pkh hash twenty)
        | inr e ↦ inr (e, at 5 e, ap script_of_bytes (at 5 e) ∙ script_p2sh hash twenty)
      ];
    }

decoded_payload :
    (host : Host) (address : Text) (payload : List ℕ)
    → encode_base58_check_payload host address ≡ ok payload
    → host.base58_decode address ≡ some (payload ++ checksum_of host payload)
unfolding encode_base58_check_payload
decoded_payload host address payload h =
    let (raw, found, split) =
      and_then-eq-ok (or_throw Error.bad_base58 (host.base58_decode address)) (split_checksum host)
        h in
    or_throw-eq-ok Error.bad_base58 (host.base58_decode address) raw found
    ∙ ap some (sym (split_checksum-eq-ok host raw payload split))

-- An accepted address that begins with 1 or 3 is the base58 text of a version byte, a hash of 20
-- bytes and the checksum of these, which is the first four bytes of their double SHA-256; it is
-- encoded as that hash behind its version, 0 or 5, and the output script of that encoding is the
-- standard script that pays this hash.
pub encode_bitcoin_address-PaysHash :
    (host : Host) (address : Text) (bytes : List ℕ)
    → is_legacy_text address ≡ true
    → encode_bitcoin_address host address ≡ ok bytes
    → PaysHash host address bytes
unfolding encode_bitcoin_address
encode_bitcoin_address-PaysHash host address bytes t h =
    let (payload, decoded, e) =
      and_then-eq-ok (encode_base58_check_payload host address) legacy_bytes
        (rw (t, encode_bitcoin_address) at h) in
    legacy_bytes-PaysHash host address payload bytes (decoded_payload host address payload decoded)
      e

module _ (host : Host) where
  -- Where encoding to base58 undoes the decoding, an accepted address that begins with 1 or 3 is
  -- decoded to itself from its bytes.
  pub decode-encode_bitcoin_address :
      (address : Text) (bytes : List ℕ)
      → ((text : Text) (raw : List ℕ)
          → host.base58_decode text ≡ some raw
          → host.base58_encode raw ≡ text)
      → is_legacy_text address ≡ true
      → encode_bitcoin_address host address ≡ ok bytes
      → decode_bitcoin_address host bytes ≡ ok address
  unfolding decode_bitcoin_address encode_bitcoin_address
  decode-encode_bitcoin_address address bytes law t h =
      let (payload, decoded, e) =
        and_then-eq-ok (encode_base58_check_payload host address) legacy_bytes
          (rw (t, encode_bitcoin_address) at h) in
      let (test, same) = legacy_bytes-eq-ok payload bytes e in
      let text : host.base58_encode (payload ++ checksum_of host payload) ≡ address =
        law address (payload ++ checksum_of host payload)
          (decoded_payload host address payload decoded) in
      ap (decode_bitcoin_address host) (sym same) ∙ rw test (ap ok text)
