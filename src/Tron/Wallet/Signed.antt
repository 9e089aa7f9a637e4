-- ===== src/Tron/Wallet/Signed.antt =====
-- What the wallet signs.
use relay_settlement.Common.{
  ℕ, zero, suc, ◌+◌, ◌≡◌, ◌≤◌, refl, ap, sym, ◌∙◌, List, [], ◌∷◌, ◌++◌, some, ok, and_then-eq-ok,
  or_throw-eq-ok, guard-eq-ok, ok_same, and_then-ok-eq, length, take, drop, get_or, ltb, arith,
  equal_bytes_iff, length-append, Bool-cases, inl, inr,
}
use relay_settlement.Host.{decode_hex, Text, Host}
use relay_settlement.Tron.Values.{Error, max_safe_integer}
use relay_settlement.Tron.Transaction.{
  TronWeb, ParsedTronTransaction, with_0x, decode_tron_raw_data, tron_transaction_hash,
}
use relay_settlement.Tron.Transaction.Canonical.{encode_signed-decode_tron_raw_data}
use relay_settlement.Tron.Address.{checksum, encode-decode_tron_address}
use relay_settlement.Tron.Wallet.{
  tron_address_from_public_key, Curve, SignedTransaction, zeros, signature_of, signer_address,
  sign_transaction_with_key,
}

length-zeros : (n : ℕ) → length (zeros n) ≡ n
unfolding zeros
length-zeros zero = refl
length-zeros (suc n) = ap suc (length-zeros n)

length-take : (n : ℕ) (xs : List ℕ) → n ≤ length xs → length (take n xs) ≡ n
length-take zero xs h = refl
length-take (suc n) [] h = absurd (omega arith)
length-take (suc n) (x ∷ xs) h = ap suc (length-take n xs (omega arith))

length-signature_of :
    (recovered signature : List ℕ) → signature_of recovered ≡ ok signature → length signature ≡ 65
unfolding signature_of
length-signature_of recovered signature h = elim (Bool-cases (ltb 65 (length (drop 1 recovered)))) [
  | inl e ↦ absurd (cc (rw e at h))
  | inr e ↦
      let padded = drop 1 recovered ++ zeros 64 in
      let long : length padded ≡ length (drop 1 recovered) + 64 =
        length-append (drop 1 recovered) (zeros 64)
        ∙ ap (λ n. length (drop 1 recovered) + n) (length-zeros 64) in
      let front : length (take 64 padded) ≡ 64 = length-take 64 padded (omega (arith, long)) in
      let whole = length-append (take 64 padded) (get_or recovered 0 0 ∷ []) in
      ap length (sym (ok_same (rw e at h))) ∙ whole ∙ ap (λ n. n + 1) front
]

signature_of-eq-ok :
    (recovered signature : List ℕ)
    → signature_of recovered ≡ ok signature
    → signature ≡ take 64 (drop 1 recovered ++ zeros 64) ++ (get_or recovered 0 0 ∷ [])
unfolding signature_of
signature_of-eq-ok recovered signature h = elim (Bool-cases (ltb 65 (length (drop 1 recovered)))) [
  | inl e ↦ absurd (cc (rw e at h))
  | inr e ↦ sym (ok_same (rw e at h))
]

-- `signer` is the Tron address of the point of the private key, in hex.
record IsSigner (host : Host) (curve : Curve) (private_key : List ℕ) (signer : Text) : Type 0 where
  public_key : List ℕ
  of_key : curve.get_public_key private_key ≡ some public_key
  public_bytes : List ℕ
  reread : decode_hex host (host.noble_bytes_to_hex public_key) ≡ some public_bytes
  point : List ℕ
  whole_point : curve.uncompressed (host.noble_bytes_to_hex public_bytes) ≡ some point
  shown : signer ≡ host.noble_bytes_to_hex (0x41 ∷ drop 12 (curve.keccak256 (drop 1 point)))

signer_address-IsSigner :
    (host : Host) (curve : Curve) (private_key : List ℕ) (signer : Text)
    → ((bytes : List ℕ) → host.base58_decode (host.base58_encode bytes) ≡ some bytes)
    → ((bytes : List ℕ) → length (checksum host bytes) ≡ 4)
    → signer_address host curve private_key ≡ ok signer
    → IsSigner host curve private_key signer
unfolding signer_address tron_address_from_public_key
signer_address-IsSigner host curve private_key signer base58 four h =
    let (public_key, e1, h1) = and_then-eq-ok _ _ h in
    let (address, e2, h2) = and_then-eq-ok _ _ h1 in
    let (bytes, e3, h3) = and_then-eq-ok _ _ h2 in
    let (public_bytes, e4, h4) = and_then-eq-ok _ _ e2 in
    let (point, e5, h5) = and_then-eq-ok _ _ h4 in
    let payload = 0x41 ∷ drop 12 (curve.keccak256 (drop 1 point)) in
    let same : bytes ≡ payload =
      ok_same (sym e3 ∙ encode-decode_tron_address host base58 four payload address h5) in
    record {
      public_key = public_key;
      of_key = or_throw-eq-ok Error.signing_failed _ public_key e1;
      public_bytes = public_bytes;
      reread = or_throw-eq-ok Error.not_hex_bytes _ public_bytes e4;
      point = point;
      whole_point = or_throw-eq-ok Error.signing_failed _ point e5;
      shown = sym (ok_same h3) ∙ ap host.noble_bytes_to_hex same;
    }

-- What was signed: the data that `raw_data` decodes to, whose owner is the signer.
pub record SignsDecoded (host : Host) (web : TronWeb) (curve : Curve) (private_key : List ℕ)
    (raw_data : Text) (signed : SignedTransaction) : Type 0 where
  pub parsed : ParsedTronTransaction
  pub decoded : decode_tron_raw_data host web raw_data ≡ ok parsed
  pub canonical : web.serialize_raw parsed.raw_data ≡ some parsed.raw_data_bytes
  -- the owner is the Tron address of the point of the private key
  pub public_key : List ℕ
  pub of_key : curve.get_public_key private_key ≡ some public_key
  pub public_bytes : List ℕ
  pub reread : decode_hex host (host.noble_bytes_to_hex public_key) ≡ some public_bytes
  pub point : List ℕ
  pub whole_point : curve.uncompressed (host.noble_bytes_to_hex public_bytes) ≡ some point
  pub owner :
      parsed.raw_data.contract.owner_address
      ≡ host.noble_bytes_to_hex (0x41 ∷ drop 12 (curve.keccak256 (drop 1 point)))
  pub recovered : List ℕ
  pub over_digest : curve.sign (host.sha256 parsed.raw_data_bytes) private_key ≡ some recovered
  pub signature : List ℕ
  -- the recovery byte is moved to the end
  pub rearranged : signature ≡ take 64 (drop 1 recovered ++ zeros 64) ++ (get_or recovered 0 0 ∷ [])
  pub bytes : List ℕ
  pub serialized : web.serialize_signed parsed.raw_data signature ≡ some bytes
  pub raw_transaction : signed.raw_transaction ≡ with_0x (host.noble_bytes_to_hex bytes)
  pub hash_text :
      signed.transaction_hash ≡ host.noble_bytes_to_hex (host.sha256 parsed.raw_data_bytes)
  pub transaction_hash : tron_transaction_hash host web raw_data ≡ ok signed.transaction_hash

-- Where `Number` is exact on safe integers, base58 decodes what it encoded and a checksum has four
-- bytes, a transaction that the wallet signs is the one that its raw data decodes to: its owner is the
-- address of the key, which is 0x41 and what follows the first 12 bytes of the hash of its point without
-- the first byte; the signature is made of the hash of the canonical bytes, its recovery byte last; the signed transaction is TronWeb's serialization of the decoded data with
-- that signature, and the hash that is returned is the transaction's hash.
pub sign_transaction_with_key-SignsDecoded :
    (host : Host) (web : TronWeb) (curve : Curve) (private_key : List ℕ) (raw_data : Text)
    (signed : SignedTransaction)
    → ((n : ℕ) → n ≤ max_safe_integer → web.number n ≡ n)
    → ((bytes : List ℕ) → host.base58_decode (host.base58_encode bytes) ≡ some bytes)
    → ((bytes : List ℕ) → length (checksum host bytes) ≡ 4)
    → sign_transaction_with_key host web curve private_key raw_data ≡ ok signed
    → SignsDecoded host web curve private_key raw_data signed
unfolding sign_transaction_with_key tron_transaction_hash
sign_transaction_with_key-SignsDecoded host web curve private_key raw_data signed exact base58 four
      h =
    let (p, e1, h1) = and_then-eq-ok _ _ h in
    let (signer, e2, h2) = and_then-eq-ok _ _ h1 in
    let (same, h3) = guard-eq-ok _ Error.owner_mismatch _ h2 in
    let (recovered, e3, h4) = and_then-eq-ok _ _ h3 in
    let (signature, e4, h5) = and_then-eq-ok _ _ h4 in
    let (encoded, e5, h6) = and_then-eq-ok _ _ h5 in
    let (canonical, encoding) =
      encode_signed-decode_tron_raw_data host web raw_data p signature exact e1
        (length-signature_of recovered signature e4) in
    let (bytes, e6, h7) = and_then-eq-ok _ _ (sym encoding ∙ e5) in
    let whole = ok_same h6 in
    let s = signer_address-IsSigner host curve private_key signer base58 four e2 in
    record {
      parsed = p;
      decoded = e1;
      canonical = canonical;
      public_key = s.public_key;
      of_key = s.of_key;
      public_bytes = s.public_bytes;
      reread = s.reread;
      point = s.point;
      whole_point = s.whole_point;
      owner = (equal_bytes_iff _ _).0 same ∙ s.shown;
      recovered = recovered;
      over_digest = or_throw-eq-ok Error.signing_failed _ recovered e3;
      signature = signature;
      rearranged = signature_of-eq-ok recovered signature e4;
      bytes = bytes;
      serialized = or_throw-eq-ok Error.bad_encode _ bytes e6;
      raw_transaction = ap (λ s. s.raw_transaction) (sym whole) ∙ sym (ok_same h7);
      hash_text = ap (λ s. s.transaction_hash) (sym whole);
      transaction_hash = and_then-ok-eq _ _ p e1 (ap (λ s. ok s.transaction_hash) whole);
    }
