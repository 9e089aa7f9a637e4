-- ===== src/Tron/Address.antt =====
-- common/address/tron.ts: Base58Check addresses of 21 bytes behind the prefix 0x41.
use relay_settlement.Common.{
  ℕ, ◌≡◌, refl, ap, sym, ◌∙◌, subst, List, ◌++◌, not, some, Result, ok, err, and_then, or_throw,
  length, take, drop, get_or, ◌==◌, ==_iff, equal_bytes, equal_bytes_iff, if◌then◌else◌, arith,
  take-append, drop-append, length-append, guard-eq-ok,
}
use relay_settlement.Host.{Text, Host}
use relay_settlement.Bitcoin.Address.{double_sha256}
use relay_settlement.Tron.Values.{Error}

unfoldable pub checksum : Host → List ℕ → List ℕ
unfolding double_sha256
checksum host payload = take 4 (double_sha256 host payload)

unfoldable pub encode_tron_address : Host → Text → Result Error (List ℕ)
unfolding checksum
encode_tron_address host address =
    and_then (or_throw Error.address_encoding (host.base58_decode address)) λ decoded.
      if not (length decoded == 25)
      then err Error.address_length
      else if not (get_or (take 21 decoded) 0 0 == 0x41)
      then err Error.address_prefix
      else if not (equal_bytes (drop 21 decoded) (checksum host (take 21 decoded)))
      then err Error.address_checksum
      else ok (take 21 decoded)

unfoldable pub decode_tron_address : Host → List ℕ → Result Error Text
unfolding checksum
decode_tron_address host encoded =
    if not (length encoded == 21)
    then err Error.address_length
    else if not (get_or encoded 0 0 == 0x41)
    then err Error.address_prefix
    else ok (host.base58_encode (encoded ++ checksum host encoded))

decode_tron_address-eq-ok :
    (host : Host) (bytes : List ℕ) (address : Text)
    → decode_tron_address host bytes ≡ ok address
    → (length bytes ≡ 21)
      × (get_or bytes 0 0 ≡ 0x41)
      × (host.base58_encode (bytes ++ checksum host bytes) ≡ address)
unfolding decode_tron_address
decode_tron_address-eq-ok host bytes address h =
    let (n, h1) = guard-eq-ok _ Error.address_length _ h in
    let (p, h2) = guard-eq-ok _ Error.address_prefix _ h1 in
    ((==_iff _ 21).0 n, (==_iff _ 0x41).0 p, cc)

-- Where base58 decodes what it encoded and the hash has at least four bytes, an address that was
-- made of bytes is read back as those bytes.
pub encode-decode_tron_address :
    (host : Host)
    → ((bytes : List ℕ) → host.base58_decode (host.base58_encode bytes) ≡ some bytes)
    → ((bytes : List ℕ) → length (checksum host bytes) ≡ 4)
    → (bytes : List ℕ) (address : Text) → decode_tron_address host bytes ≡ ok address
    → encode_tron_address host address ≡ ok bytes
unfolding encode_tron_address and_then
encode-decode_tron_address host base58 four bytes address h =
    let (n, p, e) = decode_tron_address-eq-ok host bytes address h in
    let sum = checksum host bytes in
    let front : take 21 (bytes ++ sum) ≡ bytes =
      ap (λ k. take k (bytes ++ sum)) (sym n) ∙ take-append bytes sum in
    let back : drop 21 (bytes ++ sum) ≡ sum =
      ap (λ k. drop k (bytes ++ sum)) (sym n) ∙ drop-append bytes sum in
    let long : length (bytes ++ sum) ≡ 25 =
      omega (arith, length-append {0} bytes sum, n, four bytes) in
    subst (λ a. encode_tron_address host a ≡ ok bytes) e
      (rw (base58 (bytes ++ sum), long, front, p, back, (equal_bytes_iff sum sum).1 refl) refl)
