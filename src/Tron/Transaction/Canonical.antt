-- ===== src/Tron/Transaction/Canonical.antt =====
-- `decodeTronRawData` against `encodeSignedTronTransaction`.
use relay_settlement.Common.{
  ℕ, ◌≡◌, ◌≤◌, refl, ap, sym, ◌∙◌, List, some, ok, and_then, and_then-eq-ok, or_throw,
  or_throw-eq-ok, guard-eq-ok, length, equal_bytes_iff, subst, ok_same,
}
use relay_settlement.Host.{decode_hex, Text, Host}
use relay_settlement.Tron.Values.{
  Error, Value, Fields, max_safe_integer, integer_field-eq-ok, member,
}
use relay_settlement.Tron.Names.{timestamp_key, expiration_key, call_value_key, fee_limit_key}
use relay_settlement.Tron.Transaction.{
  TriggerSmartContract, RawData, ParsedTronTransaction, TronWeb, with_0x, times_of, contract_of,
  tron_web_raw_data, decode_tron_raw_data, parsed_raw_data, encode_signed_tron_transaction,
}

-- The numbers of the raw data are safe integers.
pub record Safe (raw : RawData) : Type 0 where
  pub call_value : raw.contract.call_value ≤ max_safe_integer
  pub fee_limit : raw.fee_limit ≤ max_safe_integer
  pub expiration : raw.expiration ≤ max_safe_integer
  pub timestamp : raw.timestamp ≤ max_safe_integer

times_of_safe :
    (raw : Fields) (times : ℕ × ℕ)
    → times_of raw ≡ ok times
    → (times.0 ≤ max_safe_integer) × (times.1 ≤ max_safe_integer)
unfolding times_of
times_of_safe raw times h =
    let (memo, e1, h1) = and_then-eq-ok _ _ h in
    let (scripts, e2, h2) = and_then-eq-ok _ _ h1 in
    let (u3, e3, h3) = and_then-eq-ok _ _ h2 in
    let (u4, e4, h4) = and_then-eq-ok _ _ h3 in
    let (timestamp, e5, h5) = and_then-eq-ok _ _ h4 in
    let (expiration, e6, h6) = and_then-eq-ok _ _ h5 in
    let (u7, e7, h7) = and_then-eq-ok _ _ h6 in
    let pair : (timestamp, expiration) ≡ times = ok_same h7 in
    (
      subst (λ n. n ≤ max_safe_integer) (ap (λ x. x.0) pair)
          (integer_field-eq-ok (member timestamp_key raw) timestamp e5).1,
      subst (λ n. n ≤ max_safe_integer) (ap (λ x. x.1) pair)
          (integer_field-eq-ok (member expiration_key raw) expiration e6).1,
    )

contract_of_safe :
    (host : Host) (trigger : Fields) (c : TriggerSmartContract)
    → contract_of host trigger ≡ ok c
    → c.call_value ≤ max_safe_integer
unfolding contract_of
contract_of_safe host trigger c h =
    let (owner, e1, h1) = and_then-eq-ok _ _ h in
    let (address, e2, h2) = and_then-eq-ok _ _ h1 in
    let (amount, e3, h3) = and_then-eq-ok _ _ h2 in
    let (input, e4, h4) = and_then-eq-ok _ _ h3 in
    subst (λ x. x.call_value ≤ max_safe_integer) (ok_same h4)
      (integer_field-eq-ok (member call_value_key trigger) amount e3).1

tron_web_raw_data-Safe :
    (host : Host) (v : Value) (raw : RawData) → tron_web_raw_data host v ≡ ok raw → Safe raw
unfolding tron_web_raw_data
tron_web_raw_data-Safe host v raw h =
    let (fields, e1, h1) = and_then-eq-ok _ _ h in
    let (only, e2, h2) = and_then-eq-ok _ _ h1 in
    let (contract, e3, h3) = and_then-eq-ok _ _ h2 in
    let (trigger, e4, h4) = and_then-eq-ok _ _ h3 in
    let (times, e5, h5) = and_then-eq-ok _ _ h4 in
    let (called, e6, h6) = and_then-eq-ok _ _ h5 in
    let (fee, e7, h7) = and_then-eq-ok _ _ h6 in
    let (block, e8, h8) = and_then-eq-ok _ _ h7 in
    let (hash, e9, h9) = and_then-eq-ok _ _ h8 in
    let safe_times = times_of_safe fields times e5 in
    subst Safe (ok_same h9) (record {
      call_value = contract_of_safe host trigger called e6;
      fee_limit = (integer_field-eq-ok (member fee_limit_key fields) fee e7).1;
      expiration = safe_times.1;
      timestamp = safe_times.0;
    })

-- A decoding that succeeds.
pub record Decoded (host : Host) (web : TronWeb) (t : Text) (p : ParsedTronTransaction)
    : Type 0 where
  pub bytes : or_throw Error.not_hex_bytes (decode_hex host t) ≡ ok p.raw_data_bytes
  pub canonical : web.serialize_raw p.raw_data ≡ some p.raw_data_bytes
  pub safe : Safe p.raw_data

pub decode_tron_raw_data-Decoded :
    (host : Host) (web : TronWeb) (t : Text) (p : ParsedTronTransaction)
    → decode_tron_raw_data host web t ≡ ok p
    → Decoded host web t p
unfolding decode_tron_raw_data
decode_tron_raw_data-Decoded host web t p h =
    let (bytes, e1, h1) = and_then-eq-ok _ _ h in
    let (decoded, e2, h2) = and_then-eq-ok _ _ h1 in
    let (raw, e3, h3) = and_then-eq-ok _ _ h2 in
    let (reencoded, e4, h4) = and_then-eq-ok _ _ h3 in
    let (same, last) = guard-eq-ok _ Error.not_canonical _ h4 in
    subst (Decoded host web t) (ok_same last) (record {
      bytes = e1;
      canonical =
          or_throw-eq-ok Error.bad_encode _ reencoded e4
          ∙ ap some (sym ((equal_bytes_iff bytes reencoded).0 same));
      safe = tron_web_raw_data-Safe host decoded raw e3;
    })

-- Where `Number` is exact on safe integers, the JSON that is built from safe raw data is that data.
parsed_raw_data_same :
    (web : TronWeb) (raw : RawData)
    → ((n : ℕ) → n ≤ max_safe_integer → web.number n ≡ n)
    → Safe raw
    → parsed_raw_data web raw ≡ raw
unfolding parsed_raw_data
parsed_raw_data_same web raw exact s =
    rw
      (
        exact raw.contract.call_value s.call_value,
        exact raw.fee_limit s.fee_limit,
        exact raw.expiration s.expiration,
        exact raw.timestamp s.timestamp,
      )
      refl

-- Where `Number` is exact on safe integers, a transaction that was decoded is encoded with a
-- signature of 65 bytes exactly as TronWeb serializes the decoded data with that signature: neither
-- check of the encoder refuses it, and the bytes that were decoded are the bytes of that data.
pub encode_signed-decode_tron_raw_data :
    (host : Host) (web : TronWeb) (t : Text) (p : ParsedTronTransaction) (signature : List ℕ)
    → ((n : ℕ) → n ≤ max_safe_integer → web.number n ≡ n)
    → decode_tron_raw_data host web t ≡ ok p
    → length signature ≡ 65
    → (web.serialize_raw p.raw_data ≡ some p.raw_data_bytes)
      × (encode_signed_tron_transaction host web p signature
          ≡ and_then
              (or_throw Error.bad_encode (web.serialize_signed p.raw_data signature))
              λ bytes. ok (with_0x (host.noble_bytes_to_hex bytes)))
unfolding encode_signed_tron_transaction and_then
encode_signed-decode_tron_raw_data host web t p signature exact h long =
    let d = decode_tron_raw_data-Decoded host web t p h in
    (
      d.canonical,
      rw
          (
            long,
            parsed_raw_data_same web p.raw_data exact d.safe,
            d.canonical,
            (equal_bytes_iff p.raw_data_bytes p.raw_data_bytes).1 refl,
          )
          refl,
    )
