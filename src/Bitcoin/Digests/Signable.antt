-- ===== src/Bitcoin/Digests/Signable.antt =====
-- The digests that `signableBitcoinDigests` returns.
use relay_settlement.Common.{
  ℕ, ◌+◌, ◌≡◌, ap, subst, if-eq-ok, guard-eq-ok, ◌∙◌, List, [], ◌∷◌, true, Option, none, some, ok,
  sym, and_then-eq-ok, length, get_or, equal_bytes_iff, ◌==◌, ==_iff,
}
use relay_settlement.Common.Int.{ℤ}
use relay_settlement.Host.{Host}
use relay_settlement.Bitcoin.Reader.{Error}
use relay_settlement.Bitcoin.Tx.{TxInput, ParsedTx, parse_tx, hex_to_bytes}
use relay_settlement.Bitcoin.Address.{or_throw-eq-ok}
use relay_settlement.Bitcoin.Policy.{BitcoinVmTransaction}
use relay_settlement.Bitcoin.Policy.Accepted.{assert_counts-eq-ok}
use relay_settlement.Bitcoin.Digests.{
  sighash, is_sighash, checked_digest, digests_from, signable_bitcoin_digests,
}

module _ (host : Host) (pubkey : List ℕ) (given : BitcoinVmTransaction) where
  -- The digest of input `i` is the one that was given, has 32 bytes, and is the signature hash of
  -- input `i` for the value that was given.
  pub record Signs (tx : ParsedTx) (i : ℕ) (digest : List ℕ) : Type 0 where
    pub given_hex : hex_to_bytes host.noble_hex_to_bytes (get_or given.sighashes i []) ≡ ok digest
    pub size : length digest ≡ 32
    pub value : ℤ
    pub given_value : host.big_int (get_or given.input_values i []) ≡ some value
    pub computed : sighash host tx i pubkey value ≡ some digest

  is_sighash-eq : (o : Option (List ℕ)) (d : List ℕ) → is_sighash o d ≡ true → o ≡ some d
  is_sighash-eq none d h = absurd (cc)
  is_sighash-eq (some e) d h = ap some (sym ((equal_bytes_iff d e).0 h))

  checked_digest-Signs :
      (tx : ParsedTx) (i : ℕ) (digest : List ℕ)
      → checked_digest host tx pubkey given i ≡ ok digest
      → Signs tx i digest
  unfolding checked_digest
  checked_digest-Signs tx i digest h =
      let (actual, hex, h1) = and_then-eq-ok _ _ h in
      let (size, h2) = guard-eq-ok (length actual == 32) Error.sighash_length _ h1 in
      let (value, number, h3) = and_then-eq-ok _ _ h2 in
      let (same, done) =
        if-eq-ok (is_sighash (sighash host tx i pubkey value) actual) actual Error.sighash_mismatch
          h3 in
      record {
        given_hex = hex ∙ ap ok done;
        size = ap length (sym done) ∙ (==_iff (length actual) 32).0 size;
        value = value;
        given_value = or_throw-eq-ok Error.bad_big_int _ value number;
        computed = is_sighash-eq (sighash host tx i pubkey value) actual same ∙ ap some done;
      }

  -- The digests from index `i` on.
  abbrev pub AllSign : ParsedTx → ℕ → List TxInput → List (List ℕ) → Type 0
  AllSign tx i [] [] = Unit
  AllSign tx i [] (d ∷ ds) = ⊥
  AllSign tx i (input ∷ inputs) [] = ⊥
  AllSign tx i (input ∷ inputs) (d ∷ ds) = Signs tx i d × AllSign tx (i + 1) inputs ds

  digests_from-AllSign :
      (tx : ParsedTx) (i : ℕ) (inputs : List TxInput) (digests : List (List ℕ))
      → digests_from host tx pubkey given i inputs ≡ ok digests
      → AllSign tx i inputs digests
  unfolding digests_from
  digests_from-AllSign tx i [] [] h = tt
  digests_from-AllSign tx i [] (d ∷ ds) h = cc
  digests_from-AllSign tx i (input ∷ inputs) digests h =
      let (d, first, h1) = and_then-eq-ok _ _ h in
      let (ds, others, h2) = and_then-eq-ok _ _ h1 in
      let whole : d ∷ ds ≡ digests = cc in
      subst (λ t. AllSign tx i (input ∷ inputs) t) whole
        (checked_digest-Signs tx i d first, digests_from-AllSign tx (i + 1) inputs ds others)

  -- When digests are returned, the transaction parses and has as many digests and values as inputs,
  -- and there is one digest for each input, in order: the given one, of 32 bytes, which is the
  -- signature hash of that input for the given value.
  pub signable_bitcoin_digests-AllSign :
      (digests : List (List ℕ))
      → signable_bitcoin_digests host given pubkey ≡ ok digests
      → (tx : ParsedTx) × (parse_tx host.noble_hex_to_bytes given.unsigned_transaction ≡ ok tx)
        × (length given.sighashes ≡ length tx.inputs)
        × (length given.input_values ≡ length tx.inputs)
        × AllSign tx 0 tx.inputs digests
  unfolding signable_bitcoin_digests
  signable_bitcoin_digests-AllSign digests h =
      let (tx, parsed, h1) = and_then-eq-ok _ _ h in
      let (u, counts, h2) = and_then-eq-ok _ _ h1 in
      let (n, m) = assert_counts-eq-ok tx given counts in
      (tx, parsed, n, m, digests_from-AllSign tx 0 tx.inputs digests h2)
