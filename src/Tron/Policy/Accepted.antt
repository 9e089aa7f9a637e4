-- ===== src/Tron/Policy/Accepted.antt =====
-- What a batch that the policy accepts looks like.
use relay_settlement.Common.{
  ℕ, ◌+◌, ◌≡◌, ◌≤◌, ◌<◌, ◌↔◌, refl, ◌∙◌, subst, Result, ok, and_then, and_then-eq-ok, guard-eq-ok,
  require-eq-ok, ok_same, drop, ==_iff, equal_bytes_iff, arith,
}
use relay_settlement.Host.{Text}
use relay_settlement.Tron.Values.{Error}
use relay_settlement.Tron.Transaction.{
  TriggerSmartContract, RawData, ParsedTronTransaction, decode_tron_raw_data,
}
use relay_settlement.Tron.Policy.{
  TronVmTransaction, Env, max_expiration_window_ms, max_future_timestamp_ms, max_fee_limit,
  assert_fresh, parse_authorized_transaction, trigger_contract, assert_call,
}

-- The times and the fee of a transaction that is parsed at the time `now`.
pub record Fresh (raw : RawData) (now : ℕ) : Type 0 where
  pub not_expired : now < raw.expiration
  pub not_future : raw.timestamp ≤ now + max_future_timestamp_ms
  pub ordered : raw.timestamp < raw.expiration
  pub window : raw.expiration ≤ raw.timestamp + max_expiration_window_ms
  pub fee : raw.fee_limit ≤ max_fee_limit

assert_fresh_iff : (raw : RawData) (now : ℕ) → (assert_fresh raw now ≡ ok tt) ↔ Fresh raw now
unfolding assert_fresh
assert_fresh_iff raw now = (
  λ h. record {
    not_expired = ground arith;
    not_future = ground arith;
    ordered = ground arith;
    window = ground arith;
    fee = ground arith;
  },
  λ f. ground (arith, f.not_expired, f.not_future, f.ordered, f.window, f.fee),
)

-- The transaction decodes, is fresh, and calls `address` with this value and these arguments.
pub record Calls (env : Env) (t : TronVmTransaction) (index : ℕ) (address : Text) (amount : ℕ)
    (expected : Text) : Type 0 where
  pub parsed : ParsedTronTransaction
  pub decoded : decode_tron_raw_data env.host env.web t.raw_data ≡ ok parsed
  pub fresh : Fresh parsed.raw_data (env.now index)
  pub to : parsed.raw_data.contract.contract_address ≡ address
  pub paid : parsed.raw_data.contract.call_value ≡ amount
  pub input : parsed.raw_data.contract.input_data ≡ drop 2 expected

assert_call-eq-ok :
    (c : TriggerSmartContract) (address : Text) (e e' : Error) (amount : Result Error ℕ)
    (expected : Result Error Text)
    → assert_call c address e amount e' expected ≡ ok tt
    → (n : ℕ) × (data' : Text) × (amount ≡ ok n)
      × (expected ≡ ok data')
      × (c.contract_address ≡ address)
      × (c.call_value ≡ n)
      × (c.input_data ≡ drop 2 data')
unfolding assert_call
assert_call-eq-ok c address e e' amount expected h =
    let (same, h1) = guard-eq-ok _ e _ h in
    let (n, e1, h2) = and_then-eq-ok _ _ h1 in
    let (paid, h3) = guard-eq-ok _ e' _ h2 in
    let (encoded, e2, h4) = and_then-eq-ok _ _ h3 in
    (
      n,
      encoded,
      e1,
      e2,
      (equal_bytes_iff _ _).0 same,
      (==_iff _ _).0 paid,
      (equal_bytes_iff _ _).0 (require-eq-ok _ Error.data_mismatch h4),
    )

module _ (env : Env) where
  parse_authorized-eq-ok :
      (t : TronVmTransaction) (index : ℕ) (p : ParsedTronTransaction)
      → parse_authorized_transaction env t index ≡ ok p
      → (decode_tron_raw_data env.host env.web t.raw_data ≡ ok p) × Fresh p.raw_data (env.now index)
  unfolding parse_authorized_transaction
  parse_authorized-eq-ok t index p h =
      let (q, e1, h1) = and_then-eq-ok _ _ h in
      let (u, e2, h2) = and_then-eq-ok _ _ h1 in
      (
        e1 ∙ h2,
        subst (λ x. Fresh x.raw_data (env.now index)) (ok_same h2)
            ((assert_fresh_iff q.raw_data (env.now index)).0 e2),
      )

  -- A call that is parsed and tested, in both directions.
  pub called :
      (t : TronVmTransaction) (index : ℕ) (address : Text) (e e' : Error) (amount : Result Error ℕ)
      (expected : Result Error Text)
      → and_then
          (parse_authorized_transaction env t index)
          (λ p. assert_call (trigger_contract p) address e amount e' expected)
        ≡ ok tt
      → (n : ℕ) × (encoded : Text) × (amount ≡ ok n)
        × (expected ≡ ok encoded)
        × Calls env t index address n encoded
  called t index address e e' amount expected h =
      let (p, e1, h1) = and_then-eq-ok _ _ h in
      let (decoded, fresh) = parse_authorized-eq-ok t index p e1 in
      let (n, encoded, e2, e3, to, paid, input) =
        assert_call-eq-ok (trigger_contract p) address e e' amount expected h1 in
      (
        n,
        encoded,
        e2,
        e3,
        record {
          parsed = p;
          decoded = decoded;
          fresh = fresh;
          to = to;
          paid = paid;
          input = input;
        },
      )

  pub Calls-called :
      (t : TronVmTransaction) (index : ℕ) (address : Text) (e e' : Error) (n : ℕ) (encoded : Text)
      → Calls env t index address n encoded
      → and_then
          (parse_authorized_transaction env t index)
          (λ p. assert_call (trigger_contract p) address e (ok n) e' (ok encoded))
        ≡ ok tt
  unfolding and_then parse_authorized_transaction assert_call
  Calls-called t index address e e' n encoded c =
      rw
        (
          c.decoded,
          (assert_fresh_iff c.parsed.raw_data (env.now index)).1 c.fresh,
          (equal_bytes_iff _ _).1 c.to,
          (==_iff _ _).1 c.paid,
          (equal_bytes_iff _ _).1 c.input,
        )
        refl
