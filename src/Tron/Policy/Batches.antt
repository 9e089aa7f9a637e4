-- ===== src/Tron/Policy/Batches.antt =====
-- The two kinds of batches that the policy accepts.
use relay_settlement.Common.{
  ℕ, ◌≡◌, ◌≢◌, ap, sym, ◌∙◌, subst, List, [], ◌∷◌, some, ok, and_then-eq-ok, or_throw,
  or_throw-eq-ok, if-eq-ok, ok_same, and_then-ok-eq, get_elem?, equal_bytes_iff,
}
use relay_settlement.Host.{natural_big_int, Text}
use relay_settlement.Tron.Values.{Error}
use relay_settlement.Tron.Policy.{
  Trigger, Attestation, TronVmTransaction, Env, tron_native_currency, native_deposit, pre_approval,
  approval, deposit, address_hex, parse_authorized_transaction, transaction_at, native_data,
  only_native, assert_native_deposit, assert_approval, erc20_data, assert_trc20_call,
  protocol_hex_to_abi_address,
}
use relay_settlement.Tron.Policy.Accepted.{Calls, called}

-- One native deposit: the exact amount to the depository, with the depositor and the order.
pub record Native (env : Env) (trigger : Trigger) (attestation : Attestation)
    (ts : List TronVmTransaction) : Type 0 where
  pub transaction : TronVmTransaction
  pub only : ts ≡ transaction ∷ []
  pub purpose : transaction.purpose ≡ native_deposit
  pub depository : Text
  pub depository_hex : address_hex env attestation.input_depository ≡ ok depository
  pub amount : ℕ
  pub given_amount : natural_big_int env.host trigger.amount ≡ some amount
  pub encoded : Text
  pub arguments : native_data env trigger ≡ ok encoded
  pub call : Calls env transaction 0 depository amount encoded

-- The transaction approves the depository for `amount` of the token, and pays nothing.
pub record Approves (env : Env) (t : TronVmTransaction) (index : ℕ) (token depository : Text)
    (amount : ℕ) : Type 0 where
  pub encoded : Text
  pub arguments : env.approve (protocol_hex_to_abi_address depository) amount ≡ some encoded
  pub call : Calls env t index token 0 encoded

-- The transaction deposits `amount` of the token for the depositor and the order.
pub record Deposits (env : Env) (trigger : Trigger) (t : TronVmTransaction) (index : ℕ)
    (token depository : Text) (amount : ℕ) : Type 0 where
  pub encoded : Text
  pub arguments : erc20_data env trigger token amount ≡ ok encoded
  pub call : Calls env t index depository 0 encoded

-- An approval and the deposit, or an approval of zero before them.
pub data Stages (env : Env) (trigger : Trigger) (token depository : Text) (amount : ℕ)
    : List TronVmTransaction → Type 0 where
  approve_deposit :
      (a d : TronVmTransaction)
      → a.purpose ≡ approval
      → d.purpose ≡ deposit
      → Approves env a 0 token depository amount
      → Deposits env trigger d 1 token depository amount
      → Stages env trigger token depository amount (a ∷ d ∷ [])
  reset_approve_deposit :
      (z a d : TronVmTransaction)
      → z.purpose ≡ pre_approval
      → a.purpose ≡ approval
      → d.purpose ≡ deposit
      → Approves env z 0 token depository 0
      → Approves env a 1 token depository amount
      → Deposits env trigger d 2 token depository amount
      → Stages env trigger token depository amount (z ∷ a ∷ d ∷ [])

pub record Trc20 (env : Env) (trigger : Trigger) (attestation : Attestation)
    (ts : List TronVmTransaction) : Type 0 where
  pub token : Text
  pub token_hex : address_hex env trigger.currency ≡ ok token
  pub not_native : token ≢ tron_native_currency
  pub depository : Text
  pub depository_hex : address_hex env attestation.input_depository ≡ ok depository
  pub amount : ℕ
  pub given_amount : natural_big_int env.host trigger.amount ≡ some amount
  pub stages : Stages env trigger token depository amount ts

module _ (env : Env) (trigger : Trigger) where
  only_native-eq-ok :
      (ts : List TronVmTransaction) (t : TronVmTransaction)
      → only_native ts ≡ ok t
      → (ts ≡ t ∷ []) × (t.purpose ≡ native_deposit)
  only_native-eq-ok [] t h = absurd (cc)
  only_native-eq-ok (x ∷ []) t h =
      let (same, e) = if-eq-ok _ x Error.native_batch h in
      (ap (λ y. y ∷ []) e, ap (λ y. y.purpose) (sym e) ∙ (equal_bytes_iff _ _).0 same)
  only_native-eq-ok (x ∷ y ∷ ts) t h = absurd (cc)

  pub assert_native_deposit-Native :
      (attestation : Attestation) (ts : List TronVmTransaction)
      → assert_native_deposit env trigger attestation ts ≡ ok tt
      → Native env trigger attestation ts
  unfolding assert_native_deposit parse_authorized_transaction
  assert_native_deposit-Native attestation ts h =
      let (t, e1, h1) = and_then-eq-ok _ _ h in
      let (p, e2, h2) = and_then-eq-ok _ _ h1 in
      let (depository, e3, h3) = and_then-eq-ok _ _ h2 in
      let (only, purpose) = only_native-eq-ok ts t e1 in
      let (n, encoded, e4, e5, call) =
        called env t 0 depository Error.depository_mismatch Error.amount_mismatch
          (or_throw Error.bad_amount (natural_big_int env.host trigger.amount))
          (native_data env trigger) (and_then-ok-eq _ _ p e2 h3) in
      record {
        transaction = t;
        only = only;
        purpose = purpose;
        depository = depository;
        depository_hex = e3;
        amount = n;
        given_amount = or_throw-eq-ok Error.bad_amount _ n e4;
        encoded = encoded;
        arguments = e5;
        call = call;
      }

  transaction_at-eq-ok :
      (ts : List TronVmTransaction) (i : ℕ) (t : TronVmTransaction)
      → transaction_at ts i ≡ ok t
      → get_elem? ts i ≡ some t
  transaction_at-eq-ok ts i t h = or_throw-eq-ok Error.no_transaction _ t h

  pub assert_approval-Approves :
      (ts : List TronVmTransaction) (i : ℕ) (token depository : Text) (amount : ℕ)
      → assert_approval env ts i token depository amount ≡ ok tt
      → (t : TronVmTransaction) × (get_elem? ts i ≡ some t)
        × Approves env t i token depository amount
  unfolding assert_approval
  assert_approval-Approves ts i token depository amount h =
      let (t, e1, h1) = and_then-eq-ok _ _ h in
      let (n, encoded, e2, e3, call) =
        called env t i token Error.token_mismatch Error.call_value (ok 0) _ h1 in
      (
        t,
        transaction_at-eq-ok ts i t e1,
        record {
          encoded = encoded;
          arguments = or_throw-eq-ok Error.bad_arguments _ encoded e3;
          call = subst (λ m. Calls env t i token m encoded) (sym (ok_same e2)) call;
        },
      )

  pub assert_trc20_call-Deposits :
      (ts : List TronVmTransaction) (i : ℕ) (token depository : Text) (amount : ℕ)
      → assert_trc20_call env trigger ts i token depository amount ≡ ok tt
      → (t : TronVmTransaction) × (get_elem? ts i ≡ some t)
        × Deposits env trigger t i token depository amount
  unfolding assert_trc20_call
  assert_trc20_call-Deposits ts i token depository amount h =
      let (t, e1, h1) = and_then-eq-ok _ _ h in
      let (n, encoded, e2, e3, call) =
        called env t i depository Error.depository_mismatch Error.call_value (ok 0) _ h1 in
      (
        t,
        transaction_at-eq-ok ts i t e1,
        record {
          encoded = encoded;
          arguments = e3;
          call = subst (λ m. Calls env t i depository m encoded) (sym (ok_same e2)) call;
        },
      )
