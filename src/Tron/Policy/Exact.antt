-- ===== src/Tron/Policy/Exact.antt =====
-- The policy of Tron deposits and its two kinds of batches.
use relay_settlement.Common.{
  ℕ, ◌≡◌, ◌≢◌, ◌↔◌, ◌⊎◌, inl, inr, refl, ap, ap₂, ◌++◌, sym, ◌∙◌, subst, List, [], ◌∷◌, Bool, true,
  false, not, ◌&&◌, some, Result, ok, err, and_then, and_then-eq-ok, or_throw, or_throw-eq-ok,
  ok_same, and_then-ok-eq, map, get_elem?, equal_bytes, equal_bytes_iff, if◌then◌else◌, arith,
  Bool-cases,
}
use relay_settlement.Host.{Text}
use relay_settlement.Tron.Values.{Error}
use relay_settlement.Tron.Policy.{
  Trigger, Attestation, TronVmTransaction, Env, tron_native_currency, native_deposit, join, direct,
  reset, address_hex, parse_authorized_transaction, trigger_contract, assert_call, only_native,
  assert_native_deposit, assert_approval, assert_trc20_call, assert_approvals, assert_trc20_deposit,
  assert_tron_transactions,
}
use relay_settlement.Tron.Policy.Accepted.{Calls-called}
use relay_settlement.Tron.Policy.Batches.{
  Native, Approves, Deposits, Stages, approve_deposit, reset_approve_deposit, Trc20,
  assert_native_deposit-Native,
}
use relay_settlement.Tron.Policy.Stages.{assert_stages, assert_stages-Stages}

-- The tests on the purposes.
purposes_known :
    {A : Type 0} (p : Text) (m : Result Error A) {a : A}
    → (if not (equal_bytes p direct) && not (equal_bytes p reset) then err Error.purposes else m)
      ≡ ok a
    → ((p ≡ direct) ⊎ (p ≡ reset)) × (m ≡ ok a)
purposes_known p m h = ground (arith, equal_bytes_iff p direct, equal_bytes_iff p reset)

purposes_pass :
    {A : Type 0} (p : Text) (m : Result Error A) {a : A}
    → (p ≡ direct) ⊎ (p ≡ reset)
    → m ≡ ok a
    → (if not (equal_bytes p direct) && not (equal_bytes p reset) then err Error.purposes else m)
      ≡ ok a
purposes_pass p m h k = ground (arith, equal_bytes_iff p direct, equal_bytes_iff p reset)

not_both : {b : Bool} → b ≡ true → b ≢ false
not_both h k = cc

not_equal_bytes : (s t : Text) → s ≢ t → equal_bytes s t ≡ false
not_equal_bytes s t h = elim (Bool-cases (equal_bytes s t)) [
  | inl e ↦ absurd (h ((equal_bytes_iff s t).0 e))
  | inr e ↦ e
]

module _ (env : Env) (trigger : Trigger) (attestation : Attestation) where
  assert_trc20_deposit-Trc20 :
      (ts : List TronVmTransaction) (currency : Text)
      → address_hex env trigger.currency ≡ ok currency
      → currency ≢ tron_native_currency
      → assert_trc20_deposit env trigger attestation ts ≡ ok tt
      → Trc20 env trigger attestation ts
  unfolding assert_trc20_deposit
  assert_trc20_deposit-Trc20 ts currency hex other h =
      let (known, h0) = purposes_known (join (map (λ t. t.purpose) ts)) _ h in
      let (token, e1, h1) = and_then-eq-ok _ _ h0 in
      let (depository, e2, h2) = and_then-eq-ok _ _ h1 in
      let (amount, e3, h3) = and_then-eq-ok _ _ h2 in
      record {
        token = token;
        token_hex = e1;
        not_native = subst (λ c. c ≢ tron_native_currency) (ok_same (sym hex ∙ e1)) other;
        depository = depository;
        depository_hex = e2;
        amount = amount;
        given_amount = or_throw-eq-ok Error.bad_amount _ amount e3;
        stages = assert_stages-Stages env trigger token depository amount ts known h3;
      }

  Native-assert :
      (ts : List TronVmTransaction)
      → Native env trigger attestation ts
      → assert_native_deposit env trigger attestation ts ≡ ok tt
  unfolding assert_native_deposit and_then
  Native-assert ts n =
      let t = n.transaction in
      let purpose : equal_bytes t.purpose native_deposit ≡ true =
        (equal_bytes_iff _ _).1 n.purpose in
      let accepted : only_native (t ∷ []) ≡ ok t =
        ap (λ b. if b then ok t else err Error.native_batch) purpose in
      let call =
        Calls-called env t 0 n.depository Error.depository_mismatch Error.amount_mismatch n.amount
          n.encoded n.call in
      subst (λ x. assert_native_deposit env trigger attestation x ≡ ok tt) (sym n.only)
        (rw (accepted, n.depository_hex, n.given_amount, n.arguments) call)

  Approves-assert :
      (ts : List TronVmTransaction) (t : TronVmTransaction) (i : ℕ) (token depository : Text)
      (amount : ℕ)
      → get_elem? ts i ≡ some t
      → Approves env t i token depository amount
      → assert_approval env ts i token depository amount ≡ ok tt
  unfolding assert_approval
  Approves-assert ts t i token depository amount h a =
      let call =
        Calls-called env t i token Error.token_mismatch Error.call_value 0 a.encoded a.call in
      and_then-ok-eq _ _ t (ap (or_throw Error.no_transaction) h) (
        subst
          (λ x.
            and_then (parse_authorized_transaction env t i) (λ p.
              assert_call (trigger_contract p) token Error.token_mismatch (ok 0) Error.call_value x)
            ≡ ok tt)
          (ap (or_throw Error.bad_arguments) (sym a.arguments)) call)

  Deposits-assert :
      (ts : List TronVmTransaction) (t : TronVmTransaction) (i : ℕ) (token depository : Text)
      (amount : ℕ)
      → get_elem? ts i ≡ some t
      → Deposits env trigger t i token depository amount
      → assert_trc20_call env trigger ts i token depository amount ≡ ok tt
  unfolding assert_trc20_call
  Deposits-assert ts t i token depository amount h d =
      let call =
        Calls-called env t i depository Error.depository_mismatch Error.call_value 0 d.encoded
          d.call in
      and_then-ok-eq _ _ t (ap (or_throw Error.no_transaction) h) (
        subst
          (λ x.
            and_then (parse_authorized_transaction env t i) (λ p.
              assert_call (trigger_contract p) depository Error.depository_mismatch (ok 0)
                Error.call_value x)
            ≡ ok tt)
          (sym d.arguments) call)

  Stages-assert :
      (ts : List TronVmTransaction) (token depository : Text) (amount : ℕ)
      → Stages env trigger token depository amount ts
      → ((join (map (λ t. t.purpose) ts) ≡ direct) ⊎ (join (map (λ t. t.purpose) ts) ≡ reset))
        × (assert_stages env trigger token depository amount
              (equal_bytes (join (map (λ t. t.purpose) ts)) reset)
              ts
            ≡ ok tt)
  unfolding join assert_approvals equal_bytes
  Stages-assert ts token depository amount (approve_deposit a d p q f g) =
      let joined : join (a.purpose ∷ d.purpose ∷ []) ≡ direct = ap₂ (λ x y. x ++ (b',' ∷ y)) p q in
      (
        inl joined,
        subst
            (λ x.
              assert_stages env trigger token depository amount (equal_bytes x reset) (a ∷ d ∷ [])
              ≡ ok tt)
            (sym joined)
            (and_then-ok-eq _ _ 1
              (and_then-ok-eq _ _ tt
                (Approves-assert (a ∷ d ∷ []) a 0 token depository amount refl f) refl)
              (Deposits-assert (a ∷ d ∷ []) d 1 token depository amount refl g)),
      )
  Stages-assert ts token depository amount (reset_approve_deposit z a d o p q e f g) =
      let joined : join (z.purpose ∷ a.purpose ∷ d.purpose ∷ []) ≡ reset =
        ap₂ (λ x y. x ++ (b',' ∷ y)) o (ap₂ (λ x y. x ++ (b',' ∷ y)) p q) in
      (
        inr joined,
        subst
            (λ x.
              assert_stages env trigger token depository amount (equal_bytes x reset)
                (z ∷ a ∷ d ∷ [])
              ≡ ok tt)
            (sym joined)
            (and_then-ok-eq _ _ 2
              (and_then-ok-eq _ _ tt
                (Approves-assert (z ∷ a ∷ d ∷ []) z 0 token depository 0 refl e)
                (and_then-ok-eq _ _ tt
                  (Approves-assert (z ∷ a ∷ d ∷ []) a 1 token depository amount refl f) refl))
              (Deposits-assert (z ∷ a ∷ d ∷ []) d 2 token depository amount refl g)),
      )

  Trc20-assert :
      (ts : List TronVmTransaction)
      → Trc20 env trigger attestation ts
      → assert_trc20_deposit env trigger attestation ts ≡ ok tt
  unfolding assert_trc20_deposit
  Trc20-assert ts t =
      let (known, stages) = Stages-assert ts t.token t.depository t.amount t.stages in
      purposes_pass (join (map (λ t. t.purpose) ts)) _ known (
        and_then-ok-eq _ _ t.token t.token_hex (
          and_then-ok-eq _ _ t.depository t.depository_hex
            (and_then-ok-eq _ _ t.amount (ap (or_throw Error.bad_amount) t.given_amount) stages)))

  -- A batch is accepted exactly when it is of one of two kinds. For the native currency it is one
  -- `native-deposit` that calls the depository with exactly the amount of the trigger and the
  -- encoded depositor and order. For a token it is `trc20-approval` and `trc20-deposit`, or
  -- `trc20-pre-approval` before them: each approval calls the token for the depository, of zero in
  -- the pre-approval and of the amount else, the deposit calls the depository with the encoded
  -- depositor, token, amount and order, and none of them pays. Every transaction decodes, has not
  -- expired, is at most an hour long and a minute ahead, and keeps to the fee limit.
  pub assert_tron_transactions_iff :
      (ts : List TronVmTransaction)
      → (assert_tron_transactions env trigger attestation ts ≡ ok tt) ↔ (
          ((address_hex env trigger.currency ≡ ok tron_native_currency)
            × Native env trigger attestation ts)
          ⊎ Trc20 env trigger attestation ts)
  unfolding assert_tron_transactions
  assert_tron_transactions_iff ts = (
    λ h.
        let (currency, e, rest) = and_then-eq-ok _ _ h in
        elim (Bool-cases (equal_bytes currency tron_native_currency)) [
          | inl same ↦ inl (
            e ∙ ap ok ((equal_bytes_iff _ _).0 same),
            assert_native_deposit-Native env trigger attestation ts (rw same at rest),
          )
          | inr other ↦ inr (
              assert_trc20_deposit-Trc20 ts currency e
                (λ p. not_both ((equal_bytes_iff _ _).1 p) other) (rw other at rest))
        ],
    λ k. elim k [
      | inl (e, n) ↦ and_then-ok-eq _ _ tron_native_currency e (
          rw ((equal_bytes_iff tron_native_currency tron_native_currency).1 refl)
            (Native-assert ts n))
      | inr t ↦
          and_then-ok-eq _ _ t.token t.token_hex
            (rw (not_equal_bytes t.token tron_native_currency t.not_native) (Trc20-assert ts t))
    ],
  )
