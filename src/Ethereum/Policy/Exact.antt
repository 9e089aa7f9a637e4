-- ===== src/Ethereum/Policy/Exact.antt =====
-- The policy of Ethereum deposits and its two kinds of batches.
use relay_settlement.Common.{
  ℕ, ◌≢◌, arith, get_or, equal_bytes_iff, Bool-cases, ◌≡◌, ◌↔◌, ◌⊎◌, inl, inr, refl, sym, ap, ◌∙◌,
  subst, List, [], ◌∷◌, Bool, true, false, Option, some, ok, and_then, and_then-eq-ok,
  and_then-ok-eq, or_throw-eq-ok, require-eq-ok, ok_same, if-cases, ==_iff, equal_bytes,
  if◌then◌else◌,
}
use relay_settlement.Host.{natural_big_int, Text, Host}
use relay_settlement.Ethereum.Address.{Error, hex_of}
use relay_settlement.Ethereum.Address.Names.{
  IsHex, IsAddress, normalize-IsAddress, IsAddress-normalize,
}
use relay_settlement.Ethereum.Policy.{
  EthereumTrigger, EthereumAttestation, EthereumVmTransaction, ParsedTransaction, zero_address_hex,
  deposit_native_selector, erc20_approve_selector, deposit_erc20_selector, prefixed, data_of,
  value_of_transaction, one_transaction, two_transactions, decode_uint256_arg,
  verify_native_deposit, verify_approve, verify_deposit_erc20, verify_erc20_deposit,
  verify_ethereum_transactions,
}
use relay_settlement.Ethereum.Policy.Calls.{
  SameAddress, IsTo, IsCall, address_in, word_at-IsCall, assert_argument_iff,
  assert_order_argument_iff, assert_to_iff, assert_calldata_iff,
}

not_equal : (t : Text) → t ≢ zero_address_hex → equal_bytes t zero_address_hex ≡ false
not_equal t h = elim (Bool-cases (equal_bytes t zero_address_hex)) [
  | inl e ↦ absurd (h ((equal_bytes_iff t zero_address_hex).0 e))
  | inr e ↦ e
]

first_branch :
    {A : Type 0} (b : Bool) (x y : A) {r : A} → b ≡ true → x ≡ r → (if b then x else y) ≡ r
first_branch b x y h k = rw h k

second_branch :
    {A : Type 0} (b : Bool) (x y : A) {r : A} → b ≡ false → y ≡ r → (if b then x else y) ≡ r
second_branch b x y h k = rw h k

module _ (host : Host) (hex : IsHex host) (parse : Text → Option ParsedTransaction)
    (trigger : EthereumTrigger) (attestation : EthereumAttestation) where
  -- A word of the calldata is the order's id, whatever its case.
  abbrev pub NamesOrder : Text → Type 0
  NamesOrder word =
      host.to_lower_case (prefixed (host.to_lower_case word)) ≡ host.to_lower_case trigger.order_id

  -- A transaction that pays the amount to the depository and calls `depositNative` for the depositor
  -- and the order.
  pub record PaysNative (t : EthereumVmTransaction) : Type 0 where
    pub parsed : ParsedTransaction
    pub amount : ℕ
    pub parses : parse t.unsigned_transaction ≡ some parsed
    pub to : IsTo host parsed attestation.input_depository
    pub amount_text : natural_big_int host trigger.amount ≡ some amount
    pub paid : value_of_transaction parsed ≡ amount
    pub arguments : List Text
    pub call : IsCall host (data_of parsed) deposit_native_selector 2 arguments
    pub depositor : SameAddress host (address_in host (get_or arguments 0 [])) trigger.depositor
    pub order : NamesOrder (get_or arguments 1 [])

  -- A transaction without value that approves the amount of the token for the depository.
  pub record ApprovesToken (amount : ℕ) (t : EthereumVmTransaction) : Type 0 where
    pub parsed : ParsedTransaction
    pub parses : parse t.unsigned_transaction ≡ some parsed
    pub free : value_of_transaction parsed ≡ 0
    pub to : IsTo host parsed trigger.currency
    pub arguments : List Text
    pub call : IsCall host (data_of parsed) erc20_approve_selector 2 arguments
    pub approved : natural_big_int host (prefixed (get_or arguments 1 [])) ≡ some amount
    pub spender :
        SameAddress host (address_in host (get_or arguments 0 [])) attestation.input_depository

  -- A transaction without value that calls `depositErc20` of the depository for the depositor, the
  -- token, the amount and the order.
  pub record DepositsToken (amount : ℕ) (t : EthereumVmTransaction) : Type 0 where
    pub parsed : ParsedTransaction
    pub parses : parse t.unsigned_transaction ≡ some parsed
    pub free : value_of_transaction parsed ≡ 0
    pub to : IsTo host parsed attestation.input_depository
    pub arguments : List Text
    pub call : IsCall host (data_of parsed) deposit_erc20_selector 4 arguments
    pub deposited : natural_big_int host (prefixed (get_or arguments 2 [])) ≡ some amount
    pub depositor : SameAddress host (address_in host (get_or arguments 0 [])) trigger.depositor
    pub token : SameAddress host (address_in host (get_or arguments 1 [])) trigger.currency
    pub order : NamesOrder (get_or arguments 3 [])

  one_of :
      (ts : List EthereumVmTransaction) (t : EthereumVmTransaction)
      → one_transaction ts ≡ ok t
      → ts ≡ t ∷ []
  one_of [] t h = absurd (cc)
  one_of (x ∷ []) t h = ap (λ y. y ∷ []) (ok_same h)
  one_of (x ∷ y ∷ ts) t h = absurd (cc)

  two_of :
      (ts : List EthereumVmTransaction) (s t : EthereumVmTransaction)
      → two_transactions ts ≡ ok (s, t)
      → ts ≡ s ∷ t ∷ []
  two_of [] s t h = absurd (cc)
  two_of (x ∷ []) s t h = absurd (cc)
  two_of (x ∷ y ∷ []) s t h = ap (λ p. p.0 ∷ p.1 ∷ []) (ok_same h)
  two_of (x ∷ y ∷ z ∷ ts) s t h = absurd (cc)

  native-PaysNative :
      (ts : List EthereumVmTransaction)
      → verify_native_deposit host parse trigger attestation ts ≡ ok tt
      → (t : EthereumVmTransaction) × (ts ≡ t ∷ []) × PaysNative t
  unfolding verify_native_deposit
  native-PaysNative ts h =
      let (t, e1, h1) = and_then-eq-ok _ _ h in
      let (parsed, e2, h2) = and_then-eq-ok _ _ h1 in
      let (u3, e3, h3) = and_then-eq-ok _ _ h2 in
      let (amount, e4, h4) = and_then-eq-ok _ _ h3 in
      let (u5, e5, h5) = and_then-eq-ok _ _ h4 in
      let (u6, e6, h6) = and_then-eq-ok _ _ h5 in
      let (u7, e7, h7) = and_then-eq-ok _ _ h6 in
      let (arguments, call) =
        (assert_calldata_iff host hex parse (data_of parsed) deposit_native_selector 2).0 e6 in
      (
        t,
        one_of ts t e1,
        record {
          parsed = parsed;
          amount = amount;
          parses = or_throw-eq-ok Error.bad_transaction _ _ e2;
          to = (assert_to_iff host hex parse parsed attestation.input_depository).0 e3;
          amount_text = or_throw-eq-ok Error.bad_big_int _ _ e4;
          paid = (==_iff _ _).0 (require-eq-ok _ Error.value_mismatch e5);
          arguments = arguments;
          call = call;
          depositor =
              (assert_argument_iff host hex parse (data_of parsed) deposit_native_selector 2
                  arguments call 0 (omega arith) trigger.depositor Error.depositor_mismatch).0
                e7;
          order =
              (assert_order_argument_iff host hex parse (data_of parsed) deposit_native_selector 2
                  arguments call 1 (omega arith) trigger).0
                h7;
        },
      )

  PaysNative-native :
      (t : EthereumVmTransaction)
      → PaysNative t
      → verify_native_deposit host parse trigger attestation (t ∷ []) ≡ ok tt
  unfolding verify_native_deposit and_then
  PaysNative-native t p =
      rw
        (
          p.parses,
          (assert_to_iff host hex parse p.parsed attestation.input_depository).1 p.to,
          p.amount_text,
          (==_iff _ _).1 p.paid,
          (assert_calldata_iff host hex parse (data_of p.parsed) deposit_native_selector 2).1
              (p.arguments, p.call),
          (assert_argument_iff host hex parse (data_of p.parsed) deposit_native_selector 2
                p.arguments p.call 0 (omega arith) trigger.depositor Error.depositor_mismatch).1
              p.depositor,
        )
        ((assert_order_argument_iff host hex parse (data_of p.parsed) deposit_native_selector 2
            p.arguments p.call 1 (omega arith) trigger).1
          p.order)

  verify_approve_iff :
      (amount : ℕ) (t : EthereumVmTransaction)
      → (verify_approve host parse trigger attestation amount t ≡ ok tt) ↔ ApprovesToken amount t
  unfolding verify_approve decode_uint256_arg and_then
  verify_approve_iff amount t = (
    λ h.
        let (parsed, e1, h1) = and_then-eq-ok _ _ h in
        let (u2, e2, h2) = and_then-eq-ok _ _ h1 in
        let (u3, e3, h3) = and_then-eq-ok _ _ h2 in
        let (u4, e4, h4) = and_then-eq-ok _ _ h3 in
        let (value, e5, h5) = and_then-eq-ok _ _ h4 in
        let (u6, e6, h6) = and_then-eq-ok _ _ h5 in
        let (arguments, call) =
          (assert_calldata_iff host hex parse (data_of parsed) erc20_approve_selector 2).0 e4 in
        record {
          parsed = parsed;
          parses = or_throw-eq-ok Error.bad_transaction _ _ e1;
          free = (==_iff _ _).0 (require-eq-ok _ Error.value_mismatch e2);
          to = (assert_to_iff host hex parse parsed trigger.currency).0 e3;
          arguments = arguments;
          call = call;
          approved =
              ap (λ w. natural_big_int host (prefixed w))
                (sym (
                  word_at-IsCall host (data_of parsed) erc20_approve_selector 2 arguments call 1
                    (omega arith)))
              ∙ or_throw-eq-ok Error.bad_big_int _ _ e5
              ∙ ap some ((==_iff _ _).0 (require-eq-ok _ Error.amount_mismatch h6));
          spender =
              (assert_argument_iff host hex parse (data_of parsed) erc20_approve_selector 2
                  arguments call 0 (omega arith) attestation.input_depository
                  Error.spender_mismatch).0
                e6;
        },
    λ p.
        rw
          (
            p.parses,
            (==_iff _ _).1 p.free,
            (assert_to_iff host hex parse p.parsed trigger.currency).1 p.to,
            (assert_calldata_iff host hex parse (data_of p.parsed) erc20_approve_selector 2).1
                (p.arguments, p.call),
            ap (λ w. natural_big_int host (prefixed w))
                  (word_at-IsCall host (data_of p.parsed) erc20_approve_selector 2 p.arguments
                    p.call 1 (omega arith))
                ∙ p.approved,
            (assert_argument_iff host hex parse (data_of p.parsed) erc20_approve_selector 2
                  p.arguments p.call 0 (omega arith) attestation.input_depository
                  Error.spender_mismatch).1
                p.spender,
            (==_iff amount amount).1 refl,
          )
          refl,
  )

  verify_deposit_erc20_iff :
      (amount : ℕ) (t : EthereumVmTransaction)
      → (verify_deposit_erc20 host parse trigger attestation amount t ≡ ok tt)
        ↔ DepositsToken amount t
  unfolding verify_deposit_erc20 decode_uint256_arg and_then
  verify_deposit_erc20_iff amount t = (
    λ h.
        let (parsed, e1, h1) = and_then-eq-ok _ _ h in
        let (u2, e2, h2) = and_then-eq-ok _ _ h1 in
        let (u3, e3, h3) = and_then-eq-ok _ _ h2 in
        let (u4, e4, h4) = and_then-eq-ok _ _ h3 in
        let (value, e5, h5) = and_then-eq-ok _ _ h4 in
        let (u6, e6, h6) = and_then-eq-ok _ _ h5 in
        let (u7, e7, h7) = and_then-eq-ok _ _ h6 in
        let (u8, e8, h8) = and_then-eq-ok _ _ h7 in
        let (arguments, call) =
          (assert_calldata_iff host hex parse (data_of parsed) deposit_erc20_selector 4).0 e4 in
        record {
          parsed = parsed;
          parses = or_throw-eq-ok Error.bad_transaction _ _ e1;
          free = (==_iff _ _).0 (require-eq-ok _ Error.value_mismatch e2);
          to = (assert_to_iff host hex parse parsed attestation.input_depository).0 e3;
          arguments = arguments;
          call = call;
          deposited =
              ap (λ w. natural_big_int host (prefixed w))
                (sym (
                  word_at-IsCall host (data_of parsed) deposit_erc20_selector 4 arguments call 2
                    (omega arith)))
              ∙ or_throw-eq-ok Error.bad_big_int _ _ e5
              ∙ ap some ((==_iff _ _).0 (require-eq-ok _ Error.amount_mismatch e8));
          depositor =
              (assert_argument_iff host hex parse (data_of parsed) deposit_erc20_selector 4
                  arguments call 0 (omega arith) trigger.depositor Error.depositor_mismatch).0
                e6;
          token =
              (assert_argument_iff host hex parse (data_of parsed) deposit_erc20_selector 4
                  arguments call 1 (omega arith) trigger.currency Error.token_mismatch).0
                e7;
          order =
              (assert_order_argument_iff host hex parse (data_of parsed) deposit_erc20_selector 4
                  arguments call 3 (omega arith) trigger).0
                h8;
        },
    λ p.
        rw
          (
            p.parses,
            (==_iff _ _).1 p.free,
            (assert_to_iff host hex parse p.parsed attestation.input_depository).1 p.to,
            (assert_calldata_iff host hex parse (data_of p.parsed) deposit_erc20_selector 4).1
                (p.arguments, p.call),
            ap (λ w. natural_big_int host (prefixed w))
                  (word_at-IsCall host (data_of p.parsed) deposit_erc20_selector 4 p.arguments
                    p.call 2 (omega arith))
                ∙ p.deposited,
            (assert_argument_iff host hex parse (data_of p.parsed) deposit_erc20_selector 4
                  p.arguments p.call 0 (omega arith) trigger.depositor Error.depositor_mismatch).1
                p.depositor,
            (assert_argument_iff host hex parse (data_of p.parsed) deposit_erc20_selector 4
                  p.arguments p.call 1 (omega arith) trigger.currency Error.token_mismatch).1
                p.token,
            (==_iff amount amount).1 refl,
          )
          ((assert_order_argument_iff host hex parse (data_of p.parsed) deposit_erc20_selector 4
              p.arguments p.call 3 (omega arith) trigger).1
            p.order),
  )

  -- An approval and a deposit of the amount of the trigger.
  pub record PaysToken (s t : EthereumVmTransaction) : Type 0 where
    pub amount : ℕ
    pub amount_text : natural_big_int host trigger.amount ≡ some amount
    pub approve : ApprovesToken amount s
    pub deposit : DepositsToken amount t

  token-PaysToken :
      (ts : List EthereumVmTransaction)
      → verify_erc20_deposit host parse trigger attestation ts ≡ ok tt
      → (s : EthereumVmTransaction) × (t : EthereumVmTransaction) × (ts ≡ s ∷ t ∷ [])
        × PaysToken s t
  unfolding verify_erc20_deposit
  token-PaysToken ts h =
      let ((s, t), e1, h1) = and_then-eq-ok _ _ h in
      let (amount, e2, h2) = and_then-eq-ok _ _ h1 in
      let (u, e3, h3) = and_then-eq-ok _ _ h2 in
      (
        s,
        t,
        two_of ts s t e1,
        record {
          amount = amount;
          amount_text = or_throw-eq-ok Error.bad_big_int _ _ e2;
          approve = (verify_approve_iff amount s).0 e3;
          deposit = (verify_deposit_erc20_iff amount t).0 h3;
        },
      )

  PaysToken-token :
      (s t : EthereumVmTransaction)
      → PaysToken s t
      → verify_erc20_deposit host parse trigger attestation (s ∷ t ∷ []) ≡ ok tt
  unfolding verify_erc20_deposit and_then
  PaysToken-token s t p =
      rw (p.amount_text, (verify_approve_iff p.amount s).1 p.approve)
        ((verify_deposit_erc20_iff p.amount t).1 p.deposit)

  -- One transaction for the zero address as the currency, else two for the token.
  pub record Batch (ts : List EthereumVmTransaction) : Type 0 where
    pub currency : List ℕ
    pub decoded : IsAddress host trigger.currency currency
    pub kind :
        ((hex_of host currency ≡ zero_address_hex)
          × ((t : EthereumVmTransaction) × (ts ≡ t ∷ []) × PaysNative t))
        ⊎ ((hex_of host currency ≢ zero_address_hex)
            × ((s : EthereumVmTransaction) × (t : EthereumVmTransaction) × (ts ≡ s ∷ t ∷ [])
                × PaysToken s t))

  module _ (ts : List EthereumVmTransaction) where
    verify-Batch : verify_ethereum_transactions host parse trigger attestation ts ≡ ok tt → Batch ts
    unfolding verify_ethereum_transactions
    verify-Batch h =
        let (currency, e1, h1) = and_then-eq-ok _ _ h in
        let (bytes, decoded, shown) = normalize-IsAddress host hex trigger.currency currency e1 in
        record {
          currency = bytes;
          decoded = decoded;
          kind =
              elim (if-cases (equal_bytes currency zero_address_hex)
                (verify_native_deposit host parse trigger attestation ts)
                (verify_erc20_deposit host parse trigger attestation ts) h1) [
                  | inl (z, k) ↦ inl (shown ∙ (equal_bytes_iff _ _).0 z, native-PaysNative ts k)
                  | inr (z, k) ↦ inr (
                    λ q. cc (z, (equal_bytes_iff currency zero_address_hex).1 (sym shown ∙ q)),
                    token-PaysToken ts k,
                  )
                ];
        }

    Batch-verify : Batch ts → verify_ethereum_transactions host parse trigger attestation ts ≡ ok tt
    unfolding verify_ethereum_transactions
    Batch-verify b =
        let currency = hex_of host b.currency in
        and_then-ok-eq _ _ currency
          (IsAddress-normalize host hex trigger.currency b.currency b.decoded)
          (elim (b.kind) [
            | inl (z, (t, only, p)) ↦
                first_branch (equal_bytes currency zero_address_hex) _ _
                  ((equal_bytes_iff currency zero_address_hex).1 z)
                  (subst (λ us. verify_native_deposit host parse trigger attestation us ≡ ok tt)
                    (sym only) (PaysNative-native t p))
            | inr (z, (s, t, only, p)) ↦
                second_branch (equal_bytes currency zero_address_hex) _ _ (not_equal currency z) (
                  subst (λ us. verify_erc20_deposit host parse trigger attestation us ≡ ok tt)
                    (sym only) (PaysToken-token s t p))
          ])

    -- The Ethereum policy accepts exactly two kinds of batches. For the zero address as the currency,
    -- it is one transaction that pays the amount to the depository and whose calldata are the selector
    -- of depositNative and two words, the depositor's address and the order's id; for a token, it is
    -- one to the token whose calldata are the selector of approve, the depository's address and the
    -- amount, and one to the depository whose calldata are the selector of depositErc20, the
    -- depositor's and the token's address, the amount and the order's id, both without value.
    pub verify_ethereum_transactions_iff :
        (verify_ethereum_transactions host parse trigger attestation ts ≡ ok tt) ↔ Batch ts
    verify_ethereum_transactions_iff = (verify-Batch, Batch-verify)
