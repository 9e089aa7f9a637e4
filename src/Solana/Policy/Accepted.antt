-- ===== src/Solana/Policy/Accepted.antt =====
-- The deposits of the Solana policy, described apart from its code.
use relay_settlement.Common.{
  ℕ, ◌-◌, ◌≡◌, ◌↔◌, ◌⊎◌, inl, inr, refl, ap, ◌∙◌, subst, List, [], ◌∷◌, true, false, Option, some,
  none, ok, and_then, and_then-eq-ok, or_throw-eq-ok, guard-eq-ok, require-eq-ok, ok_same, length,
  get_elem?, equal_bytes_iff, ==_iff, All, if-cases, arith,
}
use relay_settlement.Host.{natural_big_int, Text, Host, decode_hex}
use relay_settlement.Solana.Reader.{Error}
use relay_settlement.Solana.Message.{Instruction, Message, pubkey_len, parse_message}
use relay_settlement.Solana.Policy.{
  SolanaTrigger, SolanaAttestation, SolanaVmTransaction, deposit_native_discriminator,
  deposit_token_discriminator, anchor_sender_index, account_depositor_index, native_account_count,
  token_account_mint_index, token_account_count, resolve_static_key, is_zero_bytes,
  verify_deposit_native, verify_deposit_token, only_transaction, only_instruction, assert_signers,
  is_slot, assert_sender, hex32_bytes, verify_instruction, verify_transactions,
}
use relay_settlement.Solana.Policy.Carries.{
  Carries, Refers, tests-Carries, Carries-tests, assert_key-Refers, Refers-assert_key,
}

abbrev pub IsZero : List ℕ → Type 0
IsZero bytes = All (λ b. b ≡ 0) bytes

is_zero_bytes_iff : (bs : List ℕ) → (is_zero_bytes bs ≡ true) ↔ IsZero bs
unfolding is_zero_bytes
is_zero_bytes_iff [] = (λ h. tt, λ h. refl)
is_zero_bytes_iff (b ∷ bs) = (
  λ h. (ground (arith), (is_zero_bytes_iff bs).0 (ground arith)),
  λ h. ground (arith, h.0, (is_zero_bytes_iff bs).1 h.1),
)

-- A native deposit for the depositor, and a deposit of the token with the mint `currency`.
pub record Native (message : Message) (ix : Instruction) (depositor : List ℕ) (amount : ℕ)
    (order_id : List ℕ) : Type 0 where
  pub accounts : length ix.account_indexes ≡ native_account_count
  pub depositor_account : Refers message ix account_depositor_index depositor
  pub args : Carries ix.args deposit_native_discriminator amount order_id

pub record Token (message : Message) (ix : Instruction) (depositor : List ℕ) (amount : ℕ)
    (order_id mint : List ℕ) : Type 0 where
  pub accounts : length ix.account_indexes ≡ token_account_count
  pub depositor_account : Refers message ix account_depositor_index depositor
  pub mint_account : Refers message ix token_account_mint_index mint
  pub args : Carries ix.args deposit_token_discriminator amount order_id

module _ (message : Message) (ix : Instruction) (depositor : List ℕ) (amount : ℕ)
    (id : List ℕ) where
  verify-Native :
      length id ≡ pubkey_len
      → (verify_deposit_native message ix depositor amount id ≡ ok tt)
        ↔ Native message ix depositor amount id
  unfolding verify_deposit_native and_then
  verify-Native hid = (
    λ h.
        let (u, e1, h1) = and_then-eq-ok _ _ h in
        let (v, e2, h2) = and_then-eq-ok _ _ h1 in
        let (args, accounts) =
          tests-Carries ix deposit_native_discriminator native_account_count amount id e1 h2 in
        record {
          accounts = accounts;
          depositor_account =
              assert_key-Refers message ix account_depositor_index depositor
                Error.depositor_mismatch e2;
          args = args;
        },
    λ n.
        let (e1, e3) =
          Carries-tests ix deposit_native_discriminator native_account_count amount id refl hid
            n.args n.accounts in
        rw
          (
            e1,
            Refers-assert_key message ix account_depositor_index depositor Error.depositor_mismatch
                n.depositor_account,
          )
          e3,
  )

  verify-Token :
      (mint : List ℕ)
      → length id ≡ pubkey_len
      → (verify_deposit_token message ix depositor amount id mint ≡ ok tt)
        ↔ Token message ix depositor amount id mint
  unfolding verify_deposit_token and_then
  verify-Token mint hid = (
    λ h.
        let (u, e1, h1) = and_then-eq-ok _ _ h in
        let (v, e2, h2) = and_then-eq-ok _ _ h1 in
        let (w, e3, h3) = and_then-eq-ok _ _ h2 in
        let (args, accounts) =
          tests-Carries ix deposit_token_discriminator token_account_count amount id e1 h3 in
        record {
          accounts = accounts;
          depositor_account =
              assert_key-Refers message ix account_depositor_index depositor
                Error.depositor_mismatch e2;
          mint_account =
              assert_key-Refers message ix token_account_mint_index mint Error.mint_mismatch e3;
          args = args;
        },
    λ t.
        let (e1, e4) =
          Carries-tests ix deposit_token_discriminator token_account_count amount id refl hid t.args
            t.accounts in
        rw
          (
            e1,
            Refers-assert_key message ix account_depositor_index depositor Error.depositor_mismatch
                t.depositor_account,
            Refers-assert_key message ix token_account_mint_index mint Error.mint_mismatch
                t.mint_account,
          )
          e4,
  )

assert_signers_iff :
    (m : Message)
    → (assert_signers m ≡ ok tt)
      ↔ ((m.num_required_signatures ≡ 1) ⊎ (m.num_required_signatures ≡ 2))
unfolding assert_signers
assert_signers_iff m = ground arith

same_of : {i n : ℕ} → ◌≡◌ {A = Option ℕ} (some i) (some n) → i ≡ n
same_of h = cc

is_slot_iff : (o : Option ℕ) (n : ℕ) → (is_slot o n ≡ true) ↔ (o ≡ some n)
is_slot_iff none n = (λ h. cc, λ h. cc)
is_slot_iff (some i) n = (λ h. ap some ((==_iff i n).0 h), λ h. (==_iff i n).1 (same_of h))

only_transaction-eq-ok :
    (ts : List SolanaVmTransaction) (t : SolanaVmTransaction)
    → only_transaction ts ≡ ok t
    → ts ≡ t ∷ []
only_transaction-eq-ok [] t h = absurd (cc)
only_transaction-eq-ok (x ∷ []) t h = ap (λ y. y ∷ []) (ok_same h)
only_transaction-eq-ok (x ∷ y ∷ ts) t h = absurd (cc)

only_instruction-eq-ok :
    (is' : List Instruction) (i : Instruction) → only_instruction is' ≡ ok i → is' ≡ i ∷ []
only_instruction-eq-ok [] i h = absurd (cc)
only_instruction-eq-ok (x ∷ []) i h = ap (λ y. y ∷ []) (ok_same h)
only_instruction-eq-ok (x ∷ y ∷ is') i h = absurd (cc)

-- A hex text of 32 bytes.
pub record IsKey (host : Host) (text : Text) (bytes : List ℕ) : Type 0 where
  pub decoded : decode_hex host text ≡ some bytes
  pub size : length bytes ≡ pubkey_len

module _ (host : Host) (base64_to_bytes : Text → Option (List ℕ)) where
  hex32-IsKey :
      (t : Text) (bs : List ℕ) → hex32_bytes host base64_to_bytes t ≡ ok bs → IsKey host t bs
  unfolding hex32_bytes
  hex32-IsKey t bs h =
      let (xs, e1, h1) = and_then-eq-ok _ _ h in
      let (size, h2) = guard-eq-ok _ Error.not_32_bytes _ h1 in
      record {
        decoded = or_throw-eq-ok Error.not_hex _ _ e1 ∙ ap some (ok_same h2);
        size = subst (λ b. length b ≡ pubkey_len) (ok_same h2) ((==_iff _ _).0 size);
      }

  IsKey-hex32 :
      (t : Text) (bs : List ℕ) → IsKey host t bs → hex32_bytes host base64_to_bytes t ≡ ok bs
  unfolding hex32_bytes and_then
  IsKey-hex32 t bs k = rw (k.decoded, (==_iff _ _).1 k.size) refl

  -- The instruction of a message that the trigger and the attestation ask for.
  pub record Deposit (trigger : SolanaTrigger) (attestation : SolanaAttestation) (message : Message)
      (ix : Instruction) : Type 0 where
    pub program : List ℕ
    pub depositor : List ℕ
    pub amount : ℕ
    pub order_id : List ℕ
    pub currency : List ℕ
    pub program_key : IsKey host attestation.input_depository program
    pub depositor_key : IsKey host trigger.depositor depositor
    pub amount_text : natural_big_int host trigger.amount ≡ some amount
    pub order_key : IsKey host trigger.order_id order_id
    pub currency_key : IsKey host trigger.currency currency
    pub called : get_elem? message.static_account_keys ix.program_id_index ≡ some program
    pub args :
        (IsZero currency × Native message ix depositor amount order_id)
        ⊎ ((is_zero_bytes currency ≡ false) × Token message ix depositor amount order_id currency)

  module _ (trigger : SolanaTrigger) (attestation : SolanaAttestation) where
    verify-Deposit :
        (message : Message) (ix : Instruction)
        → verify_instruction host base64_to_bytes trigger attestation message ix ≡ ok tt
        → Deposit trigger attestation message ix
    unfolding verify_instruction resolve_static_key
    verify-Deposit message ix h =
        let (program, e1, h1) = and_then-eq-ok _ _ h in
        let (key, e2, h2) = and_then-eq-ok _ _ h1 in
        let (same, h3) = guard-eq-ok _ Error.program_mismatch _ h2 in
        let (depositor, e4, h4) = and_then-eq-ok _ _ h3 in
        let (amount, e5, h5) = and_then-eq-ok _ _ h4 in
        let (id, e6, h6) = and_then-eq-ok _ _ h5 in
        let (currency, e7, h7) = and_then-eq-ok _ _ h6 in
        let order = hex32-IsKey trigger.order_id id e6 in
        record {
          program = program;
          depositor = depositor;
          amount = amount;
          order_id = id;
          currency = currency;
          program_key = hex32-IsKey attestation.input_depository program e1;
          depositor_key = hex32-IsKey trigger.depositor depositor e4;
          amount_text = or_throw-eq-ok Error.bad_big_int _ _ e5;
          order_key = order;
          currency_key = hex32-IsKey trigger.currency currency e7;
          called =
              or_throw-eq-ok Error.outside_static_keys _ _ e2
              ∙ ap some ((equal_bytes_iff _ _).0 same);
          args =
              elim (if-cases (is_zero_bytes currency)
                (verify_deposit_native message ix depositor amount id)
                (verify_deposit_token message ix depositor amount id currency) h7) [
                  | inl (z, k) ↦ inl (
                    (is_zero_bytes_iff currency).0 z,
                    (verify-Native message ix depositor amount id order.size).0 k,
                  )
                  | inr (z, k) ↦
                      inr (z, (verify-Token message ix depositor amount id currency order.size).0 k)
                ];
        }

    Deposit-verify :
        (message : Message) (ix : Instruction)
        → Deposit trigger attestation message ix
        → verify_instruction host base64_to_bytes trigger attestation message ix ≡ ok tt
    unfolding verify_instruction resolve_static_key and_then
    Deposit-verify message ix d =
        rw
          (
            IsKey-hex32 attestation.input_depository d.program d.program_key,
            d.called,
            (equal_bytes_iff d.program d.program).1 refl,
            IsKey-hex32 trigger.depositor d.depositor d.depositor_key,
            d.amount_text,
            IsKey-hex32 trigger.order_id d.order_id d.order_key,
            IsKey-hex32 trigger.currency d.currency d.currency_key,
          )
          (elim (d.args) [
            | inl (z, n) ↦
                rw ((is_zero_bytes_iff d.currency).1 z)
                  ((verify-Native message ix d.depositor d.amount d.order_id d.order_key.size).1 n)
            | inr (z, t) ↦ rw (z) (
                (verify-Token message ix d.depositor d.amount d.order_id d.currency
                    d.order_key.size).1
                  t)
          ])

  -- One message with one or two signers and one instruction, whose sender is the last signer.
  pub record Accepted (trigger : SolanaTrigger) (attestation : SolanaAttestation)
      (transactions : List SolanaVmTransaction) : Type 0 where
    pub transaction : SolanaVmTransaction
    pub bytes : List ℕ
    pub message : Message
    pub ix : Instruction
    pub only : transactions ≡ transaction ∷ []
    pub decoded : base64_to_bytes transaction.message ≡ some bytes
    pub parsed : parse_message bytes ≡ ok message
    pub signers : (message.num_required_signatures ≡ 1) ⊎ (message.num_required_signatures ≡ 2)
    pub one : message.instructions ≡ ix ∷ []
    pub sender :
        get_elem? ix.account_indexes anchor_sender_index
        ≡ some (message.num_required_signatures - 1)
    pub deposit : Deposit trigger attestation message ix

  module _ (trigger : SolanaTrigger) (attestation : SolanaAttestation)
      (ts : List SolanaVmTransaction) where
    verify-Accepted :
        verify_transactions host base64_to_bytes trigger attestation ts ≡ ok tt
        → Accepted trigger attestation ts
    unfolding verify_transactions assert_sender
    verify-Accepted h =
        let (t, e1, h1) = and_then-eq-ok _ _ h in
        let (bytes, e2, h2) = and_then-eq-ok _ _ h1 in
        let (message, e3, h3) = and_then-eq-ok _ _ h2 in
        let (u, e4, h4) = and_then-eq-ok _ _ h3 in
        let (ix, e5, h5) = and_then-eq-ok _ _ h4 in
        let (v, e6, h6) = and_then-eq-ok _ _ h5 in
        record {
          transaction = t;
          bytes = bytes;
          message = message;
          ix = ix;
          only = only_transaction-eq-ok ts t e1;
          decoded = or_throw-eq-ok Error.bad_base64 _ _ e2;
          parsed = e3;
          signers = (assert_signers_iff message).0 e4;
          one = only_instruction-eq-ok message.instructions ix e5;
          sender = (is_slot_iff _ _).0 (require-eq-ok _ Error.sender_slot e6);
          deposit = verify-Deposit trigger attestation message ix h6;
        }

    Accepted-verify :
        Accepted trigger attestation ts
        → verify_transactions host base64_to_bytes trigger attestation ts ≡ ok tt
    unfolding verify_transactions assert_sender and_then
    Accepted-verify a =
        rw
          (
            a.only,
            a.decoded,
            a.parsed,
            (assert_signers_iff a.message).1 a.signers,
            a.one,
            (is_slot_iff _ _).1 a.sender,
          )
          (Deposit-verify trigger attestation a.message a.ix a.deposit)

    -- The Solana policy accepts exactly the lists of one message with one or two signers and one
    -- instruction that calls the depository with the wallet's slot as the sender, and whose accounts
    -- and arguments carry the depositor, the amount and the order of the trigger: a native deposit
    -- of five accounts for the zero currency, a token deposit of ten accounts with the currency as
    -- its mint otherwise.
    pub verify_transactions_iff :
        (verify_transactions host base64_to_bytes trigger attestation ts ≡ ok tt)
        ↔ Accepted trigger attestation ts
    verify_transactions_iff = (verify-Accepted, Accepted-verify)
