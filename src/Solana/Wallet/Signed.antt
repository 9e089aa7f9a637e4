-- ===== src/Solana/Wallet/Signed.antt =====
-- What the wallet signs of the transactions that the policy accepts.
use relay_settlement.Common.{
  ℕ, ◌-◌, ◌*◌, ◌≡◌, ◌⊎◌, inl, inr, sym, ap, ◌∙◌, subst, List, [], ◌∷◌, ◌++◌, append-nil, Option,
  some, Result, ok, err, and_then-eq-ok, or_throw-eq-ok, guard-eq-ok, passed-eq-ok, ok_same, length,
  get_elem?, equal_bytes_iff,
}
use relay_settlement.Host.{Host}
use relay_settlement.Ed25519.{Ed25519, SignFault, sign_ed25519_bip32}
use relay_settlement.Ed25519.Verifies.{Group, IsCurve, Verifies, signed-Verifies}
use relay_settlement.Solana.Reader.{Error}
use relay_settlement.Solana.Message.{Instruction, Message, parse_message}
use relay_settlement.Solana.Policy.{
  SolanaTrigger, SolanaAttestation, SolanaVmTransaction, anchor_sender_index, verify_transactions,
}
use relay_settlement.Solana.Policy.Carries.{Refers}
use relay_settlement.Solana.Policy.Accepted.{Deposit, verify_transactions_iff}
use relay_settlement.Solana.Wallet.{
  Base64, SolanaVmSignedTransaction, signature_len, zero_bytes, set_bytes, signed,
  sign_solana_transaction,
}

signed-eq-ok : (r : Result SignFault (List ℕ)) (s : List ℕ) → signed r ≡ ok s → r ≡ ok s
signed-eq-ok (ok x) s h = cc
signed-eq-ok (err e) s h = absurd (cc)

some_is : {A : Type 0} {a b : A} → ◌≡◌ {A = Option A} (some a) (some b) → a ≡ b
some_is h = cc

-- The signature stands in the last of one or two slots.
slot_set :
    (n : ℕ) (s : List ℕ)
    → (n ≡ 1) ⊎ (n ≡ 2)
    → length s ≡ 64
    → set_bytes (zero_bytes (n * signature_len)) s ((n - 1) * signature_len)
      ≡ some (zero_bytes ((n - 1) * signature_len) ++ s)
unfolding set_bytes zero_bytes
slot_set n s (inl h) size = rw (h, size, append-nil s)
slot_set n s (inr h) size = rw (h, size, append-nil s)

-- A transaction that is signed for the deposit of a trigger: its one instruction spends from the
-- wallet, the signature verifies for the message, and the wire format is the number of signers, an
-- empty slot for a fee payer, the signature and the message.
pub record Sends (host : Host) (base64 : Base64) (g : Group) (ed : Ed25519)
    (trigger : SolanaTrigger) (attestation : SolanaAttestation) (key : List ℕ)
    (transaction : SolanaVmTransaction) (out : SolanaVmSignedTransaction) : Type 1 where
  pub bytes : List ℕ
  pub message : Message
  pub ix : Instruction
  pub wallet : List ℕ
  pub signature : List ℕ
  pub decoded : base64.to_bytes transaction.message ≡ some bytes
  pub parsed : parse_message bytes ≡ ok message
  pub one : message.instructions ≡ ix ∷ []
  pub deposit : Deposit host base64.to_bytes trigger attestation message ix
  pub owner : ed.get_public_key key ≡ some wallet
  pub sender : Refers message ix anchor_sender_index wallet
  pub verifies : Verifies g ed bytes signature wallet
  pub raw :
      out.raw_transaction
      ≡ base64.of_bytes (
          message.num_required_signatures
          ∷ ((zero_bytes ((message.num_required_signatures - 1) * signature_len) ++ signature)
              ++ bytes))

-- What a signed transaction went through.
record Passed (host : Host) (base64 : Base64) (ed : Ed25519) (key : List ℕ)
    (transaction : SolanaVmTransaction) (out : SolanaVmSignedTransaction) : Type 0 where
  bytes : List ℕ
  message : Message
  wallet : List ℕ
  signature : List ℕ
  sigs : List ℕ
  decoded : base64.to_bytes transaction.message ≡ some bytes
  parsed : parse_message bytes ≡ ok message
  owner : ed.get_public_key key ≡ some wallet
  slot : get_elem? message.static_account_keys (message.num_required_signatures - 1) ≡ some wallet
  signs : sign_ed25519_bip32 ed bytes key ≡ ok signature
  stored :
      set_bytes
        (zero_bytes (message.num_required_signatures * signature_len))
        signature
        ((message.num_required_signatures - 1) * signature_len)
      ≡ some sigs
  raw : base64.of_bytes (message.num_required_signatures ∷ (sigs ++ bytes)) ≡ out.raw_transaction

sign-Passed :
    (host : Host) (base64 : Base64) (ed : Ed25519) (key : List ℕ)
    (transaction : SolanaVmTransaction) (out : SolanaVmSignedTransaction)
    → sign_solana_transaction host base64 ed key transaction ≡ ok out
    → Passed host base64 ed key transaction out
unfolding sign_solana_transaction
sign-Passed host base64 ed key transaction out h =
    let (bytes, e1, h1) = and_then-eq-ok _ _ h in
    let (message, e2, h2) = and_then-eq-ok _ _ (passed-eq-ok _ Error.empty_message _ h1) in
    let (u, e3, h3) = and_then-eq-ok _ _ h2 in
    let (wallet, e4, h4) = and_then-eq-ok _ _ h3 in
    let (slot_key, e5, h5) = and_then-eq-ok _ _ h4 in
    let (same, h6) = guard-eq-ok _ Error.wrong_slot _ h5 in
    let (signature, e7, h7) = and_then-eq-ok _ _ h6 in
    let (sigs, e8, h8) = and_then-eq-ok _ _ h7 in
    record {
      bytes = bytes;
      message = message;
      wallet = wallet;
      signature = signature;
      sigs = sigs;
      decoded = or_throw-eq-ok Error.bad_base64 _ _ e1;
      parsed = e2;
      owner = or_throw-eq-ok Error.signing_failed _ _ e4;
      slot =
          or_throw-eq-ok Error.wrong_slot _ _ e5
          ∙ ap some ((equal_bytes_iff slot_key wallet).0 same);
      signs = signed-eq-ok (sign_ed25519_bip32 ed bytes key) signature e7;
      stored = or_throw-eq-ok Error.signing_failed _ _ e8;
      raw = ap (λ o. o.raw_transaction) (ok_same h8);
    }

head_same : {s t : SolanaVmTransaction} → s ∷ [] ≡ t ∷ [] → s ≡ t
head_same h = cc

module _ (host : Host) (base64 : Base64) (g : Group) (ed : Ed25519) (curve : IsCurve g ed)
    (trigger : SolanaTrigger) (attestation : SolanaAttestation) (key : List ℕ)
    (transaction : SolanaVmTransaction) (out : SolanaVmSignedTransaction) where
  -- A transaction that the policy accepts and the wallet signs spends from that wallet alone: the
  -- sender of its one instruction is the public key of the signing key, the instruction is the
  -- deposit that the trigger asks for, and the signature in the last slot verifies for its message.
  pub accepted-signed-Sends :
      verify_transactions host base64.to_bytes trigger attestation (transaction ∷ []) ≡ ok tt
      → sign_solana_transaction host base64 ed key transaction ≡ ok out
      → Sends host base64 g ed trigger attestation key transaction out
  unfolding sign_solana_transaction
  accepted-signed-Sends accepted h =
      let a =
        (verify_transactions_iff host base64.to_bytes trigger attestation (transaction ∷ [])).0
          accepted in
      let decoded : base64.to_bytes transaction.message ≡ some a.bytes =
        ap (λ t. base64.to_bytes t.message) (head_same a.only) ∙ a.decoded in
      let p = sign-Passed host base64 ed key transaction out h in
      let bytes_same : a.bytes ≡ p.bytes = some_is (sym decoded ∙ p.decoded) in
      let same : a.message ≡ p.message =
        ok_same (sym a.parsed ∙ ap (λ b. parse_message b) bytes_same ∙ p.parsed) in
      let verifies = signed-Verifies g ed curve p.bytes key p.signature p.wallet p.signs p.owner in
      record {
        bytes = p.bytes;
        message = p.message;
        ix = a.ix;
        wallet = p.wallet;
        signature = p.signature;
        decoded = p.decoded;
        parsed = p.parsed;
        one = ap (λ m. m.instructions) (sym same) ∙ a.one;
        deposit =
            subst (λ m. Deposit host base64.to_bytes trigger attestation m a.ix) same a.deposit;
        owner = p.owner;
        sender = record {
          index = p.message.num_required_signatures - 1;
          account = a.sender ∙ ap (λ m. some (m.num_required_signatures - 1)) same;
          static = p.slot;
        };
        verifies = verifies;
        raw =
            sym p.raw
            ∙ ap (λ t. base64.of_bytes (p.message.num_required_signatures ∷ (t ++ p.bytes)))
                (some_is (
                  sym p.stored
                  ∙ slot_set p.message.num_required_signatures p.signature
                      (subst
                        (λ m. (m.num_required_signatures ≡ 1) ⊎ (m.num_required_signatures ≡ 2))
                        same a.signers)
                      verifies.size));
      }
