-- ===== src/Bitcoin/Policy/Accepted.antt =====
-- What a deposit that the check accepts looks like.
use relay_settlement.Common.{
  refl, ap, sym, subst₂, ◌↔◌, ◌++◌, ◌∙◌, require-eq-ok, ℕ, ◌+◌, ◌≡◌, ◌≢◌, ◌⊎◌, List, [], ◌∷◌, true,
  false, Option, none, some, ok, and_then, and_then-eq-ok, arith, length, All, equal_bytes,
  equal_bytes_iff, find?, find?-none, find?-All, Option-cases, Bool-cases, inl, inr, subst,
  if◌then◌else◌,
}
use relay_settlement.Host.{natural_big_int, Text, Host, starts_with}
use relay_settlement.Bitcoin.Reader.{Error}
use relay_settlement.Bitcoin.Tx.{TxOutput, ParsedTx, parse_tx}
use relay_settlement.Bitcoin.Scripts.{address_scripts, op_return, find_depositor}
use relay_settlement.Bitcoin.Scripts.Depositor.{
  Names, starts_with_split, starts_with-append, find_depositor-Names,
}
use relay_settlement.Bitcoin.Address.{
  or_throw-eq-ok, encode_bitcoin_address_to_hex, normalize_bitcoin_address_hex,
}
use relay_settlement.Bitcoin.Policy.{
  Trigger, Attestation, BitcoinVmTransaction, btc_native, assert_counts, amount_to,
  is_invalid_change, metadata_of, truthy, assert_metadata, assert_outputs,
  assert_bitcoin_deposit_transaction,
}

-- The value of the outputs whose script is `script`.
abbrev pub paid_to : List ℕ → List TxOutput → ℕ
paid_to script [] = 0
paid_to script (o ∷ os) = (if equal_bytes script o.script then o.value else 0) + paid_to script os

some_same : {A : Type 0} {x y : A} → some x ≡ some y → x ≡ y
some_same h = cc

address_scripts_one :
    (host : Host) (text : Text) (scripts : List (List ℕ))
    → address_scripts host text ≡ ok scripts
    → (script : List ℕ) × (scripts ≡ script ∷ [])
unfolding address_scripts
address_scripts_one host text scripts h =
    let (bytes, e, rest) = and_then-eq-ok _ _ h in
    let (script, e', last) = and_then-eq-ok _ _ rest in (script, cc)

amount_to-one : (s : List ℕ) (os : List TxOutput) → amount_to (s ∷ []) os ≡ paid_to s os
unfolding amount_to
amount_to-one s [] = refl
amount_to-one s (o ∷ os) = ground (arith, amount_to-one s os)

valid_output :
    (host : Host) (s t : List ℕ) (o : TxOutput)
    → is_invalid_change host (s ∷ []) (t ∷ []) o ≡ false
    → (o.script ≡ s) ⊎ ((op_return host o.script ≢ none) ⊎ (o.script ≡ t))
unfolding is_invalid_change
valid_output host s t o h = ground (arith, equal_bytes_iff s o.script, equal_bytes_iff t o.script)

pub assert_counts-eq-ok :
    (tx : ParsedTx) (given : BitcoinVmTransaction)
    → assert_counts tx given ≡ ok tt
    → (length given.sighashes ≡ length tx.inputs) × (length given.input_values ≡ length tx.inputs)
unfolding assert_counts
assert_counts-eq-ok tx given h = ground arith

module _ (host : Host) (trigger : Trigger) where
  assert_outputs-eq-ok :
      (scripts refunds : List (List ℕ)) (expected : ℕ) (outputs : List TxOutput)
      → assert_outputs host trigger scripts refunds expected outputs ≡ ok tt
      → (amount_to scripts outputs ≡ expected)
        × (find? (is_invalid_change host scripts refunds) outputs ≡ none)
        × (assert_metadata host trigger outputs ≡ ok tt)
  unfolding assert_outputs
  assert_outputs-eq-ok scripts refunds expected outputs h = ground arith

  outputs_valid :
      (s t : List ℕ) (os : List TxOutput)
      → All (λ o. is_invalid_change host (s ∷ []) (t ∷ []) o ≡ false) os
      → All (λ o. (o.script ≡ s) ⊎ ((op_return host o.script ≢ none) ⊎ (o.script ≡ t))) os
  outputs_valid s t [] h = tt
  outputs_valid s t (o ∷ os) h = (valid_output host s t o h.0, outputs_valid s t os h.1)

  truthy-eq-some : (o : Option Text) (m : Text) → truthy o ≡ some m → o ≡ some m
  truthy-eq-some none m h = absurd (cc)
  truthy-eq-some (some []) m h = absurd (cc)
  truthy-eq-some (some (c ∷ cs)) m h = h

  -- The output `o` is an OP_RETURN whose text begins with the order's id.
  pub record Carries (o : TxOutput) (text : Text) : Type 0 where
    pub data_text : op_return host o.script ≡ some text
    pub behind_id : Text
    pub begins : text ≡ trigger.order_id ++ behind_id

  -- `text` is carried by an output, and the outputs before that one carry none.
  pub record First (outputs : List TxOutput) (text : Text) : Type 0 where
    pub earlier : List TxOutput
    pub carrier : TxOutput
    pub later : List TxOutput
    pub at : outputs ≡ earlier ++ (carrier ∷ later)
    pub carries : Carries carrier text
    pub none_earlier : All (λ o. (t : Text) → ¬ (Carries o t)) earlier

  metadata_of_here :
      (o : TxOutput) (os : List TxOutput) (text : Text)
      → Carries o text
      → metadata_of host trigger.order_id (o ∷ os) ≡ some text
  unfolding metadata_of
  metadata_of_here o os text c =
      let begins : starts_with trigger.order_id text ≡ true =
        ap (starts_with trigger.order_id) c.begins
        ∙ starts_with-append trigger.order_id c.behind_id in
      rw (c.data_text, metadata_of) (rw begins refl)

  metadata_of_later :
      (o : TxOutput) (os : List TxOutput)
      → ((t : Text) → ¬ (Carries o t))
      → metadata_of host trigger.order_id (o ∷ os) ≡ metadata_of host trigger.order_id os
  unfolding metadata_of
  metadata_of_later o os no_text = elim (Option-cases (op_return host o.script)) [
    | inl e ↦ rw (e, metadata_of) refl
    | inr (text, e) ↦ elim (Bool-cases (starts_with trigger.order_id text)) [
      | inl s ↦
          let (behind, begins) = starts_with_split trigger.order_id text s in
          absurd (no_text text (record { data_text = e; behind_id = behind; begins = begins }))
      | inr s ↦ rw (e, metadata_of) (rw s refl)
    ]
  ]

  Carries-dec : (o : TxOutput) → ((t : Text) × Carries o t) ⊎ ((t : Text) → ¬ (Carries o t))
  Carries-dec o = elim (Option-cases (op_return host o.script)) [
    | inl e ↦ inr (λ t c. cc (c.data_text, e))
    | inr (text, e) ↦ elim (Bool-cases (starts_with trigger.order_id text)) [
      | inl s ↦
          let (behind, begins) = starts_with_split trigger.order_id text s in
          inl (text, record { data_text = e; behind_id = behind; begins = begins })
      | inr s ↦ inr (λ t c.
          let same : t ≡ text = some_same (sym c.data_text ∙ e) in
          cc (
            s,
            ap (starts_with trigger.order_id) (sym same ∙ c.begins)
                ∙ starts_with-append trigger.order_id c.behind_id,
          ))
    ]
  ]

  metadata_of-First :
      (outputs : List TxOutput) (text : Text)
      → metadata_of host trigger.order_id outputs ≡ some text
      → First outputs text
  unfolding metadata_of
  metadata_of-First [] text h = absurd (cc)
  metadata_of-First (o ∷ os) text h = elim (Carries-dec o) [
    | inl (t, c) ↦
        let same : t ≡ text = some_same (sym (metadata_of_here o os t c) ∙ h) in
        record {
          earlier = [];
          carrier = o;
          later = os;
          at = refl;
          carries = subst (Carries o) same c;
          none_earlier = tt;
        }
    | inr no_text ↦
        let ih = metadata_of-First os text (sym (metadata_of_later o os no_text) ∙ h) in
        record {
          earlier = o ∷ ih.earlier;
          carrier = ih.carrier;
          later = ih.later;
          at = ap (λ l. o ∷ l) ih.at;
          carries = ih.carries;
          none_earlier = (no_text, ih.none_earlier);
        }
  ]

  metadata_of_split :
      (earlier : List TxOutput) (o : TxOutput) (later : List TxOutput) (text : Text)
      → Carries o text
      → All (λ e. (t : Text) → ¬ (Carries e t)) earlier
      → metadata_of host trigger.order_id (earlier ++ (o ∷ later)) ≡ some text
  metadata_of_split [] o later text c no_text = metadata_of_here o later text c
  metadata_of_split (e ∷ es) o later text c no_text =
      metadata_of_later e (es ++ (o ∷ later)) no_text.0
      ∙ metadata_of_split es o later text c no_text.1

  First-metadata_of :
      (outputs : List TxOutput) (text : Text)
      → First outputs text
      → metadata_of host trigger.order_id outputs ≡ some text
  First-metadata_of outputs text f =
      ap (metadata_of host trigger.order_id) f.at
      ∙ metadata_of_split f.earlier f.carrier f.later text f.carries f.none_earlier

  -- An OP_RETURN output names the order and the depositor.
  pub record Named (outputs : List TxOutput) : Type 0 where
    pub metadata : Text
    pub carried : First outputs metadata
    pub depositor : Text
    pub first_match : find_depositor metadata ≡ some depositor
    pub names : Names metadata depositor
    pub encoded : Text
    pub depositor_hex : encode_bitcoin_address_to_hex host depositor ≡ ok encoded
    pub same_depositor : host.to_lower_case encoded ≡ host.to_lower_case trigger.depositor

  assert_metadata-Named :
      (outputs : List TxOutput) → assert_metadata host trigger outputs ≡ ok tt → Named outputs
  unfolding assert_metadata
  assert_metadata-Named outputs h =
      let (metadata, found, h1) = and_then-eq-ok _ _ h in
      let (depositor, match, h2) = and_then-eq-ok _ _ h1 in
      let (encoded, hex, h3) = and_then-eq-ok _ _ h2 in
      record {
        metadata = metadata;
        carried =
            metadata_of-First outputs metadata
              (truthy-eq-some _ metadata (or_throw-eq-ok Error.no_metadata _ metadata found));
        depositor = depositor;
        first_match = or_throw-eq-ok Error.no_depositor _ depositor match;
        names =
            find_depositor-Names metadata depositor
              (or_throw-eq-ok Error.no_depositor _ depositor match);
        encoded = encoded;
        depositor_hex = hex;
        same_depositor = (equal_bytes_iff _ _).0 (require-eq-ok _ Error.depositor_mismatch h3);
      }

pub record Accepted (host : Host) (trigger : Trigger) (attestation : Attestation)
    (given : BitcoinVmTransaction) : Type 0 where
  pub tx : ParsedTx
  pub parsed : parse_tx host.noble_hex_to_bytes given.unsigned_transaction ≡ ok tx
  pub sighash_count : length given.sighashes ≡ length tx.inputs
  pub value_count : length given.input_values ≡ length tx.inputs
  pub native : Text
  pub native_hex : btc_native host ≡ ok native
  pub native_currency : normalize_bitcoin_address_hex host trigger.currency ≡ ok native
  pub depository : List ℕ
  pub depository_script : address_scripts host attestation.input_depository ≡ ok (depository ∷ [])
  pub refund : List ℕ
  pub refund_script : address_scripts host trigger.refund_recipient ≡ ok (refund ∷ [])
  -- exactly the amount of the trigger goes to the depository
  pub amount : natural_big_int host trigger.amount ≡ some (paid_to depository tx.outputs)
  -- and every other output carries data or pays the refund
  pub outputs :
      All
        (λ o. (o.script ≡ depository) ⊎ ((op_return host o.script ≢ none) ⊎ (o.script ≡ refund)))
        tx.outputs
  pub named : Named host trigger tx.outputs

module _ (host : Host) (trigger : Trigger) (attestation : Attestation)
    (given : BitcoinVmTransaction) where
  assert_bitcoin_deposit_transaction-Accepted :
      assert_bitcoin_deposit_transaction host trigger attestation given ≡ ok tt
      → Accepted host trigger attestation given
  unfolding assert_bitcoin_deposit_transaction
  assert_bitcoin_deposit_transaction-Accepted h =
      let (native, native_ok, h1) = and_then-eq-ok _ _ h in
      let (currency, currency_ok, h2) = and_then-eq-ok _ _ h1 in
      let (u, same, h3) = and_then-eq-ok _ _ h2 in
      let (tx, parsed, h4) = and_then-eq-ok _ _ h3 in
      let (u', counts, h5) = and_then-eq-ok _ _ h4 in
      let (expected, amount, h6) = and_then-eq-ok _ _ h5 in
      let (scripts, scripts_ok, h7) = and_then-eq-ok _ _ h6 in
      let (refunds, refunds_ok, h8) = and_then-eq-ok _ _ h7 in
      let (s, one) = address_scripts_one host attestation.input_depository scripts scripts_ok in
      let (t, one') = address_scripts_one host trigger.refund_recipient refunds refunds_ok in
      let (total, valid, metadata) =
        assert_outputs-eq-ok host trigger (s ∷ []) (t ∷ []) expected tx.outputs (
          subst₂ (λ a b. assert_outputs host trigger a b expected tx.outputs ≡ ok tt) one one'
            h8) in
      let (n, m) = assert_counts-eq-ok tx given counts in
      record {
        tx = tx;
        parsed = parsed;
        sighash_count = n;
        value_count = m;
        native = native;
        native_hex = native_ok;
        native_currency =
            currency_ok
            ∙ ap ok
                ((equal_bytes_iff currency native).0 (require-eq-ok _ Error.only_native_btc same));
        depository = s;
        depository_script = scripts_ok ∙ ap ok one;
        refund = t;
        refund_script = refunds_ok ∙ ap ok one';
        amount =
            or_throw-eq-ok Error.bad_big_int _ expected amount
            ∙ ap some (sym total ∙ amount_to-one s tx.outputs);
        outputs = outputs_valid host trigger s t tx.outputs (find?-none _ tx.outputs valid);
        named = assert_metadata-Named host trigger tx.outputs metadata;
      }

invalid_output :
    (host : Host) (s t : List ℕ) (o : TxOutput)
    → (o.script ≡ s) ⊎ ((op_return host o.script ≢ none) ⊎ (o.script ≡ t))
    → is_invalid_change host (s ∷ []) (t ∷ []) o ≡ false
unfolding is_invalid_change
invalid_output host s t o h = ground (arith, equal_bytes_iff s o.script, equal_bytes_iff t o.script)

outputs_not_invalid :
    (host : Host) (s t : List ℕ) (os : List TxOutput)
    → All (λ o. (o.script ≡ s) ⊎ ((op_return host o.script ≢ none) ⊎ (o.script ≡ t))) os
    → All (λ o. is_invalid_change host (s ∷ []) (t ∷ []) o ≡ false) os
outputs_not_invalid host s t [] h = tt
outputs_not_invalid host s t (o ∷ os) h =
    (invalid_output host s t o h.0, outputs_not_invalid host s t os h.1)

before-ne-nil : (b : Text) (c : ℕ) (t : Text) → b ++ (c ∷ t) ≢ []
before-ne-nil [] c t h = cc
before-ne-nil (x ∷ b) c t h = cc

Names-truthy : (m d : Text) → Names m d → truthy (some m) ≡ some m
Names-truthy [] d h = absurd (before-ne-nil h.before _ _ (sym h.at))
Names-truthy (c ∷ cs) d h = refl

equal_bytes_same : (xs ys : List ℕ) → xs ≡ ys → equal_bytes xs ys ≡ true
equal_bytes_same xs ys h = (equal_bytes_iff xs ys).1 h

module _ (host : Host) (trigger : Trigger) where
  Named-assert_metadata :
      (outputs : List TxOutput)
      → Named host trigger outputs
      → assert_metadata host trigger outputs ≡ ok tt
  unfolding assert_metadata and_then
  Named-assert_metadata outputs n = rw (
    First-metadata_of host trigger outputs n.metadata n.carried,
    Names-truthy n.metadata n.depositor n.names,
    n.first_match,
    n.depositor_hex,
    equal_bytes_same _ _ n.same_depositor,
  )

  assert_outputs_ok :
      (s t : List ℕ) (outputs : List TxOutput)
      → All (λ o. (o.script ≡ s) ⊎ ((op_return host o.script ≢ none) ⊎ (o.script ≡ t))) outputs
      → Named host trigger outputs
      → assert_outputs host trigger (s ∷ []) (t ∷ []) (paid_to s outputs) outputs ≡ ok tt
  unfolding assert_outputs
  assert_outputs_ok s t outputs h n = ground (
    arith,
    amount_to-one s outputs,
    find?-All (is_invalid_change host (s ∷ []) (t ∷ [])) outputs
        (outputs_not_invalid host s t outputs h),
    Named-assert_metadata outputs n,
  )

  assert_counts_ok :
      (tx : ParsedTx) (given : BitcoinVmTransaction)
      → length given.sighashes ≡ length tx.inputs
      → length given.input_values ≡ length tx.inputs
      → assert_counts tx given ≡ ok tt
  unfolding assert_counts
  assert_counts_ok tx given p q = ground arith

  Accepted-assert :
      (attestation : Attestation) (given : BitcoinVmTransaction)
      → Accepted host trigger attestation given
      → assert_bitcoin_deposit_transaction host trigger attestation given ≡ ok tt
  unfolding assert_bitcoin_deposit_transaction and_then
  Accepted-assert attestation given a =
      rw
        (
          a.native_hex,
          a.native_currency,
          equal_bytes_same a.native a.native refl,
          a.parsed,
          assert_counts_ok a.tx given a.sighash_count a.value_count,
          a.amount,
          a.depository_script,
          a.refund_script,
        )
        (assert_outputs_ok a.depository a.refund a.tx.outputs a.outputs a.named)

-- A transaction is accepted exactly when it parses, has as many digests and values as inputs, and
-- moves native bitcoin: exactly the amount of the trigger goes to the script of the depository,
-- every other output is an OP_RETURN or pays the script of the refund address, and the first
-- OP_RETURN text that begins with the order's id names, between `|depositor=` and a bar, an address
-- that is encoded to the depositor of the trigger.
pub assert_bitcoin_deposit_transaction_iff :
    (host : Host) (trigger : Trigger) (attestation : Attestation) (given : BitcoinVmTransaction)
    → (assert_bitcoin_deposit_transaction host trigger attestation given ≡ ok tt)
      ↔ Accepted host trigger attestation given
assert_bitcoin_deposit_transaction_iff host trigger attestation given = (
  assert_bitcoin_deposit_transaction-Accepted host trigger attestation given,
  Accepted-assert host trigger attestation given,
)
