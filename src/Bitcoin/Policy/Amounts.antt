-- ===== src/Bitcoin/Policy/Amounts.antt =====
-- Where the value of an accepted deposit goes.
use relay_settlement.Common.{
  ℕ, ◌+◌, ◌≤◌, ◌≡◌, ◌≢◌, ◌⊎◌, List, [], ◌∷◌, none, some, ok, arith, All, equal_bytes_iff,
  if◌then◌else◌,
}
use relay_settlement.Host.{natural_big_int, Host}
use relay_settlement.Bitcoin.Tx.{TxOutput}
use relay_settlement.Bitcoin.Scripts.{op_return}
use relay_settlement.Bitcoin.Policy.{
  Trigger, Attestation, BitcoinVmTransaction, is_some, assert_bitcoin_deposit_transaction,
}
use relay_settlement.Bitcoin.Policy.Accepted.{
  Accepted, paid_to, assert_bitcoin_deposit_transaction_iff,
}

abbrev pub total_value : List TxOutput → ℕ
total_value [] = 0
total_value (o ∷ os) = o.value + total_value os

-- The value of the outputs that carry data.
abbrev pub data_value : Host → List TxOutput → ℕ
data_value host [] = 0
data_value host (o ∷ os) =
    (if is_some (op_return host o.script) then o.value else 0) + data_value host os

valid_total :
    (host : Host) (s t : List ℕ) (os : List TxOutput)
    → All (λ o. (o.script ≡ s) ⊎ ((op_return host o.script ≢ none) ⊎ (o.script ≡ t))) os
    → total_value os ≤ paid_to s os + paid_to t os + data_value host os
valid_total host s t [] h = omega arith
valid_total host s t (o ∷ os) h = ground (
  arith,
  valid_total host s t os h.1,
  h.0,
  equal_bytes_iff s o.script,
  equal_bytes_iff t o.script,
)

-- All that an accepted transaction pays out is the amount of the trigger, what goes back to the
-- refund address, and what its OP_RETURN outputs hold.
pub total_value-le :
    (host : Host) (trigger : Trigger) (attestation : Attestation) (given : BitcoinVmTransaction)
    → assert_bitcoin_deposit_transaction host trigger attestation given ≡ ok tt
    → (a : Accepted host trigger attestation given) × (amount : ℕ) × (natural_big_int host
          trigger.amount
        ≡ some amount)
      × (total_value a.tx.outputs
          ≤ amount + paid_to a.refund a.tx.outputs + data_value host a.tx.outputs)
total_value-le host trigger attestation given h =
    let a = (assert_bitcoin_deposit_transaction_iff host trigger attestation given).0 h in
    (
      a,
      paid_to a.depository a.tx.outputs,
      a.amount,
      valid_total host a.depository a.refund a.tx.outputs a.outputs,
    )
