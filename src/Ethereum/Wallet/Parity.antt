-- ===== src/Ethereum/Wallet/Parity.antt =====
-- `signEvmDigest` and `buildSignature` one after the other.
use relay_settlement.Common.{
  ℕ, ◌+◌, ◌*◌, List, Bool, true, false, Option, none, some, Result, ok, err, ◌==◌, if◌then◌else◌,
}
use relay_settlement.Host.{Host}
use relay_settlement.Ethereum.Address.{hex_of}
use relay_settlement.Ethereum.Wallet.{WalletError, Last, Signature}

-- The last part of a signature with a parity.
abbrev pub last_of_kind : Bool → Option ℕ → ℕ → Result WalletError Last
last_of_kind false chain parity = ok (Last.y_parity parity)
last_of_kind true none parity = err WalletError.no_chain_id
last_of_kind true (some chain) parity = ok (Last.v_number (35 + chain * 2 + parity))

abbrev pub with_last : Host → List ℕ → List ℕ → Last → Result WalletError Signature
with_last host r s last = ok (record { r = hex_of host r; s = hex_of host s; last = last })

abbrev mark : ℕ → ℕ
mark recovery = if recovery == 0 then 27 else 28
