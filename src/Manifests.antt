-- ===== src/Manifests.antt =====
-- packages/multisig-tools/src/helpers/nonceConflicts.ts: manifests in one directory that claim the
-- same nonce. Files, their parse by the schema and the RPC calls are the fields of a record; an
-- unreachable RPC and a file that does not parse are `none`. The cache of chain ids is left out, as
-- it gives what the call gave. Paths are resolved, and the directory is that of the manifest.
pub mod Claims
pub mod Keys
pub mod Conflicts
mod Tests
use relay_settlement.Common.{
  ℕ, zero, suc, List, [], ◌∷◌, ◌++◌, Bool, true, false, not, ◌&&◌, ◌||◌, Option, none, some, ltb,
  ◌==◌, equal_bytes, if◌then◌else◌, map,
}
use relay_settlement.Host.{Text}

-- A transaction of a manifest; only those of the family `ethereum-vm` have a nonce.
pub record EthereumTx : Type 0 where
  pub from : Text
  pub nonce : ℕ
  pub rpc : Text

pub data ManifestTx : Type 0 where
  ethereum_vm : EthereumTx → ManifestTx
  other_family : ManifestTx

pub record NonceConflict : Type 0 where
  pub from : Text
  pub manifest : Text
  pub nonce : ℕ
  pub rpc : Text

pub record World : Type 0 where
  pub parse_manifest : Text → Option (List ManifestTx)
  pub directory : List Text
  pub is_json : Text → Bool
  pub in_directory : Text → Text
  pub sort : List Text → List Text
  pub basename : Text → Text
  pub get_transaction_count : Text → Text → Option ℕ
  pub get_chain_id : Text → Option ℕ
  pub to_lower_case : Text → Text
  pub number_text : ℕ → Text

unfoldable pub only_evm : List ManifestTx → List EthereumTx
only_evm [] = []
only_evm (ethereum_vm tx ∷ txs) = tx ∷ only_evm txs
only_evm (other_family ∷ txs) = only_evm txs

abbrev pub same_id : Option ℕ → Option ℕ → Bool
same_id (some a) (some b) = a == b
same_id _ _ = false

abbrev pub parsed : Option (List ManifestTx) → List ManifestTx
parsed none = []
parsed (some txs) = txs

-- The value of a key in a map, the entry that was set last first.
unfoldable pub lookup {ℓ} : {A : Type ℓ} → Text → List (Text × A) → Option A
lookup key [] = none
lookup key ((k, a) ∷ rest) =
    let later = lookup key rest in if equal_bytes key k then some a else later

module _ (world : World) where
  unfoldable pub same_chain : Text → Text → Bool
  same_chain a b = equal_bytes a b || same_id (world.get_chain_id a) (world.get_chain_id b)

  unfoldable pub slot_key : Text → ℕ → Text
  slot_key from nonce = world.to_lower_case from ++ (b':' ∷ world.number_text nonce)

  unfoldable pub nonce_key : EthereumTx → Text
  nonce_key tx = tx.rpc ++ (b':' ∷ world.to_lower_case tx.from)

  unfoldable pub read_evm_transactions : Text → List EthereumTx
  unfolding only_evm
  read_evm_transactions path = only_evm (parsed (world.parse_manifest path))

  unfoldable pub keep_siblings : Text → List Text → List Text
  keep_siblings path [] = []
  keep_siblings path (name ∷ names) =
      let rest = keep_siblings path names in
      if world.is_json name && not (equal_bytes (world.in_directory name) path)
      then world.in_directory name ∷ rest
      else rest

  unfoldable pub sibling_manifests : Text → List Text
  unfolding keep_siblings
  sibling_manifests path = world.sort (keep_siblings path world.directory)

  -- The loop that asks for each key once.
  unfoldable pub read_nonces : List EthereumTx → List (Text × Option ℕ) → List (Text × Option ℕ)
  unfolding nonce_key lookup
  read_nonces [] known = known
  read_nonces (tx ∷ txs) known = elim (lookup (nonce_key tx) known) [
    | some n ↦ read_nonces txs known
    | none ↦ read_nonces txs ((nonce_key tx, world.get_transaction_count tx.rpc tx.from) ∷ known)
  ]

  -- `get`, where a missing entry is undefined as an unreachable RPC is.
  abbrev pub current_nonce : Option (Option ℕ) → Option ℕ
  current_nonce none = none
  current_nonce (some n) = n

  abbrev pub is_open : Option ℕ → ℕ → Bool
  is_open none nonce = false
  is_open (some current) nonce = not (ltb nonce current)

  unfoldable pub open_slots :
      List (Text × Option ℕ) → List EthereumTx → List (Text × EthereumTx) → List (Text × EthereumTx)
  unfolding nonce_key lookup slot_key
  open_slots nonces [] slots = slots
  open_slots nonces (tx ∷ txs) slots = open_slots nonces txs (
      if is_open (current_nonce (lookup (nonce_key tx) nonces)) tx.nonce
      then (slot_key tx.from tx.nonce, tx) ∷ slots
      else slots)

  abbrev pub conflict_of : Text → EthereumTx → NonceConflict
  conflict_of sibling tx = record {
    from = tx.from;
    manifest = world.basename sibling;
    nonce = tx.nonce;
    rpc = tx.rpc;
  }

  -- Whether the slot of a sibling's transaction is open and on the same chain.
  abbrev pub contends : Option EthereumTx → EthereumTx → Bool
  contends none tx = false
  contends (some own) tx = same_chain own.rpc tx.rpc

  unfoldable pub sibling_conflicts :
      List (Text × EthereumTx) → Text → List EthereumTx → List NonceConflict
  unfolding lookup slot_key same_chain
  sibling_conflicts slots sibling [] = []
  sibling_conflicts slots sibling (tx ∷ txs) =
      let rest = sibling_conflicts slots sibling txs in
      if contends (lookup (slot_key tx.from tx.nonce) slots) tx
      then conflict_of sibling tx ∷ rest
      else rest

  unfoldable pub all_conflicts : List (Text × EthereumTx) → List Text → List NonceConflict
  unfolding sibling_conflicts read_evm_transactions
  all_conflicts slots [] = []
  all_conflicts slots (s ∷ siblings) =
      sibling_conflicts slots s (read_evm_transactions s) ++ all_conflicts slots siblings

  -- The early returns of the code are the runs on empty lists.
  unfoldable pub find_nonce_conflicts : Text → List NonceConflict
  unfolding read_evm_transactions read_nonces open_slots sibling_manifests all_conflicts
  find_nonce_conflicts path =
      let transactions = read_evm_transactions path in
      all_conflicts (open_slots (read_nonces transactions []) transactions [])
        (sibling_manifests path)
