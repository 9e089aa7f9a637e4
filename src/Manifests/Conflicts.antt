-- ===== src/Manifests/Conflicts.antt =====
-- The conflicts that nonceConflicts.ts reports, in terms of the manifests, the directory and the
-- chains.
use mathlib.Core.List.{Memᴰ}
use relay_settlement.Common.{
  ℕ, ◌≡◌, ◌⊎◌, inl, inr, refl, ap, ap₂, sym, ◌∙◌, List, ◌∷◌, true, Option, none, some, Bool-cases,
  equal_bytes, equal_bytes_iff, ◌≤◌, ==_iff, ◌++◌,
}
use relay_settlement.Host.{Text}
use relay_settlement.Manifests.{
  EthereumTx, NonceConflict, World, lookup, same_id, same_chain, slot_key, nonce_key,
  read_evm_transactions, read_nonces, current_nonce, find_nonce_conflicts,
}
use relay_settlement.Manifests.Keys.{
  NoColon, last_colon, Holds, read-Holds, Holds-read, IsSibling, sibling_manifests-IsSibling,
  IsSibling-sibling_manifests, lookup-read_nonces,
}
use relay_settlement.Manifests.Claims.{
  Found, nonces_of, find_nonce_conflicts-Found, Found-find_nonce_conflicts,
}

-- Two transactions run on one chain: they name the same RPC, or both RPCs answer with one chain id.
pub record SameChain (world : World) (own tx : EthereumTx) : Type 0 where
  pub same :
      (own.rpc ≡ tx.rpc)
      ⊎ ((id : ℕ) × (world.get_chain_id own.rpc ≡ some id) × (world.get_chain_id tx.rpc ≡ some id))

-- `c` reports a transaction of another manifest in the directory that has the sender, the nonce and
-- the chain of a transaction of the manifest, whose nonce is not spent.
pub record Conflict (world : World) (path : Text) (c : NonceConflict) : Type 0 where
  pub sibling : Text
  pub of_directory : IsSibling world path sibling
  pub tx : EthereumTx
  pub claimed : Holds world sibling tx
  pub own : EthereumTx
  pub of_manifest : Holds world path own
  pub sender : world.to_lower_case own.from ≡ world.to_lower_case tx.from
  pub nonce : own.nonce ≡ tx.nonce
  pub current : ℕ
  pub counted : world.get_transaction_count own.rpc own.from ≡ some current
  pub not_spent : current ≤ own.nonce
  pub chain : SameChain world own tx
  pub reported :
      c
      ≡ record { from = tx.from; manifest = world.basename sibling; nonce = tx.nonce; rpc = tx.rpc }

some_same : {A : Type 0} {x y : A} → some x ≡ some y → x ≡ y
some_same h = cc

same_id-ids : (a b : Option ℕ) → same_id a b ≡ true → (id : ℕ) × (a ≡ some id) × (b ≡ some id)
same_id-ids none none h = absurd (cc)
same_id-ids none (some b) h = absurd (cc)
same_id-ids (some a) none h = absurd (cc)
same_id-ids (some a) (some b) h = (b, ap some ((==_iff a b).0 h), refl)

module _ (world : World) where
  same_chain-SameChain :
      (own tx : EthereumTx) → same_chain world own.rpc tx.rpc ≡ true → SameChain world own tx
  unfolding same_chain
  same_chain-SameChain own tx h = elim (Bool-cases (equal_bytes own.rpc tx.rpc)) [
    | inl e ↦ record { same = inl ((equal_bytes_iff own.rpc tx.rpc).0 e) }
    | inr e ↦ record { same = inr (same_id-ids _ _ (rw (e, same_chain) at h)) }
  ]

  SameChain-same_chain :
      (own tx : EthereumTx) → SameChain world own tx → same_chain world own.rpc tx.rpc ≡ true
  unfolding same_chain
  SameChain-same_chain own tx s = elim (s.same) [
    | inl e ↦ rw ((equal_bytes_iff own.rpc tx.rpc).1 e, same_chain) refl
    | inr (id, p, q) ↦ elim (Bool-cases (equal_bytes own.rpc tx.rpc)) [
      | inl e ↦ rw (e, same_chain) refl
      | inr e ↦ rw (e, same_chain) (rw (p, q) ((==_iff id id).1 refl))
    ]
  ]

  module _ (numbers_differ : (m n : ℕ) → world.number_text m ≡ world.number_text n → m ≡ n)
      (digits : (n : ℕ) → NoColon (world.number_text n)) where
    slot_key_same :
        (a b : Text) (m n : ℕ)
        → slot_key world a m ≡ slot_key world b n
        → (world.to_lower_case a ≡ world.to_lower_case b) × (m ≡ n)
    unfolding slot_key
    slot_key_same a b m n e =
        let (p, q) =
          last_colon (world.to_lower_case a) (world.to_lower_case b) _ _ (digits m) (digits n) e in
        (p, numbers_differ m n q)

  slot_key_of :
      (a b : Text) (m n : ℕ)
      → world.to_lower_case a ≡ world.to_lower_case b
      → m ≡ n
      → slot_key world a m ≡ slot_key world b n
  unfolding slot_key
  slot_key_of a b m n p q = ap₂ (λ x k. x ++ (b':' ∷ world.number_text k)) p q

  module _
      (plain : (path : Text) (tx : EthereumTx)
        → Holds world path tx
        → NoColon (world.to_lower_case tx.from))
      (any_case : (rpc a b : Text)
        → world.to_lower_case a ≡ world.to_lower_case b
        → world.get_transaction_count rpc a ≡ world.get_transaction_count rpc b) where
    -- The count that is looked up for a transaction of the manifest is that of its sender.
    counted_own :
        (path : Text) (own : EthereumTx)
        → Memᴰ own (read_evm_transactions world path)
        → current_nonce world (lookup (nonce_key world own) (nonces_of world path))
          ≡ world.get_transaction_count own.rpc own.from
    unfolding nonce_key read_nonces
    counted_own path own m = ap (current_nonce world) (
        lookup-read_nonces world own (read_evm_transactions world path) m λ tx k e.
          let (p, q) =
            last_colon own.rpc tx.rpc _ _ (plain path own (read-Holds world path own m))
              (plain path tx (read-Holds world path tx k)) e in
          any_case tx.rpc tx.from own.from (sym q)
          ∙ ap (λ r. world.get_transaction_count r own.from) (sym p))

    -- A manifest is one that the schema accepts, so that no sender has a colon; a number is printed
    -- in digits that tell it; the count of transactions does not depend on the case of the sender;
    -- and sorting keeps the members. Then every conflict that is returned is one: another manifest in
    -- the directory has a transaction with the sender, up to case, the nonce and the chain of a
    -- transaction of the manifest, whose nonce is at least the sender's count, and it is reported with
    -- the name of that manifest.
    pub find_nonce_conflicts-Conflict :
        ((m n : ℕ) → world.number_text m ≡ world.number_text n → m ≡ n)
        → ((n : ℕ) → NoColon (world.number_text n))
        → ((ts : List Text) (t : Text) → Memᴰ t (world.sort ts) → Memᴰ t ts)
        → (path : Text) (c : NonceConflict) → Memᴰ c (find_nonce_conflicts world path)
        → Conflict world path c
    find_nonce_conflicts-Conflict numbers_differ digits sorted path c m =
        let f = find_nonce_conflicts-Found world path c m in
        let (sender, nonce) =
          slot_key_same numbers_differ digits f.own.from f.tx.from f.own.nonce f.tx.nonce
            f.still_open.slot in
        record {
          sibling = f.sibling;
          of_directory = sibling_manifests-IsSibling world sorted path f.sibling f.of_directory;
          tx = f.tx;
          claimed = read-Holds world f.sibling f.tx f.claimed;
          own = f.own;
          of_manifest = read-Holds world path f.own f.of_manifest;
          sender = sender;
          nonce = nonce;
          current = f.still_open.current;
          counted = sym (counted_own path f.own f.of_manifest) ∙ f.still_open.counted;
          not_spent = f.still_open.still_open;
          chain = same_chain-SameChain f.own f.tx f.chain;
          reported = f.reported;
        }

    -- Under the same conditions, where sorting loses no member, every conflict over a sender and a
    -- nonce that no other transaction of the manifest has is returned.
    pub Conflict-find_nonce_conflicts :
        ((m n : ℕ) → world.number_text m ≡ world.number_text n → m ≡ n)
        → ((n : ℕ) → NoColon (world.number_text n))
        → ((ts : List Text) (t : Text) → Memᴰ t ts → Memᴰ t (world.sort ts))
        → (path : Text) (c : NonceConflict) (r : Conflict world path c)
        → ((o : EthereumTx)
            → Holds world path o
            → world.to_lower_case o.from ≡ world.to_lower_case r.own.from
            → o.nonce ≡ r.own.nonce
            → o ≡ r.own)
        → Memᴰ c (find_nonce_conflicts world path)
    Conflict-find_nonce_conflicts numbers_differ digits sorted path c r only =
        let own_read = Holds-read world path r.own r.of_manifest in
        let slot = slot_key_of r.own.from r.tx.from r.own.nonce r.tx.nonce r.sender r.nonce in
        let found : Found world path c = record {
          sibling = r.sibling;
          of_directory = IsSibling-sibling_manifests world sorted path r.sibling r.of_directory;
          tx = r.tx;
          claimed = Holds-read world r.sibling r.tx r.claimed;
          own = r.own;
          of_manifest = own_read;
          still_open = record {
            slot = slot;
            current = r.current;
            counted = counted_own path r.own own_read ∙ r.counted;
            still_open = r.not_spent;
          };
          chain = SameChain-same_chain r.own r.tx r.chain;
          reported = r.reported;
        } in
        Found-find_nonce_conflicts world path c found λ o m e.
          let (sender, nonce) =
            slot_key_same numbers_differ digits o.from r.own.from o.nonce r.own.nonce
              (e ∙ sym slot) in
          only o (read-Holds world path o m) sender nonce
