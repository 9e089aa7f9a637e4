-- ===== src/Manifests/Tests.antt =====
-- Two manifests that claim one nonce, and the theorems at them. In a third manifest two
-- transactions claim one nonce on two chains.
use mathlib.Core.List.{Memᴰ}
use mathlib.Core.List.Memᴰ
use relay_settlement.Common.{
  ℕ, zero, suc, get_or, ◌⊎◌, inl, inr, ap, sym, subst, Bool-cases, ◌≡◌, refl, List, [], ◌∷◌, Option,
  none, some, true, equal_bytes, arith, ◌==◌, if◌then◌else◌,
}
use relay_settlement.Host.{Text}
use relay_settlement.Manifests.{
  EthereumTx, ethereum_vm, ManifestTx, NonceConflict, World, only_evm, lookup, same_chain, slot_key,
  nonce_key, read_evm_transactions, keep_siblings, sibling_manifests, read_nonces, open_slots,
  sibling_conflicts, all_conflicts, find_nonce_conflicts,
}
use relay_settlement.Manifests.Keys.{NoColon, Holds}
use relay_settlement.Manifests.Conflicts.{
  Conflict, find_nonce_conflicts-Conflict, Conflict-find_nonce_conflicts,
}

abbrev on_one : EthereumTx
on_one = record { from = 7 ∷ []; nonce = 5; rpc = 1 ∷ [] }

abbrev on_two : EthereumTx
on_two = record { from = 7 ∷ []; nonce = 5; rpc = 2 ∷ [] }

-- The manifests `a` and `b` hold a transaction on the first chain, `c` holds one on each.
abbrev manifest : Text → Option (List ManifestTx)
manifest [] = none
manifest (c ∷ cs) =
    if c == b'c'
    then some (ethereum_vm on_one ∷ ethereum_vm on_two ∷ [])
    else some (ethereum_vm on_one ∷ [])

abbrev chain_of : Text → Option ℕ
chain_of [] = none
chain_of (c ∷ cs) = some c

abbrev ones : ℕ → Text
ones zero = []
ones (suc n) = b'1' ∷ ones n

abbrev world : World
world = record {
  parse_manifest = manifest;
  directory = (b'a' ∷ []) ∷ (b'b' ∷ []) ∷ [];
  is_json = λ t. true;
  in_directory = λ t. t;
  sort = λ ts. ts;
  basename = λ t. t;
  get_transaction_count = λ r f. some 5;
  get_chain_id = chain_of;
  to_lower_case = λ t. t;
  number_text = ones;
}

abbrev conflict : NonceConflict
conflict = record { from = 7 ∷ []; manifest = b'b' ∷ []; nonce = 5; rpc = 1 ∷ [] }

found_run : find_nonce_conflicts world (b'a' ∷ []) ≡ conflict ∷ []
unfolding find_nonce_conflicts read_evm_transactions only_evm read_nonces nonce_key lookup
    open_slots slot_key sibling_manifests keep_siblings all_conflicts sibling_conflicts same_chain
    equal_bytes
found_run = refl

found_mem : Memᴰ conflict (find_nonce_conflicts world (b'a' ∷ []))
unfolding found_run
found_mem = Memᴰ.head refl

-- The siblings `a` and `b` claim the slot of the transaction of `c` on the first chain, but that
-- slot was overwritten by the one on the second chain: no conflict is returned.
overwritten_slot : find_nonce_conflicts world (b'c' ∷ []) ≡ []
unfolding find_nonce_conflicts read_evm_transactions only_evm read_nonces nonce_key lookup
    open_slots slot_key sibling_manifests keep_siblings all_conflicts sibling_conflicts same_chain
    equal_bytes
overwritten_slot = refl

-- The number as so many strokes.
ones_differ : (m n : ℕ) → ones m ≡ ones n → m ≡ n
ones_differ zero zero h = refl
ones_differ zero (suc n) h = absurd (cc)
ones_differ (suc m) zero h = absurd (cc)
ones_differ (suc m) (suc n) h = ap suc (ones_differ m n (rest_same h))
  where
    rest_same : {c d : ℕ} {t u : Text} → c ∷ t ≡ d ∷ u → t ≡ u
    rest_same h = cc

ones_plain : (n : ℕ) → NoColon (ones n)
ones_plain zero = tt
ones_plain (suc n) = (omega arith, ones_plain n)

unwrap : {x y : EthereumTx} → ethereum_vm x ≡ ethereum_vm y → x ≡ y
unwrap h = cc

contents_of : {x y : List ManifestTx} → some x ≡ some y → x ≡ y
contents_of h = cc

on_two_chains :
    (p : Text) (txs : List ManifestTx) (tx : EthereumTx)
    → manifest p ≡ some txs
    → Memᴰ (ethereum_vm tx) txs
    → (tx ≡ on_one) ⊎ (tx ≡ on_two)
on_two_chains [] txs tx e m = absurd (cc)
on_two_chains (c ∷ cs) txs tx e m = elim (Bool-cases (c == b'c')) [
  | inl k ↦
      elim (Memᴰ.cases_cons
        (subst (λ l. Memᴰ (ethereum_vm tx) l) (sym (contents_of (rw k at e))) m)) [
          | inl here ↦ inl (unwrap here)
          | inr later ↦ inr (unwrap (Memᴰ.eq_of_singleton later))
        ]
  | inr k ↦ inl (
      unwrap (
        Memᴰ.eq_of_singleton
          (subst (λ l. Memᴰ (ethereum_vm tx) l) (sym (contents_of (rw k at e))) m)))
]

plain : (p : Text) (tx : EthereumTx) → Holds world p tx → NoColon tx.from
plain p tx h = elim (on_two_chains p h.transactions tx h.manifest h.member) [
  | inl e ↦ subst (λ x. NoColon x.from) (sym e) (omega arith, tt)
  | inr e ↦ subst (λ x. NoColon x.from) (sym e) (omega arith, tt)
]

only_one : (o : EthereumTx) → Holds world (b'a' ∷ []) o → o ≡ on_one
only_one o h = unwrap (
    Memᴰ.eq_of_singleton
      (subst (λ l. Memᴰ (ethereum_vm o) l) (sym (contents_of h.manifest)) h.member))

find_nonce_conflicts-Conflict_example : Conflict world (b'a' ∷ []) conflict
find_nonce_conflicts-Conflict_example =
    find_nonce_conflicts-Conflict world plain (λ r a b e. refl) ones_differ ones_plain (λ ts t m. m)
      (b'a' ∷ []) conflict found_mem

given_conflict : Conflict world (b'a' ∷ []) conflict
given_conflict = record {
  sibling = b'b' ∷ [];
  of_directory = record {
    name = b'b' ∷ [];
    listed = Memᴰ.tail (Memᴰ.head refl);
    json = refl;
    at = refl;
    other = λ e. absurd (omega (arith, ap (λ t. get_or t 0 0) e));
  };
  tx = on_one;
  claimed = record { transactions = _; manifest = refl; member = Memᴰ.head refl };
  own = on_one;
  of_manifest = record { transactions = _; manifest = refl; member = Memᴰ.head refl };
  sender = refl;
  nonce = refl;
  current = 5;
  counted = refl;
  not_spent = omega arith;
  chain = record { same = inl refl };
  reported = refl;
}

Conflict-find_nonce_conflicts_example : Memᴰ conflict (find_nonce_conflicts world (b'a' ∷ []))
unfolding given_conflict
Conflict-find_nonce_conflicts_example =
    Conflict-find_nonce_conflicts world plain (λ r a b e. refl) ones_differ ones_plain (λ ts t m. m)
      (b'a' ∷ []) conflict given_conflict (λ o h p q. only_one o h)
