-- ===== src/Manifests/Claims.antt =====
-- The conflicts that nonceConflicts.ts reports, in terms of its own keys and maps.
use mathlib.Core.List.{Memᴰ}
use mathlib.Core.List.Memᴰ
use relay_settlement.Common.{
  ℕ, ◌≡◌, ◌⊎◌, inl, inr, refl, ap, sym, ◌∙◌, subst, List, [], ◌∷◌, true, Option, none, some, arith,
  Bool-cases, equal_bytes, equal_bytes_iff, ◌≤◌,
}
use relay_settlement.Host.{Text}
use relay_settlement.Manifests.{
  EthereumTx, NonceConflict, World, lookup, same_chain, slot_key, nonce_key, read_evm_transactions,
  sibling_manifests, read_nonces, current_nonce, is_open, open_slots, conflict_of, contends,
  sibling_conflicts, all_conflicts, find_nonce_conflicts,
}

some_same : {A : Type 0} {x y : A} → some x ≡ some y → x ≡ y
some_same h = cc

module _ (world : World) where
  -- An own transaction whose slot is open as far as `nonces` tell.
  pub record Open (nonces : List (Text × Option ℕ)) (key : Text) (own : EthereumTx) : Type 0 where
    pub slot : slot_key world own.from own.nonce ≡ key
    pub current : ℕ
    pub counted : current_nonce world (lookup (nonce_key world own) nonces) ≡ some current
    pub still_open : current ≤ own.nonce

  open-of : (n : Option ℕ) (k : ℕ) → is_open world n k ≡ true → (c : ℕ) × (n ≡ some c) × (c ≤ k)
  open-of none k h = absurd (cc)
  open-of (some c) k h = (c, refl, ground arith)

  -- Every entry of the slots is open and of the manifest.
  lookup-open_slots :
      (nonces : List (Text × Option ℕ)) (txs : List EthereumTx) (slots : List (Text × EthereumTx))
      (key : Text) (own : EthereumTx)
      → lookup key (open_slots world nonces txs slots) ≡ some own
      → (Open nonces key own × Memᴰ own txs) ⊎ (lookup key slots ≡ some own)
  unfolding open_slots lookup
  lookup-open_slots nonces [] slots key own h = inr h
  lookup-open_slots nonces (tx ∷ txs) slots key own h =
      elim (Bool-cases
        (is_open world (current_nonce world (lookup (nonce_key world tx) nonces)) tx.nonce)) [
          | inr e ↦ elim (lookup-open_slots nonces txs slots key own (rw (e, open_slots) at h)) [
            | inl (o, m) ↦ inl (o, Memᴰ.tail m)
            | inr k ↦ inr k
          ]
          | inl e ↦
              elim (lookup-open_slots nonces txs ((slot_key world tx.from tx.nonce, tx) ∷ slots) key
                own (rw (e, open_slots) at h)) [
                  | inl (o, m) ↦ inl (o, Memᴰ.tail m)
                  | inr k ↦ elim (Bool-cases (equal_bytes key (slot_key world tx.from tx.nonce))) [
                    | inr other ↦ inr (rw (other, lookup) at k)
                    | inl same ↦
                        let here : tx ≡ own = some_same (rw (same, lookup) at k) in
                        let (c, counted, le) = open-of _ tx.nonce e in
                        inl (
                          subst (Open nonces key) here (record {
                            slot = sym ((equal_bytes_iff _ _).0 same);
                            current = c;
                            counted = counted;
                            still_open = le;
                          }),
                          Memᴰ.head (sym here),
                        )
                  ]
                ]
        ]

  -- A slot that has an entry keeps one, and an open transaction has one.
  lookup-kept :
      (nonces : List (Text × Option ℕ)) (txs : List EthereumTx) (slots : List (Text × EthereumTx))
      (key : Text) (x : EthereumTx)
      → lookup key slots ≡ some x
      → (y : EthereumTx) × (lookup key (open_slots world nonces txs slots) ≡ some y)
  unfolding open_slots lookup
  lookup-kept nonces [] slots key x h = (x, h)
  lookup-kept nonces (tx ∷ txs) slots key x h =
      elim (Bool-cases
        (is_open world (current_nonce world (lookup (nonce_key world tx) nonces)) tx.nonce)) [
          | inr e ↦ rw (e, open_slots) (lookup-kept nonces txs slots key x h)
          | inl e ↦
              rw (e, open_slots)
                (elim (Bool-cases (equal_bytes key (slot_key world tx.from tx.nonce))) [
                  | inl same ↦
                      lookup-kept nonces txs ((slot_key world tx.from tx.nonce, tx) ∷ slots) key tx
                        (rw (same, lookup) refl)
                  | inr other ↦
                      lookup-kept nonces txs ((slot_key world tx.from tx.nonce, tx) ∷ slots) key x
                        (rw (other, lookup) h)
                ])
        ]

  lookup-entered :
      (nonces : List (Text × Option ℕ)) (txs : List EthereumTx) (slots : List (Text × EthereumTx))
      (key : Text) (own : EthereumTx)
      → Memᴰ own txs
      → Open nonces key own
      → (y : EthereumTx) × (lookup key (open_slots world nonces txs slots) ≡ some y)
  unfolding open_slots lookup
  lookup-entered nonces [] slots key own m o = absurd (Memᴰ.not-nil m)
  lookup-entered nonces (tx ∷ txs) slots key own (Memᴰ.tail m) o =
      lookup-entered nonces txs _ key own m o
  lookup-entered nonces (tx ∷ txs) slots key own (Memᴰ.head same) o =
      let o' = subst (Open nonces key) same o in
      let counted : is_open world (current_nonce world (lookup (nonce_key world tx) nonces))
            tx.nonce
          ≡ true =
        ap (λ n. is_open world n tx.nonce) o'.counted ∙ ground (arith, o'.still_open) in
      rw (counted, open_slots)
        (lookup-kept nonces txs ((slot_key world tx.from tx.nonce, tx) ∷ slots) key tx (
          rw ((equal_bytes_iff key (slot_key world tx.from tx.nonce)).1 (sym o'.slot), lookup)
            refl))

  -- A transaction of a sibling contends with an own one for a slot.
  pub record Contends (slots : List (Text × EthereumTx)) (own tx : EthereumTx) : Type 0 where
    pub slot : lookup (slot_key world tx.from tx.nonce) slots ≡ some own
    pub chain : same_chain world own.rpc tx.rpc ≡ true

  contends-eq-true :
      (slots : List (Text × EthereumTx)) (o : Option EthereumTx) (tx : EthereumTx)
      → contends world o tx ≡ true
      → (own : EthereumTx) × (o ≡ some own) × (same_chain world own.rpc tx.rpc ≡ true)
  contends-eq-true slots none tx h = absurd (cc)
  contends-eq-true slots (some own) tx h = (own, refl, h)

  mem-sibling_conflicts :
      (slots : List (Text × EthereumTx)) (s : Text) (txs : List EthereumTx) (c : NonceConflict)
      → Memᴰ c (sibling_conflicts world slots s txs)
      → (tx : EthereumTx) × (own : EthereumTx) × Memᴰ tx txs
        × Contends slots own tx
        × (c ≡ conflict_of world s tx)
  unfolding sibling_conflicts
  mem-sibling_conflicts slots s [] c m = absurd (Memᴰ.not-nil m)
  mem-sibling_conflicts slots s (tx ∷ txs) c m =
      elim (Bool-cases (contends world (lookup (slot_key world tx.from tx.nonce) slots) tx)) [
        | inr e ↦
            let (t, own, k, d, same) =
              mem-sibling_conflicts slots s txs c (rw (e, sibling_conflicts) at m) in
            (t, own, Memᴰ.tail k, d, same)
        | inl e ↦
            let (own, found, chain) =
              contends-eq-true slots (lookup (slot_key world tx.from tx.nonce) slots) tx e in
            elim (Memᴰ.cases_cons (rw (e, sibling_conflicts) at m)) [
              | inl here ↦ (tx, own, Memᴰ.head refl, record { slot = found; chain = chain }, here)
              | inr later ↦
                  let (t, own', k, d, same) = mem-sibling_conflicts slots s txs c later in
                  (t, own', Memᴰ.tail k, d, same)
            ]
      ]

  mem-sibling_conflicts_back :
      (slots : List (Text × EthereumTx)) (s : Text) (txs : List EthereumTx) (own tx : EthereumTx)
      → Memᴰ tx txs
      → Contends slots own tx
      → Memᴰ (conflict_of world s tx) (sibling_conflicts world slots s txs)
  unfolding sibling_conflicts
  mem-sibling_conflicts_back slots s [] own tx m d = absurd (Memᴰ.not-nil m)
  mem-sibling_conflicts_back slots s (t ∷ txs) own tx (Memᴰ.head same) d =
      let d' = subst (Contends slots own) same d in
      let yes' : contends world (lookup (slot_key world t.from t.nonce) slots) t ≡ true =
        ap (λ o. contends world o t) d'.slot ∙ d'.chain in
      rw (yes', sibling_conflicts) (Memᴰ.head (ap (conflict_of world s) same))
  mem-sibling_conflicts_back slots s (t ∷ txs) own tx (Memᴰ.tail m) d =
      let later = mem-sibling_conflicts_back slots s txs own tx m d in
      elim (Bool-cases (contends world (lookup (slot_key world t.from t.nonce) slots) t)) [
        | inl e ↦ rw (e, sibling_conflicts) (Memᴰ.tail later)
        | inr e ↦ rw (e, sibling_conflicts) later
      ]

  mem-all_conflicts :
      (slots : List (Text × EthereumTx)) (siblings : List Text) (c : NonceConflict)
      → Memᴰ c (all_conflicts world slots siblings)
      → (s : Text) × Memᴰ s siblings
        × Memᴰ c (sibling_conflicts world slots s (read_evm_transactions world s))
  unfolding all_conflicts
  mem-all_conflicts slots [] c m = absurd (Memᴰ.not-nil m)
  mem-all_conflicts slots (s ∷ siblings) c m =
      elim (Memᴰ.append_cases (sibling_conflicts world slots s (read_evm_transactions world s)) m) [
        | inl k ↦ (s, Memᴰ.head refl, k)
        | inr k ↦ let (t, at_t, l) = mem-all_conflicts slots siblings c k in (t, Memᴰ.tail at_t, l)
      ]

  mem-all_conflicts_back :
      (slots : List (Text × EthereumTx)) (siblings : List Text) (s : Text) (c : NonceConflict)
      → Memᴰ s siblings
      → Memᴰ c (sibling_conflicts world slots s (read_evm_transactions world s))
      → Memᴰ c (all_conflicts world slots siblings)
  unfolding all_conflicts
  mem-all_conflicts_back slots [] s c m k = absurd (Memᴰ.not-nil m)
  mem-all_conflicts_back slots (t ∷ siblings) s c (Memᴰ.head same) k =
      Memᴰ.append_left _ (
        subst (λ x. Memᴰ c (sibling_conflicts world slots x (read_evm_transactions world x))) same
          k)
  mem-all_conflicts_back slots (t ∷ siblings) s c (Memᴰ.tail m) k =
      Memᴰ.append_right (sibling_conflicts world slots t (read_evm_transactions world t))
        (mem-all_conflicts_back slots siblings s c m k)

  -- The counts that were read for the manifest.
  abbrev pub nonces_of : Text → List (Text × Option ℕ)
  unfolding read_nonces
  nonces_of path = read_nonces world (read_evm_transactions world path) []

  -- `c` reports a transaction of a sibling manifest whose key is that of an own transaction, which
  -- is open as far as the counts tell and on the same chain.
  pub record Found (path : Text) (c : NonceConflict) : Type 0 where
    pub sibling : Text
    pub of_directory : Memᴰ sibling (sibling_manifests world path)
    pub tx : EthereumTx
    pub claimed : Memᴰ tx (read_evm_transactions world sibling)
    pub own : EthereumTx
    pub of_manifest : Memᴰ own (read_evm_transactions world path)
    pub still_open : Open (nonces_of path) (slot_key world tx.from tx.nonce) own
    pub chain : same_chain world own.rpc tx.rpc ≡ true
    pub reported : c ≡ conflict_of world sibling tx

  nothing : {own : EthereumTx} (key : Text) → lookup key [] ≡ some own → ⊥
  unfolding lookup
  nothing key h = cc

  -- Every conflict that is returned was found so.
  pub find_nonce_conflicts-Found :
      (path : Text) (c : NonceConflict) → Memᴰ c (find_nonce_conflicts world path) → Found path c
  unfolding find_nonce_conflicts
  find_nonce_conflicts-Found path c m =
      let slots = open_slots world (nonces_of path) (read_evm_transactions world path) [] in
      let (s, at_s, k) = mem-all_conflicts slots (sibling_manifests world path) c m in
      let (tx, own, claimed, d, same) =
        mem-sibling_conflicts slots s (read_evm_transactions world s) c k in
      let key = slot_key world tx.from tx.nonce in
      elim (lookup-open_slots (nonces_of path) (read_evm_transactions world path) [] key own
        d.slot) [
          | inl (o, of_manifest) ↦ record {
            sibling = s;
            of_directory = at_s;
            tx = tx;
            claimed = claimed;
            own = own;
            of_manifest = of_manifest;
            still_open = o;
            chain = d.chain;
            reported = same;
          }
          | inr h ↦ absurd (nothing key h)
        ]

  -- Where no two transactions of the manifest claim the slot in question, every conflict is returned.
  pub Found-find_nonce_conflicts :
      (path : Text) (c : NonceConflict) (r : Found path c)
      → ((o : EthereumTx)
          → Memᴰ o (read_evm_transactions world path)
          → slot_key world o.from o.nonce ≡ slot_key world r.tx.from r.tx.nonce
          → o ≡ r.own)
      → Memᴰ c (find_nonce_conflicts world path)
  unfolding find_nonce_conflicts
  Found-find_nonce_conflicts path c r only =
      let txs = read_evm_transactions world path in
      let slots = open_slots world (nonces_of path) txs [] in
      let key = slot_key world r.tx.from r.tx.nonce in
      let (y, found) =
        lookup-entered (nonces_of path) txs [] key r.own r.of_manifest r.still_open in
      let same : y ≡ r.own = elim (lookup-open_slots (nonces_of path) txs [] key y found) [
        | inl (o, of_manifest) ↦ only y of_manifest o.slot
        | inr h ↦ absurd (nothing key h)
      ] in
      mem-all_conflicts_back slots (sibling_manifests world path) r.sibling c r.of_directory (
        subst
          (λ x.
            Memᴰ x
              (sibling_conflicts world slots r.sibling (read_evm_transactions world r.sibling)))
          (sym r.reported)
          (mem-sibling_conflicts_back slots r.sibling (read_evm_transactions world r.sibling) r.own
            r.tx r.claimed (record { slot = found ∙ ap some same; chain = r.chain })))
