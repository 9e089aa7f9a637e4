-- ===== src/Manifests/Keys.antt =====
-- The keys of nonceConflicts.ts, which join two texts by a colon, and the counts that are read under
-- such keys.
use mathlib.Core.List.{Memᴰ}
use mathlib.Core.List.Memᴰ
use relay_settlement.Common.{
  ℕ, ◌≡◌, ◌≢◌, inl, inr, refl, ap, ap₂, sym, ◌∙◌, List, [], ◌∷◌, ◌++◌, true, Option, some, All,
  Bool-cases, Option-cases, equal_bytes, equal_bytes_iff,
}
use relay_settlement.Host.{Text}
use relay_settlement.Manifests.{
  EthereumTx, ethereum_vm, ManifestTx, World, only_evm, lookup, nonce_key, read_evm_transactions,
  keep_siblings, sibling_manifests, read_nonces,
}

abbrev pub NoColon : Text → Type 0
NoColon t = All (λ c. c ≢ b':') t

head_same : {A : Type 0} {x y : A} {xs ys : List A} → x ∷ xs ≡ y ∷ ys → x ≡ y
head_same h = cc

tail_same : {A : Type 0} {x y : A} {xs ys : List A} → x ∷ xs ≡ y ∷ ys → xs ≡ ys
tail_same h = cc

colon_inside : (a t u : Text) → t ≡ a ++ (b':' ∷ u) → NoColon t → ⊥
colon_inside [] [] u e h = cc
colon_inside [] (c ∷ t) u e h = h.0 (head_same e)
colon_inside (x ∷ a) [] u e h = cc
colon_inside (x ∷ a) (c ∷ t) u e h = colon_inside a t u (tail_same e) h.1

-- The parts of a text at its last colon are determined.
pub last_colon :
    (a b s t : Text) → NoColon s → NoColon t → a ++ (b':' ∷ s) ≡ b ++ (b':' ∷ t) → (a ≡ b) × (s ≡ t)
last_colon [] [] s t p q e = (refl, tail_same e)
last_colon [] (y ∷ b) s t p q e = absurd (colon_inside b s t (tail_same e) p)
last_colon (x ∷ a) [] s t p q e = absurd (colon_inside a t s (sym (tail_same e)) q)
last_colon (x ∷ a) (y ∷ b) s t p q e =
    let (u, v) = last_colon a b s t p q (tail_same e) in (ap₂ ◌∷◌ (head_same e) u, v)

-- The filter keeps the transactions of the family.
pub mem-only_evm :
    (txs : List ManifestTx) (tx : EthereumTx) → Memᴰ tx (only_evm txs) → Memᴰ (ethereum_vm tx) txs
unfolding only_evm
mem-only_evm [] tx m = absurd (Memᴰ.not-nil m)
mem-only_evm (ManifestTx.ethereum_vm x ∷ txs) tx (Memᴰ.head e) = Memᴰ.head (ap ethereum_vm e)
mem-only_evm (ManifestTx.ethereum_vm x ∷ txs) tx (Memᴰ.tail m) = Memᴰ.tail (mem-only_evm txs tx m)
mem-only_evm (ManifestTx.other_family ∷ txs) tx m = Memᴰ.tail (mem-only_evm txs tx m)

evm_of : ManifestTx → EthereumTx → EthereumTx
evm_of (ManifestTx.ethereum_vm x) d = x
evm_of ManifestTx.other_family d = d

pub only_evm-mem :
    (txs : List ManifestTx) (tx : EthereumTx) → Memᴰ (ethereum_vm tx) txs → Memᴰ tx (only_evm txs)
unfolding only_evm evm_of
only_evm-mem [] tx m = absurd (Memᴰ.not-nil m)
only_evm-mem (ManifestTx.ethereum_vm x ∷ txs) tx (Memᴰ.head e) = Memᴰ.head (ap (λ y. evm_of y tx) e)
only_evm-mem (ManifestTx.ethereum_vm x ∷ txs) tx (Memᴰ.tail m) = Memᴰ.tail (only_evm-mem txs tx m)
only_evm-mem (ManifestTx.other_family ∷ txs) tx (Memᴰ.head e) = absurd (cc)
only_evm-mem (ManifestTx.other_family ∷ txs) tx (Memᴰ.tail m) = only_evm-mem txs tx m

module _ (world : World) where
  -- The file at `path` is a manifest with the transaction `tx` of the family `ethereum-vm`.
  pub record Holds (path : Text) (tx : EthereumTx) : Type 0 where
    pub transactions : List ManifestTx
    pub manifest : world.parse_manifest path ≡ some transactions
    pub member : Memᴰ (ethereum_vm tx) transactions

  pub read-Holds :
      (path : Text) (tx : EthereumTx) → Memᴰ tx (read_evm_transactions world path) → Holds path tx
  unfolding read_evm_transactions only_evm
  read-Holds path tx m = elim (Option-cases (world.parse_manifest path)) [
    | inl e ↦ absurd (Memᴰ.not-nil (rw (e, read_evm_transactions) at m))
    | inr (txs, e) ↦ record {
      transactions = txs;
      manifest = e;
      member = mem-only_evm txs tx (rw (e, read_evm_transactions) at m);
    }
  ]

  pub Holds-read :
      (path : Text) (tx : EthereumTx) → Holds path tx → Memᴰ tx (read_evm_transactions world path)
  unfolding read_evm_transactions
  Holds-read path tx h =
      rw (h.manifest, read_evm_transactions) (only_evm-mem h.transactions tx h.member)

  -- `sibling` is another file of the directory with the ending of a manifest.
  pub record IsSibling (path sibling : Text) : Type 0 where
    pub name : Text
    pub listed : Memᴰ name world.directory
    pub json : world.is_json name ≡ true
    pub at : sibling ≡ world.in_directory name
    pub other : sibling ≢ path

  mem-keep_siblings :
      (path : Text) (names : List Text) (s : Text)
      → Memᴰ s (keep_siblings world path names)
      → (name : Text) × Memᴰ name names
        × (world.is_json name ≡ true)
        × (s ≡ world.in_directory name)
        × (s ≢ path)
  unfolding keep_siblings
  mem-keep_siblings path [] s m = absurd (Memᴰ.not-nil m)
  mem-keep_siblings path (n ∷ names) s m =
      let later = λ (k : Memᴰ s (keep_siblings world path names)).
        let (name, l, j, a, o) = mem-keep_siblings path names s k in
        let r : (name : Text) × Memᴰ name (n ∷ names)
            × (world.is_json name ≡ true)
            × (s ≡ world.in_directory name)
            × (s ≢ path) =
          (name, Memᴰ.tail l, j, a, o) in
        r in
      elim (Bool-cases (world.is_json n)) [
        | inr e ↦ later (rw (e, keep_siblings) at m)
        | inl e ↦ elim (Bool-cases (equal_bytes (world.in_directory n) path)) [
          | inl same ↦ later (rw (e, same, keep_siblings) at m)
          | inr other ↦ elim (Memᴰ.cases_cons (rw (e, other, keep_siblings) at m)) [
            | inl here ↦ (
              n,
              Memᴰ.head refl,
              e,
              here,
              λ q. cc (other, (equal_bytes_iff (world.in_directory n) path).1 (sym here ∙ q)),
            )
            | inr k ↦ later k
          ]
        ]
      ]

  keep_siblings-mem :
      (path : Text) (names : List Text) (name : Text)
      → Memᴰ name names
      → world.is_json name ≡ true
      → world.in_directory name ≢ path
      → Memᴰ (world.in_directory name) (keep_siblings world path names)
  unfolding keep_siblings
  keep_siblings-mem path [] name m j o = absurd (Memᴰ.not-nil m)
  keep_siblings-mem path (n ∷ names) name (Memᴰ.tail m) j o =
      let later = keep_siblings-mem path names name m j o in
      elim (Bool-cases (world.is_json n)) [
        | inr e ↦ rw (e, keep_siblings) later
        | inl e ↦ elim (Bool-cases (equal_bytes (world.in_directory n) path)) [
          | inl same ↦ rw (e, same, keep_siblings) later
          | inr other ↦ rw (e, other, keep_siblings) (Memᴰ.tail later)
        ]
      ]
  keep_siblings-mem path (n ∷ names) name (Memᴰ.head e) j o =
      let json : world.is_json n ≡ true = ap world.is_json (sym e) ∙ j in
      elim (Bool-cases (equal_bytes (world.in_directory n) path)) [
        | inl same ↦
            absurd
              (o (ap world.in_directory e ∙ (equal_bytes_iff (world.in_directory n) path).0 same))
        | inr other ↦ rw (json, other, keep_siblings) (Memᴰ.head (ap world.in_directory e))
      ]

  module _ (sorted : (ts : List Text) (t : Text) → Memᴰ t (world.sort ts) → Memᴰ t ts) where
    pub sibling_manifests-IsSibling :
        (path s : Text) → Memᴰ s (sibling_manifests world path) → IsSibling path s
    unfolding sibling_manifests
    sibling_manifests-IsSibling path s m =
        let (name, l, j, a, o) = mem-keep_siblings path world.directory s (sorted _ s m) in
        record { name = name; listed = l; json = j; at = a; other = o }

  module _ (sorted_back : (ts : List Text) (t : Text) → Memᴰ t ts → Memᴰ t (world.sort ts)) where
    pub IsSibling-sibling_manifests :
        (path s : Text) → IsSibling path s → Memᴰ s (sibling_manifests world path)
    unfolding sibling_manifests
    IsSibling-sibling_manifests path s r = sorted_back _ s (
        rw r.at
          (keep_siblings-mem path world.directory r.name r.listed r.json (λ e. r.other (r.at ∙ e))))

  -- The count of a sender, of which only the lower-case text matters.
  abbrev pub count : EthereumTx → Option ℕ
  count tx = world.get_transaction_count tx.rpc tx.from

  -- What is known under the key of `x` is its count.
  read_nonces-right :
      (x : EthereumTx) (txs : List EthereumTx) (known : List (Text × Option ℕ)) (n : Option ℕ)
      → ((tx : EthereumTx)
          → Memᴰ tx txs
          → nonce_key world x ≡ nonce_key world tx
          → count tx ≡ count x)
      → ((m : Option ℕ) → lookup (nonce_key world x) known ≡ some m → m ≡ count x)
      → lookup (nonce_key world x) (read_nonces world txs known) ≡ some n
      → n ≡ count x
  unfolding read_nonces lookup
  read_nonces-right x [] known n same right h = right n h
  read_nonces-right x (tx ∷ txs) known n same right h =
      elim (Option-cases (lookup (nonce_key world tx) known)) [
        | inr (k, e) ↦
            read_nonces-right x txs known n (λ y m. same y (Memᴰ.tail m)) right
              (rw (e, read_nonces) at h)
        | inl e ↦
            read_nonces-right x txs ((nonce_key world tx, count tx) ∷ known) n
              (λ y m. same y (Memᴰ.tail m))
              (entered_right x tx known (same tx (Memᴰ.head refl)) right) (rw (e, read_nonces) at h)
      ]
    where
      entered_right :
          (x tx : EthereumTx) (known : List (Text × Option ℕ))
          → (nonce_key world x ≡ nonce_key world tx → count tx ≡ count x)
          → ((m : Option ℕ) → lookup (nonce_key world x) known ≡ some m → m ≡ count x)
          → (m : Option ℕ)
          → lookup (nonce_key world x) ((nonce_key world tx, count tx) ∷ known) ≡ some m
          → m ≡ count x
      entered_right x tx known same right m h =
          elim (Bool-cases (equal_bytes (nonce_key world x) (nonce_key world tx))) [
            | inl e ↦
                let here : count tx ≡ m = cc (rw (e, lookup) at h) in
                sym here ∙ same ((equal_bytes_iff _ _).0 e)
            | inr e ↦ right m (rw (e, lookup) at h)
          ]

  -- What is known stays known.
  read_nonces-kept :
      (key : Text) (txs : List EthereumTx) (known : List (Text × Option ℕ)) (n : Option ℕ)
      → lookup key known ≡ some n
      → (m : Option ℕ) × (lookup key (read_nonces world txs known) ≡ some m)
  unfolding read_nonces lookup
  read_nonces-kept key [] known n h = (n, h)
  read_nonces-kept key (tx ∷ txs) known n h =
      elim (Option-cases (lookup (nonce_key world tx) known)) [
        | inr (k, e) ↦ rw (e, read_nonces) (read_nonces-kept key txs known n h)
        | inl e ↦
            rw (e, read_nonces)
              (elim (Bool-cases (equal_bytes key (nonce_key world tx))) [
                | inl same ↦
                    read_nonces-kept key txs ((nonce_key world tx, count tx) ∷ known) (count tx)
                      (rw (same, lookup) refl)
                | inr other ↦
                    read_nonces-kept key txs ((nonce_key world tx, count tx) ∷ known) n
                      (rw (other, lookup) h)
              ])
      ]

  read_nonces-known :
      (x : EthereumTx) (txs : List EthereumTx) (known : List (Text × Option ℕ))
      → Memᴰ x txs
      → (m : Option ℕ) × (lookup (nonce_key world x) (read_nonces world txs known) ≡ some m)
  unfolding read_nonces lookup
  read_nonces-known x [] known h = absurd (Memᴰ.not-nil h)
  read_nonces-known x (tx ∷ txs) known (Memᴰ.tail h) =
      elim (Option-cases (lookup (nonce_key world tx) known)) [
        | inr (k, e) ↦ rw (e, read_nonces) (read_nonces-known x txs known h)
        | inl e ↦ rw (e, read_nonces) (read_nonces-known x txs _ h)
      ]
  read_nonces-known x (tx ∷ txs) known (Memᴰ.head same) =
      let key = ap (nonce_key world) same in
      elim (Option-cases (lookup (nonce_key world tx) known)) [
        | inr (k, e) ↦
            rw (e, read_nonces)
              (read_nonces-kept (nonce_key world x) txs known k (ap (λ t. lookup t known) key ∙ e))
        | inl e ↦
            rw (e, read_nonces)
              (read_nonces-kept (nonce_key world x) txs ((nonce_key world tx, count tx) ∷ known)
                (count tx)
                (rw ((equal_bytes_iff (nonce_key world x) (nonce_key world tx)).1 key, lookup)
                  refl))
      ]

  -- Each transaction of a list finds its count.
  pub lookup-read_nonces :
      (x : EthereumTx) (txs : List EthereumTx)
      → Memᴰ x txs
      → ((tx : EthereumTx)
          → Memᴰ tx txs
          → nonce_key world x ≡ nonce_key world tx
          → count tx ≡ count x)
      → lookup (nonce_key world x) (read_nonces world txs []) ≡ some (count x)
  unfolding lookup
  lookup-read_nonces x txs m same =
      let (n, e) = read_nonces-known x txs [] m in
      e ∙ ap some (read_nonces-right x txs [] n same (λ k h. absurd (cc)) e)
