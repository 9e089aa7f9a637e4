-- ===== src/Indexer/Transfers/Writes.antt =====
-- Writing the balances that were read from the chain.
use relay_settlement.Common.{
  ℕ, ◌≡◌, refl, List, [], ◌∷◌, Bool, true, false, ◌||◌, ap, sym, ◌∙◌, ◌≢◌, ◌⊎◌, Option, some, arith,
  equal_bytes, equal_bytes_iff, if◌then◌else◌, Bool-cases, inl, inr, Option-cases,
}
use relay_settlement.Host.{Text}
use relay_settlement.Indexer.Database.{Balance, same_key, get_balance}
use relay_settlement.Indexer.Database.Keys.{get-set_balance, same_key_iff}
use relay_settlement.Indexer.Transfers.{Chain, read_balances, write_balance, write_balances}

get-write_balance :
    (t : Text) (ts : Option ℕ) (a : Text) (n : ℕ) (b u : Text) (rs : List Balance)
    → get_balance b u (write_balance t ts a n rs)
      ≡ (if same_key b u a t then n else get_balance b u rs)
unfolding write_balance
get-write_balance t ts a n b u rs =
    ground (arith, get-set_balance a t b u n ts rs, same_key_iff b u a t)

-- The last balance that the items give to `a`, or `d`.
abbrev pub last_of : Text → List (Text × ℕ) → ℕ → ℕ
last_of a [] d = d
last_of a ((b, n) ∷ items) d = last_of a items (if equal_bytes a b then n else d)

pub get-write_balances :
    (t : Text) (ts : Option ℕ) (items : List (Text × ℕ)) (b u : Text) (rs : List Balance)
    → get_balance b u (write_balances t ts items rs)
      ≡ (if equal_bytes u t then last_of b items (get_balance b u rs) else get_balance b u rs)
unfolding write_balances
get-write_balances t ts [] b u rs = ground arith
get-write_balances t ts ((a, n) ∷ items) b u rs = ground (
  arith,
  get-write_balances t ts items b u (write_balance t ts a n rs),
  get-write_balance t ts a n b u rs,
  equal_bytes_iff u t,
  equal_bytes_iff b a,
)

abbrev pub listed : Text → List Text → Bool
listed b [] = false
listed b (a ∷ rest) = equal_bytes b a || listed b rest

pub some_same : {A : Type 0} {x y : A} → some x ≡ some y → x ≡ y
some_same h = cc

-- The items of a read that did not fail.
pub read_balances-cons :
    (chain : Chain) (t a : Text) (rest : List Text) (items : List (Text × ℕ))
    → read_balances chain t (a ∷ rest) ≡ some items
    → (n : ℕ) × (later : List (Text × ℕ)) × (chain.balance_of a t ≡ some n)
      × (read_balances chain t rest ≡ some later)
      × ((a, n) ∷ later ≡ items)
unfolding read_balances
read_balances-cons chain t a rest items h = elim (Option-cases (chain.balance_of a t)) [
  | inl e ↦ absurd (cc (rw (e, read_balances) at h))
  | inr (n, e) ↦ elim (Option-cases (read_balances chain t rest)) [
    | inl e' ↦ absurd (cc (rw (e, e', read_balances) at h))
    | inr (later, e') ↦ (n, later, e, e', some_same (rw (e, e', read_balances) at h))
  ]
]

module _ (chain : Chain) (t b : Text) where
  last_of_unlisted :
      (addresses : List Text) (items : List (Text × ℕ)) (d : ℕ)
      → read_balances chain t addresses ≡ some items
      → listed b addresses ≡ false
      → last_of b items d ≡ d
  unfolding read_balances
  last_of_unlisted [] items d h out = ap (λ x. last_of b x d) (sym (some_same h))
  last_of_unlisted (a ∷ rest) items d h out =
      let (n, later, at_a, others, whole) = read_balances-cons chain t a rest items h in
      let other : equal_bytes b a ≡ false = ground arith in
      let not_later : listed b rest ≡ false = ground arith in
      ap (λ x. last_of b x d) (sym whole)
      ∙ ap (λ c. last_of b later (if c then n else d)) other
      ∙ last_of_unlisted rest later d others not_later

  last_of-listed :
      (addresses : List Text) (items : List (Text × ℕ)) (d : ℕ)
      → read_balances chain t addresses ≡ some items
      → listed b addresses ≡ true
      → chain.balance_of b t ≡ some (last_of b items d)
  unfolding read_balances
  last_of-listed [] items d h inside = absurd (cc)
  last_of-listed (a ∷ rest) items d h inside =
      let (n, later, at_a, others, whole) = read_balances-cons chain t a rest items h in
      let d' = if equal_bytes b a then n else d in
      let same : last_of b items d ≡ last_of b later d' = ap (λ x. last_of b x d) (sym whole) in
      elim (Bool-cases (listed b rest)) [
        | inl e ↦ last_of-listed rest later d' others e ∙ ap some (sym same)
        | inr e ↦
            let here : b ≡ a = ground (arith, equal_bytes_iff b a) in
            let found : last_of b later d' ≡ n =
              last_of_unlisted rest later d' others e ∙ ground (arith, equal_bytes_iff b a) in
            ap (λ x. chain.balance_of x t) here ∙ at_a ∙ ap some (sym (same ∙ found))
      ]

module _ (chain : Chain) (t : Text) (ts : Option ℕ) (addresses : List Text)
    (items : List (Text × ℕ)) (rs : List Balance)
    (read : read_balances chain t addresses ≡ some items) where
  -- After a write the balance of a listed address is the chain's.
  pub get_listed :
      (b : Text)
      → listed b addresses ≡ true
      → chain.balance_of b t ≡ some (get_balance b t (write_balances t ts items rs))
  get_listed b inside =
      let same : equal_bytes t t ≡ true = (equal_bytes_iff t t).1 refl in
      let written = get-write_balances t ts items b t rs in
      last_of-listed chain t b addresses items (get_balance b t rs) read inside
      ∙ ap some (sym (written ∙ rw same refl))

  -- The balance of any other address, or of another token, is as before.
  pub get_unlisted :
      (b u : Text)
      → (u ≢ t) ⊎ (listed b addresses ≡ false)
      → get_balance b u (write_balances t ts items rs) ≡ get_balance b u rs
  get_unlisted b u (inl other) =
      ground (arith, get-write_balances t ts items b u rs, equal_bytes_iff u t)
  get_unlisted b u (inr out) = ground (
    arith,
    get-write_balances t ts items b u rs,
    last_of_unlisted chain t b addresses items (get_balance b u rs) read out,
  )
