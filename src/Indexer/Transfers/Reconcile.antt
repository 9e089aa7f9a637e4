-- ===== src/Indexer/Transfers/Reconcile.antt =====
-- The database after `reconcileTransferStateFromChain`.
use relay_settlement.Common.{
  ℕ, ◌≡◌, ◌≢◌, ◌⊎◌, inl, inr, refl, ap, ◌∙◌, sym, map, List, true, false, Option, none, some, ok,
  Option-cases,
}
use relay_settlement.Common.Int.{pos}
use relay_settlement.Host.{Text}
use relay_settlement.Indexer.Database.{
  Token, Database, get_balance, get_holder_count, select_token, set_token_state,
}
use relay_settlement.Indexer.Database.Tokens.{
  select-update_token, select-update_other, select-append, select-append_other, changed,
}
use relay_settlement.Indexer.Transfers.{
  Chain, new_token, ensured, ensure_token, is_zero_address, tracked_addresses, read_balances,
  write_balances, finish, reconcile_transfer_state_from_chain,
}
use relay_settlement.Indexer.Transfers.Writes.{listed, get_listed, get_unlisted}
use relay_settlement.Indexer.Transfers.Tracked.{listed-tracked_addresses, tracked_addresses_only}

-- The row of the token as it was, or a new one.
abbrev pub row_before : Chain → Text → Option Token → Token
row_before chain t none = new_token chain t
row_before chain t (some row) = row

-- `db'` holds what the chain says of the token at the addresses, and all else as `db` does.
pub record Reconciled (chain : Chain) (t : Text) (addresses : List Text) (db db' : Database)
    : Type 0 where
  pub tracked :
      (b : Text)
      → listed b (tracked_addresses chain addresses) ≡ true
      → chain.balance_of b t ≡ some (get_balance b t db'.balances)
  pub given :
      (a : Text)
      → listed a addresses ≡ true
      → is_zero_address chain (chain.to_lower_case a) ≡ false
      → chain.balance_of (chain.to_lower_case a) t
        ≡ some (get_balance (chain.to_lower_case a) t db'.balances)
  pub others :
      (b u : Text)
      → (u ≢ t)
        ⊎ ((listed b (map chain.to_lower_case addresses) ≡ false)
            ⊎ (is_zero_address chain b ≡ true))
      → get_balance b u db'.balances ≡ get_balance b u db.balances
  pub row : Token
  pub found : select_token t db'.tokens ≡ some row
  -- the other columns are those of the row that was there, or else of the new row
  pub same_columns : row ≡ (record (row_before chain t (select_token t db.tokens)) {
    total_supply = row.total_supply;
    holders = row.holders;
  })
  pub other_tokens : (u : Text) → u ≢ t → select_token u db'.tokens ≡ select_token u db.tokens
  pub supply : chain.total_supply t ≡ some row.total_supply
  pub holders : row.holders ≡ pos (get_holder_count t db'.balances)
  pub events : db'.events ≡ db.events

-- The two parts of a reconciliation that succeeded: what was read, and what was written.
pub record Run (chain : Chain) (t : Text) (addresses : List Text) (ts : Option ℕ)
    (db db' : Database) : Type 0 where
  pub items : List (Text × ℕ)
  pub read : read_balances chain t (tracked_addresses chain addresses) ≡ some items
  pub supply : ℕ
  pub total : chain.total_supply t ≡ some supply
  pub final :
      set_token_state t supply
        (get_holder_count t (write_balances t ts items db.balances))
        (record {
          balances = write_balances t ts items db.balances;
          tokens = (ensure_token chain t db).tokens;
          events = db.events;
        })
      ≡ db'

finish-eq-ok :
    (chain : Chain) (t : Text) (db db' : Database)
    → finish chain t db ≡ (ok tt, db')
    → (supply : ℕ) × (chain.total_supply t ≡ some supply)
      × (set_token_state t supply (get_holder_count t db.balances) db ≡ db')
unfolding finish
finish-eq-ok chain t db db' h = elim (Option-cases (chain.total_supply t)) [
  | inl e ↦ absurd (cc (ap (λ x. x.0) (rw (e, finish) at h)))
  | inr (s, e) ↦ (s, e, ap (λ x. x.1) (rw (e, finish) at h))
]

module _ (chain : Chain) (t : Text) (addresses : List Text) (ts : Option ℕ)
    (db db' : Database) where
  pub reconcile-Run :
      reconcile_transfer_state_from_chain chain t addresses ts db ≡ (ok tt, db')
      → Run chain t addresses ts db db'
  unfolding reconcile_transfer_state_from_chain ensure_token
  reconcile-Run h =
      elim (Option-cases (read_balances chain t (tracked_addresses chain addresses))) [
        | inl e ↦ absurd (cc (ap (λ x. x.0) (rw (e, reconcile_transfer_state_from_chain) at h)))
        | inr (items, e) ↦
            let (supply, total, final) =
              finish-eq-ok chain t _ db' (rw (e, reconcile_transfer_state_from_chain) at h) in
            record { items = items; read = e; supply = supply; total = total; final = final }
      ]

-- A token that was ensured has a row.
pub ensured_row :
    (chain : Chain) (t : Text) (db : Database)
    → (row : Token) × (select_token t (ensure_token chain t db).tokens ≡ some row)
      × (row ≡ row_before chain t (select_token t db.tokens))
unfolding ensure_token
ensured_row chain t db = elim (Option-cases (select_token t db.tokens)) [
  | inl e ↦ (
    new_token chain t,
    ap (λ o. select_token t (ensured (new_token chain t) db.tokens o)) e
        ∙ select-append t (new_token chain t) db.tokens (unfold new_token in refl) e,
    sym (ap (row_before chain t) e),
  )
  | inr (x, e) ↦ (
    x,
    ap (λ o. select_token t (ensured (new_token chain t) db.tokens o)) e ∙ e,
    sym (ap (row_before chain t) e),
  )
]

-- The rows of other tokens are not touched.
ensured_other :
    (chain : Chain) (t : Text) (db : Database) (u : Text)
    → u ≢ t
    → select_token u (ensure_token chain t db).tokens ≡ select_token u db.tokens
unfolding ensure_token new_token
ensured_other chain t db u other = elim (Option-cases (select_token t db.tokens)) [
  | inl e ↦
      ap (λ o. select_token u (ensured (new_token chain t) db.tokens o)) e
      ∙ select-append_other u (new_token chain t) db.tokens other
  | inr (x, e) ↦ ap (λ o. select_token u (ensured (new_token chain t) db.tokens o)) e
]

untracked :
    (chain : Chain) (t : Text) (addresses : List Text) (b u : Text)
    → (u ≢ t)
      ⊎ ((listed b (map chain.to_lower_case addresses) ≡ false) ⊎ (is_zero_address chain b ≡ true))
    → (u ≢ t) ⊎ (listed b (tracked_addresses chain addresses) ≡ false)
untracked chain t addresses b u (inl other) = inl other
untracked chain t addresses b u (inr h) = inr (tracked_addresses_only chain b addresses h)

Run-Reconciled :
    (chain : Chain) (t : Text) (addresses : List Text) (ts : Option ℕ) (db db' : Database)
    → Run chain t addresses ts db db'
    → Reconciled chain t addresses db db'
unfolding set_token_state
Run-Reconciled chain t addresses ts db db' r =
    let rows = write_balances t ts r.items db.balances in
    let same_rows : rows ≡ db'.balances = ap (λ d. d.balances) r.final in
    let on_chain =
      get_listed chain t ts (tracked_addresses chain addresses) r.items db.balances r.read in
    let (row, has_row, was_row) = ensured_row chain t db in
    let state = λ (x : Token). record x {
      total_supply = r.supply;
      holders = pos (get_holder_count t rows);
    } in
    let tracked : (b : Text)
        → listed b (tracked_addresses chain addresses) ≡ true
        → chain.balance_of b t ≡ some (get_balance b t db'.balances) =
      λ b l. on_chain b l ∙ ap (λ x. some (get_balance b t x)) same_rows in
    record {
      tracked = tracked;
      given =
          λ a l z. tracked (chain.to_lower_case a) (listed-tracked_addresses chain a addresses l z);
      others = λ b u l.
          ap (get_balance b u) (sym same_rows)
          ∙ get_unlisted chain t ts (tracked_addresses chain addresses) r.items db.balances r.read b
              u (untracked chain t addresses b u l);
      row = state row;
      found =
          ap (λ d. select_token t d.tokens) (sym r.final)
          ∙ select-update_token t state (ensure_token chain t db).tokens (λ x. refl)
          ∙ ap (changed state) has_row;
      same_columns = ap state was_row;
      other_tokens = λ u other.
          ap (λ d. select_token u d.tokens) (sym r.final)
          ∙ select-update_other u t state (ensure_token chain t db).tokens (λ x. refl) other
          ∙ ensured_other chain t db u other;
      supply = r.total;
      holders = ap (λ x. pos (get_holder_count t x)) same_rows;
      events = ap (λ d. d.events) (sym r.final);
    }

-- When a reconciliation succeeds, the balance of each tracked address, and so of the lower-case form
-- of each given address but the zero address, is the chain's; every other balance, of another token
-- or at another address, is as before; the
-- row of the token has the chain's supply, as holders the number of rows of its balances, and in its
-- other columns what was there or, where there was no row, what the chain says of a new token; the
-- row of every other token and the events are as before.
pub reconcile-Reconciled :
    (chain : Chain) (t : Text) (addresses : List Text) (ts : Option ℕ) (db db' : Database)
    → reconcile_transfer_state_from_chain chain t addresses ts db ≡ (ok tt, db')
    → Reconciled chain t addresses db db'
reconcile-Reconciled chain t addresses ts db db' h =
    Run-Reconciled chain t addresses ts db db' (reconcile-Run chain t addresses ts db db' h)
