-- ===== src/Indexer/Transfers/Replay.antt =====
-- `replayTransferLogFromChain` run a second time.
use relay_settlement.Common.{
  ℕ, ◌≡◌, inl, inr, refl, ap, ◌∙◌, sym, List, [], ◌∷◌, ◌++◌, true, Option, some, Result, ok, err,
  arith, Bool-cases, equal_bytes_iff, ==_iff, All, subst,
}
use relay_settlement.Host.{Text}
use relay_settlement.Indexer.Database.{
  Balance, Token, Event, Database, get_balance, get_holder_count, has_event, insert_event,
  select_token, update_token, set_token_state, sync_token_transfers_from_events, count_events,
}
use relay_settlement.Indexer.Database.Tokens.{
  KeepsKey, changed, select-update_token, update-update_token,
}
use relay_settlement.Indexer.Transfers.{
  Chain, TransferLog, insert_parsed_transfer_log, event_of, synced, Failure, ensure_token, ensured,
  new_token, finish, tracked_addresses, reconcile_transfer_state_from_chain, read_balances,
  write_balance, write_balances, replay_transfer_log_from_chain,
}
use relay_settlement.Common.Int.{pos}
use relay_settlement.Indexer.Transfers.Reconcile.{reconcile-Run, reconcile-Reconciled}
use relay_settlement.Indexer.Transfers.Writes.{listed, read_balances-cons, some_same}

has_event-append :
    (tx : Text) (i : ℕ) (e : Event) (es : List Event)
    → e.tx_hash ≡ tx
    → e.log_index ≡ i
    → has_event tx i (es ++ (e ∷ [])) ≡ true
unfolding has_event
has_event-append tx i e [] p q = ground (arith, equal_bytes_iff tx e.tx_hash)
has_event-append tx i e (x ∷ xs) p q = ground (arith, has_event-append tx i e xs p q)

-- An event that was inserted is in the table, and an event that is there is not inserted.
pub has_event-insert_event :
    (e : Event) (db : Database)
    → has_event e.tx_hash e.log_index (insert_event e db).1.events ≡ true
unfolding insert_event
has_event-insert_event e db = elim (Bool-cases (has_event e.tx_hash e.log_index db.events)) [
  | inl h ↦ rw h h
  | inr h ↦ rw h (has_event-append e.tx_hash e.log_index e db.events refl refl)
]

insert_event_there :
    (e : Event) (db : Database)
    → has_event e.tx_hash e.log_index db.events ≡ true
    → insert_event e db ≡ (0, db)
unfolding insert_event
insert_event_there e db h = rw h refl

-- Writing balances that are there already changes nothing.
write_balances_same :
    (t : Text) (ts : Option ℕ) (items : List (Text × ℕ)) (rs : List Balance)
    → All (λ x. get_balance x.0 t rs ≡ x.1) items
    → write_balances t ts items rs ≡ rs
unfolding write_balances write_balance
write_balances_same t ts [] rs h = refl
write_balances_same t ts ((a, n) ∷ items) rs h =
    rw ((==_iff (get_balance a t rs) n).1 h.0) (write_balances_same t ts items rs h.1)

-- The items that were read are there once the balances of the listed addresses are the chain's.
read_balances-There :
    (chain : Chain) (t : Text) (rs : List Balance) (addresses : List Text) (items : List (Text × ℕ))
    → read_balances chain t addresses ≡ some items
    → ((b : Text) → listed b addresses ≡ true → chain.balance_of b t ≡ some (get_balance b t rs))
    → All (λ x. get_balance x.0 t rs ≡ x.1) items
unfolding read_balances
read_balances-There chain t rs [] items h on_chain =
    subst (All (λ x. get_balance x.0 t rs ≡ x.1)) (some_same h) tt
read_balances-There chain t rs (a ∷ rest) items h on_chain =
    let (n, later, at_a, others, whole) = read_balances-cons chain t a rest items h in
    let here : get_balance a t rs ≡ n =
      some_same (sym (on_chain a (ground (arith, equal_bytes_iff a a))) ∙ at_a) in
    let after =
      read_balances-There chain t rs rest later others (λ b l. on_chain b (ground arith)) in
    subst (All (λ x. get_balance x.0 t rs ≡ x.1)) whole (here, after)

-- A row that is there is not added again.
ensure_token_again :
    (chain : Chain) (t : Text) (db : Database) (row : Token)
    → select_token t db.tokens ≡ some row
    → ensure_token chain t db ≡ db
unfolding ensure_token
ensure_token_again chain t db row h =
    ap (λ o. record db { tokens = ensured (new_token chain t) db.tokens o }) h

module _ (t : Text) (f g : Token → Token) (keeps_f : KeepsKey f) (keeps_g : KeepsKey g) where
  -- A change that was made is not changed by making it again, after another one.
  update_token_again :
      (ts : List Token)
      → ((x : Token) → f (g (f x)) ≡ g (f x))
      → update_token t f (update_token t g (update_token t f ts))
        ≡ update_token t g (update_token t f ts)
  unfolding update_token
  update_token_again [] h = refl
  update_token_again (x ∷ xs) h =
      ground (arith, keeps_f x, keeps_g (f x), h x, update_token_again xs h)

-- Where the row, the balances and the state are there, a reconciliation leaves the database as it is.
reconcile_settled :
    (chain : Chain) (t : Text) (addresses : List Text) (ts : Option ℕ) (db : Database) (row : Token)
    (items : List (Text × ℕ)) (supply : ℕ)
    → select_token t db.tokens ≡ some row
    → read_balances chain t (tracked_addresses chain addresses) ≡ some items
    → All (λ x. get_balance x.0 t db.balances ≡ x.1) items
    → chain.total_supply t ≡ some supply
    → set_token_state t supply (get_holder_count t db.balances) db ≡ db
    → reconcile_transfer_state_from_chain chain t addresses ts db ≡ (ok tt, db)
unfolding reconcile_transfer_state_from_chain finish
reconcile_settled chain t addresses ts db row items supply has_row read there total state =
    rw (read, reconcile_transfer_state_from_chain)
      (ap (λ d. finish chain t (record d { balances = write_balances t ts items d.balances }))
          (ensure_token_again chain t db row has_row)
        ∙ ap (λ x. finish chain t (record db { balances = x }))
            (write_balances_same t ts items db.balances there)
        ∙ rw (total, finish) (ap (λ d. (ok tt, d)) state))

-- The state that a run writes is not changed by writing it again after the count of transfers.
module _ (t : Text) (supply holders : ℕ) (db : Database) where
  set_token_state_again :
      set_token_state t supply holders
        (sync_token_transfers_from_events t (set_token_state t supply holders db))
      ≡ sync_token_transfers_from_events t (set_token_state t supply holders db)
  unfolding set_token_state sync_token_transfers_from_events
  set_token_state_again =
      ap (λ x. record db { tokens = x })
        (update_token_again t (λ x. record x { total_supply = supply; holders = pos holders })
          (λ x. record x { transfers = count_events t db.events }) (λ x. refl) (λ x. refl) db.tokens
          (λ x. refl))

sync_again :
    (t : Text) (db : Database)
    → sync_token_transfers_from_events t (sync_token_transfers_from_events t db)
      ≡ sync_token_transfers_from_events t db
unfolding sync_token_transfers_from_events
sync_again t db =
    ap (λ x. record db { tokens = x })
      (update-update_token t (λ x. record x { transfers = count_events t db.events })
        (λ x. record x { transfers = count_events t db.events }) db.tokens (λ x. refl))

-- The row is still there after the count of transfers.
synced_row :
    (t : Text) (db : Database) (row : Token)
    → select_token t db.tokens ≡ some row
    → (r : Token) × (select_token t (sync_token_transfers_from_events t db).tokens ≡ some r)
unfolding sync_token_transfers_from_events
synced_row t db row h = (
  record row { transfers = count_events t db.events },
  select-update_token t (λ x. record x { transfers = count_events t db.events }) db.tokens
        (λ x. refl)
      ∙ ap (changed (λ x. record x { transfers = count_events t db.events })) h,
)

reconcile_again :
    (chain : Chain) (t : Text) (addresses : List Text) (ts : Option ℕ) (db db' : Database)
    → reconcile_transfer_state_from_chain chain t addresses ts db ≡ (ok tt, db')
    → reconcile_transfer_state_from_chain chain t addresses ts
        (sync_token_transfers_from_events t db')
      ≡ (ok tt, sync_token_transfers_from_events t db')
reconcile_again chain t addresses ts db db' h =
    let r = reconcile-Run chain t addresses ts db db' h in
    let done = reconcile-Reconciled chain t addresses ts db db' h in
    let (row, has_row) = synced_row t db' done.row done.found in
    let sync = sync_token_transfers_from_events t in
    let rows : (sync db').balances ≡ db'.balances =
      unfold sync_token_transfers_from_events in refl in
    let written : db'.balances ≡ write_balances t ts r.items db.balances =
      unfold set_token_state in ap (λ d. d.balances) (sym r.final) in
    let count = get_holder_count t (write_balances t ts r.items db.balances) in
    reconcile_settled chain t addresses ts (sync db') row r.items r.supply has_row r.read
      (read_balances-There chain t _ (tracked_addresses chain addresses) r.items r.read
        (λ b l. done.tracked b l ∙ ap (λ x. some (get_balance b t x)) (sym rows)))
      r.total
      (ap (λ x. set_token_state t r.supply (get_holder_count t x) (sync db')) (rows ∙ written)
        ∙ subst (λ d. set_token_state t r.supply count (sync d) ≡ sync d) r.final
            (set_token_state_again t r.supply count _))

-- The parts of a replay that returned.
synced-eq-ok :
    (t : Text) (k n : ℕ) (r : Result Failure (Unit {0}) × Database) (db' : Database)
    → synced t k r ≡ (ok n, db')
    → (db2 : Database) × (r ≡ (ok tt, db2)) × (sync_token_transfers_from_events t db2 ≡ db')
synced-eq-ok t k n (ok _, db2) db' h = (db2, refl, ap (λ x. x.1) h)
synced-eq-ok t k n (err e, db2) db' h = absurd (cc (ap (λ x. x.0) h))

-- The inserted event stays through the rest of a replay.
replay-events :
    (chain : Chain) (log : TransferLog) (ts : ℕ) (db1 db2 : Database)
    → reconcile_transfer_state_from_chain chain log.token_id (log.from ∷ log.to ∷ []) (some ts) db1
      ≡ (ok tt, db2)
    → (sync_token_transfers_from_events log.token_id db2).events ≡ db1.events
unfolding sync_token_transfers_from_events
replay-events chain log ts db1 db2 h =
    let done =
      reconcile-Reconciled chain log.token_id (log.from ∷ log.to ∷ []) (some ts) db1 db2 h in
    done.events

-- A log that was replayed is not counted again: to replay it a second time while the chain answers
-- as before inserts no event and leaves the whole database as it is.
pub replay_transfer_log_again :
    (chain : Chain) (log : TransferLog) (ts : ℕ) (db db' : Database) (n : ℕ)
    → replay_transfer_log_from_chain chain log ts db ≡ (ok n, db')
    → replay_transfer_log_from_chain chain log ts db' ≡ (ok 0, db')
unfolding replay_transfer_log_from_chain insert_parsed_transfer_log
replay_transfer_log_again chain log ts db db' n h =
    let e = event_of chain log ts in
    let db1 = (insert_event e db).1 in
    let (db2, ran, counted) = synced-eq-ok log.token_id (insert_event e db).0 n _ db' h in
    let kept : db'.events ≡ db1.events =
      ap (λ d. d.events) (sym counted) ∙ replay-events chain log ts db1 db2 ran in
    let there : insert_event e db' ≡ (0, db') =
      insert_event_there e db'
        (ap (has_event e.tx_hash e.log_index) kept ∙ has_event-insert_event e db) in
    let again = reconcile_again chain log.token_id (log.from ∷ log.to ∷ []) (some ts) db1 db2 ran in
    ap
      (λ i. synced log.token_id i.0 (
        reconcile_transfer_state_from_chain chain log.token_id (log.from ∷ log.to ∷ []) (some ts)
          i.1))
      there
    ∙ ap (synced log.token_id 0) (
        subst
          (λ d.
            reconcile_transfer_state_from_chain chain log.token_id (log.from ∷ log.to ∷ [])
              (some ts) d
            ≡ (ok tt, d))
          counted again)
    ∙ ap (λ d. (ok 0, d))
        (ap (sync_token_transfers_from_events log.token_id) (sym counted)
          ∙ sync_again log.token_id db2
          ∙ counted)
