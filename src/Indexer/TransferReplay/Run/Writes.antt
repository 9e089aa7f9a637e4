-- ===== src/Indexer/TransferReplay/Run/Writes.antt =====
-- What the writes of a batch leave: the events of its transfers, and the counts.
use relay_settlement.Common.{
  ℕ, ◌+◌, ◌≡◌, inl, inr, refl, ap, ◌∙◌, subst, List, [], ◌∷◌, ◌++◌, true, none, some, ok, length,
  Bool-cases, arith,
}
use relay_settlement.Host.{Text}
use relay_settlement.Indexer.Database.{
  Event, Database, has_event, insert_event, sync_token_transfers_from_events,
}
use relay_settlement.Indexer.Transfers.{
  TransferLog, event_of, insert_parsed_transfer_log, tracked_addresses, read_balances, finish,
  reconcile_transfer_state_from_chain,
}
use relay_settlement.Indexer.Transfers.Reconcile.{reconcile-Reconciled}
use relay_settlement.Indexer.Transfers.Replay.{has_event-insert_event}
use relay_settlement.Indexer.TransferReplay.Collect.{Env, chunk}
use relay_settlement.Indexer.TransferReplay.Collect.Counted.{Listed}
use relay_settlement.Indexer.TransferReplay.Run.{
  Replay, insert_transfers, reconcile_chunks, reconcile_touched, sync_tokens,
}

-- Events that are in a table stay there.
abbrev pub Keeps : List Event → List Event → Type 0
Keeps es fs = (tx : Text) (i : ℕ) → has_event tx i es ≡ true → has_event tx i fs ≡ true

has_event-left :
    (tx : Text) (i : ℕ) (es fs : List Event)
    → has_event tx i es ≡ true
    → has_event tx i (es ++ fs) ≡ true
unfolding has_event
has_event-left tx i [] fs h = absurd (cc)
has_event-left tx i (e ∷ es) fs h = ground (arith, has_event-left tx i es fs)

insert_event-Keeps : (e : Event) (db : Database) → Keeps db.events (insert_event e db).1.events
unfolding insert_event
insert_event-Keeps e db tx i h = elim (Bool-cases (has_event e.tx_hash e.log_index db.events)) [
  | inl k ↦ rw (k) h
  | inr k ↦ rw (k) (has_event-left tx i db.events (e ∷ []) h)
]

result_pair : {A B : Type 0} (p : A × B) {a : A} → p.0 ≡ a → p ≡ (a, p.1)
result_pair p h = ap (λ x. (x, p.1)) h

module _ (env : Env) where
  pub record Inserted (ts : List (TransferLog × ℕ)) (st : Replay) : Type 0 where
    pub keeps : Keeps st.db.events (insert_transfers env ts st).db.events
    pub listed :
        (tx : Text) (i : ℕ)
        → Listed tx i ts
        → has_event tx i (insert_transfers env ts st).db.events ≡ true
    pub decoded : (insert_transfers env ts st).counters.decoded ≡ st.counters.decoded + length ts
    pub skipped : (insert_transfers env ts st).counters.skipped ≡ st.counters.skipped
    pub completed : (insert_transfers env ts st).completed ≡ st.completed

  pub insert_transfers-Inserted : (ts : List (TransferLog × ℕ)) (st : Replay) → Inserted ts st
  unfolding insert_transfers insert_parsed_transfer_log event_of
  insert_transfers-Inserted [] st = record {
    keeps = λ tx i h. h;
    listed = λ tx i h. absurd (omega arith);
    decoded = omega arith;
    skipped = refl;
    completed = refl;
  }
  insert_transfers-Inserted ((t, timestamp) ∷ ts) st =
      let e = event_of env.chain t timestamp in
      let c = st.counters in
      let next = record st {
        db = (insert_event e st.db).1;
        counters = record c {
          decoded = c.decoded + 1;
          inserted = c.inserted + (insert_event e st.db).0;
        };
      } in
      let rest = insert_transfers-Inserted ts next in
      record {
        keeps = λ tx i h. rest.keeps tx i (insert_event-Keeps e st.db tx i h);
        listed = λ tx i h. elim h [
          | inl (p, q) ↦ rest.keeps tx i (
              subst (λ x. has_event x i next.db.events ≡ true) p
                (subst (λ n. has_event t.transaction_hash n next.db.events ≡ true) q
                  (has_event-insert_event e st.db)))
          | inr k ↦ rest.listed tx i k
        ];
        decoded = omega (arith, rest.decoded);
        skipped = rest.skipped;
        completed = rest.completed;
      }

  -- A chain that answers the calls.
  pub record Answers : Type 0 where
    pub balance : (a t : Text) → (n : ℕ) × (env.chain.balance_of a t ≡ some n)
    pub supply : (t : Text) → (n : ℕ) × (env.chain.total_supply t ≡ some n)
    pub block : (b : ℕ) → (t : ℕ) × (env.get_block b ≡ some t)

  -- Nothing but balances, tokens and the count of addresses differs.
  pub record Quiet (st st' : Replay) : Type 0 where
    pub events : st'.db.events ≡ st.db.events
    pub decoded : st'.counters.decoded ≡ st.counters.decoded
    pub skipped : st'.counters.skipped ≡ st.counters.skipped
    pub completed : st'.completed ≡ st.completed

  Quiet-trans : (a b c : Replay) → Quiet a b → Quiet b c → Quiet a c
  Quiet-trans a b c p q = record {
    events = q.events ∙ p.events;
    decoded = q.decoded ∙ p.decoded;
    skipped = q.skipped ∙ p.skipped;
    completed = q.completed ∙ p.completed;
  }

  module _ (answers : Answers) where
    balances_read :
        (t : Text) (as' : List Text)
        → (items : List (Text × ℕ)) × (read_balances env.chain t as' ≡ some items)
    unfolding read_balances
    balances_read t [] = ([], refl)
    balances_read t (a ∷ as') =
        let (n, e) = answers.balance a t in
        let (items, h) = balances_read t as' in ((a, n) ∷ items, rw (e, read_balances, h) refl)

    reconciles :
        (t : Text) (as' : List Text) (db : Database)
        → ((reconcile_transfer_state_from_chain env.chain t as' none db).0 ≡ ok tt)
          × ((reconcile_transfer_state_from_chain env.chain t as' none db).1.events ≡ db.events)
    unfolding reconcile_transfer_state_from_chain finish
    reconciles t as' db =
        let (items, e) = balances_read t (tracked_addresses env.chain as') in
        let (n, h) = answers.supply t in
        let done : (reconcile_transfer_state_from_chain env.chain t as' none db).0 ≡ ok tt =
          rw (e, reconcile_transfer_state_from_chain, h, finish) refl in
        let run = result_pair (reconcile_transfer_state_from_chain env.chain t as' none db) done in
        (done, (reconcile-Reconciled env.chain t as' none db _ run).events)

    chunks_reconcile :
        (t : Text) (cs : List (List Text)) (st : Replay)
        → (st' : Replay) × (reconcile_chunks env t cs st ≡ (ok tt, st')) × Quiet st st'
    unfolding reconcile_chunks
    chunks_reconcile t [] st =
        (st, refl, record { events = refl; decoded = refl; skipped = refl; completed = refl })
    chunks_reconcile t (as' ∷ cs) st =
        let (e, same) = reconciles t as' st.db in
        let db = (reconcile_transfer_state_from_chain env.chain t as' none st.db).1 in
        let c = st.counters in
        let next = record st {
          db = db;
          counters = record c { reconciled_addresses = c.reconciled_addresses + length as' };
        } in
        let (last, h, q) = chunks_reconcile t cs next in
        (
          last,
          rw (e, reconcile_chunks) h,
          Quiet-trans st next last
              (record { events = same; decoded = refl; skipped = refl; completed = refl }) q,
        )

    pub touched_reconcile :
        (size : ℕ) (touched : List (Text × List Text)) (st : Replay)
        → (st' : Replay) × (reconcile_touched env size touched st ≡ (ok tt, st')) × Quiet st st'
    unfolding reconcile_touched
    touched_reconcile size [] st =
        (st, refl, record { events = refl; decoded = refl; skipped = refl; completed = refl })
    touched_reconcile size ((t, as') ∷ touched) st =
        let (next, e, p) = chunks_reconcile t (chunk as' size) st in
        let (last, h, q) = touched_reconcile size touched next in
        (last, rw (e, reconcile_chunks) h, Quiet-trans st next last p q)

  pub sync_tokens-events :
      (ts : List Text) (db : Database) → (sync_tokens env ts db).events ≡ db.events
  unfolding sync_tokens sync_token_transfers_from_events
  sync_tokens-events [] db = refl
  sync_tokens-events (t ∷ ts) db = sync_tokens-events ts _
