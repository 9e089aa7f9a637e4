-- ===== src/Indexer/TransferReplay/Run.antt =====
-- `runTransferReplay` with `withReplayLock`: the batches of blocks, one after another. A transaction
-- of the database commits, and the times of the progress are left out.
pub mod Writes
pub mod Complete
pub mod Lock
use relay_settlement.Common.{
  ℕ, zero, suc, ◌+◌, ◌-◌, List, [], ◌∷◌, ◌++◌, Bool, true, false, Option, none, some, Result, ok,
  err, length, leb, if◌then◌else◌,
}
use relay_settlement.Common.Doubles.{rounded}
use relay_settlement.Common.Int.{pos}
use relay_settlement.Host.{Text}
use relay_settlement.Indexer.Database.{Database, sync_token_transfers_from_events}
use relay_settlement.Indexer.Ranges.{IndexedLog, get_transfer_logs_with_split}
use relay_settlement.Indexer.Transfers.{
  TransferLog, insert_parsed_transfer_log, reconcile_transfer_state_from_chain,
}
use relay_settlement.Indexer.TransferReplay.Request.{
  JsNumber, integer, Fields, TransferReplayRequest, validate_transfer_replay_request, Counters,
  Batch, TransferReplayProgress, lower, build_transfer_replay_progress,
}
use relay_settlement.Indexer.TransferReplay.Collect.{
  Env, ReplayFault, read_failed, bad_request, call_failed, lock_taken, no_fuel, sort_logs, chunk,
  Collected, collect_logs,
}

-- What a replay changes: the database, its counters, the cache, the last batch, and the progress
-- that it has reported.
pub record Replay : Type 0 where
  pub db : Database
  pub counters : Counters
  pub cache : List (ℕ × ℕ)
  pub completed : Option Batch
  pub reported : List TransferReplayProgress

abbrev pub Outcome : Type 0
Outcome = Result ReplayFault (Unit {0}) × Replay

-- A statement behind another one, which is not reached where that one throws.
abbrev pub followed : Outcome → (Replay → Outcome) → Outcome
followed (ok u, st) f = f st
followed (err e, st) f = (err e, st)

module _ (env : Env) where
  unfoldable pub insert_transfers : List (TransferLog × ℕ) → Replay → Replay
  unfolding insert_parsed_transfer_log
  insert_transfers [] st = st
  insert_transfers ((transfer, timestamp) ∷ transfers) st =
      let (inserted, db) = insert_parsed_transfer_log env.chain transfer timestamp st.db in
      let c = st.counters in
      insert_transfers transfers (record st {
        db = db;
        counters = record c { decoded = c.decoded + 1; inserted = c.inserted + inserted };
      })

  unfoldable pub reconcile_chunks : Text → List (List Text) → Replay → Outcome
  unfolding reconcile_transfer_state_from_chain
  reconcile_chunks token_id [] st = (ok tt, st)
  reconcile_chunks token_id (addresses ∷ rest) st =
      let (result, db) =
        reconcile_transfer_state_from_chain env.chain token_id addresses none st.db in
      let c = st.counters in
      elim result [
        | err e ↦ (err call_failed, record st { db = db })
        | ok u ↦ reconcile_chunks token_id rest (record st {
          db = db;
          counters = record c { reconciled_addresses = c.reconciled_addresses + length addresses };
        })
      ]

  unfoldable pub reconcile_touched : ℕ → List (Text × List Text) → Replay → Outcome
  unfolding reconcile_chunks
  reconcile_touched size [] st = (ok tt, st)
  reconcile_touched size ((token_id, addresses) ∷ touched) st =
      followed (reconcile_chunks token_id (chunk addresses size) st)
        (reconcile_touched size touched)

  unfoldable pub sync_tokens : List Text → Database → Database
  unfolding sync_token_transfers_from_events
  sync_tokens [] db = db
  sync_tokens (token_id ∷ tokens) db =
      sync_tokens tokens (sync_token_transfers_from_events token_id db)

  module _ (request : TransferReplayRequest) where
    unfoldable pub complete_batch : ℕ → ℕ → List Text → Replay → Outcome
    unfolding sync_tokens build_transfer_replay_progress
    complete_batch start last tokens st =
        let done = some (record { first = start; last = last }) in
        (
          ok tt,
          record st {
            db = sync_tokens tokens st.db;
            completed = done;
            reported =
                st.reported ++ (build_transfer_replay_progress request st.counters done ∷ []);
          },
        )

    -- The writes of a batch whose transfers are collected.
    unfoldable pub write_batch : ℕ → ℕ → Collected → Replay → Outcome
    unfolding insert_transfers reconcile_touched complete_batch
    write_batch start last c st =
        let counted = record st {
          cache = c.cache;
          counters = let old = st.counters in record old { skipped = old.skipped + c.skipped };
        } in
        followed
          (reconcile_touched request.reconcile_chunk_size c.touched
            (insert_transfers c.transfers counted))
          (complete_batch start last c.touched_tokens)

    unfoldable pub replay_batch : ℕ → ℕ → Replay → Outcome
    unfolding get_transfer_logs_with_split sort_logs collect_logs write_batch
    replay_batch start last st =
        elim (get_transfer_logs_with_split env.provider (suc (last - start)) env.max_pages start
          last) [
            | err e ↦ (err (read_failed e), st)
            | ok logs ↦
                elim (collect_logs env (sort_logs logs) (record {
                  cache = st.cache;
                  skipped = 0;
                  transfers = [];
                  touched_tokens = [];
                  touched = [];
                })) [ err e ↦ (err e, st) | ok c ↦ write_batch start last c st ]
          ]

    -- `for (start = fromBlock; start <= toBlock; start += batchSize)`. The sum of doubles moves on, or it
    -- is `start` for ever: fuel for as many steps as there are blocks runs out in that case only.
    unfoldable pub replay_loop : ℕ → ℕ → Replay → Outcome
    unfolding replay_batch
    replay_loop zero start st = (err no_fuel, st)
    replay_loop (suc fuel) start st =
        let next = rounded (start + request.batch_size) in
        let last = lower (rounded (next - 1)) request.to_block in
        elim (leb start request.to_block) [
          | true ↦ followed (replay_batch start last st) (replay_loop fuel next)
          | false ↦ (ok tt, st)
        ]

-- The database and its advisory lock.
pub record System : Type 0 where
  pub db : Database
  pub locked : Bool

abbrev pub started : Database → Replay
started db = record {
  db = db;
  counters = record { decoded = 0; inserted = 0; reconciled_addresses = 0; skipped = 0 };
  cache = [];
  completed = none;
  reported = [];
}

-- `pg_try_advisory_lock`, for a lock that another session may hold, and `pg_advisory_unlock`.
unfoldable pub try_advisory_lock : System → Bool × System
try_advisory_lock system =
    if system.locked then (false, system) else (true, record system { locked = true })

unfoldable pub advisory_unlock : System → System
advisory_unlock system = record system { locked = false }

-- `try { return await callback(db) } finally { … }`: the block behind `finally` is run on what was
-- returned and on what was thrown.
unfoldable pub try_finally :
    Outcome → System → (System → System) → Result ReplayFault (Unit {0}) × Replay × System
try_finally (ok u, st) system last = (ok u, st, last (record system { db = st.db }))
try_finally (err e, st) system last = (err e, st, last (record system { db = st.db }))

unfoldable pub with_replay_lock :
    (Database → Outcome) → System → Result ReplayFault (Unit {0}) × Replay × System
unfolding try_advisory_lock advisory_unlock try_finally
with_replay_lock callback system =
    let (acquired, held) = try_advisory_lock system in
    if acquired
    then try_finally (callback held.db) held advisory_unlock
    else (err lock_taken, started held.db, held)

abbrev pub as_numbers : TransferReplayRequest → Fields JsNumber
as_numbers r = record {
  batch_size = integer (pos r.batch_size);
  from_block = integer (pos r.from_block);
  reconcile_chunk_size = integer (pos r.reconcile_chunk_size);
  to_block = integer (pos r.to_block);
}

unfoldable pub run_locked :
    Env → TransferReplayRequest → System → Result ReplayFault (Unit {0}) × Replay × System
unfolding with_replay_lock replay_loop
run_locked env request system =
    with_replay_lock
      (λ db.
        replay_loop env request (request.to_block - request.from_block + 2) request.from_block
          (started db))
      system

abbrev pub Report : Type 0
Report = Result ReplayFault TransferReplayProgress × List TransferReplayProgress × System

-- The progress at the end, or what was thrown; what was reported; and the system.
unfoldable pub report :
    TransferReplayRequest → Result ReplayFault (Unit {0}) × Replay × System → Report
unfolding build_transfer_replay_progress
report request (err e, st, system) = (err e, st.reported, system)
report request (ok u, st, system) =
    (ok (build_transfer_replay_progress request st.counters st.completed), st.reported, system)

unfoldable pub run_transfer_replay : Env → TransferReplayRequest → System → Report
unfolding validate_transfer_replay_request run_locked report
run_transfer_replay env request system =
    elim (validate_transfer_replay_request (as_numbers request) none) [
      | err e ↦ (err (bad_request e), [], system)
      | ok valid ↦ report valid (run_locked env valid system)
    ]
