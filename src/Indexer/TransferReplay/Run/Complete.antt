-- ===== src/Indexer/TransferReplay/Run/Complete.antt =====
-- `runTransferReplay` over a whole range of blocks.
use relay_settlement.Common.{
  ℕ, zero, suc, ◌+◌, ◌-◌, ◌≡◌, ◌≤◌, ◌<◌, ◌⊎◌, inl, inr, refl, sym, ap, ◌∙◌, subst, List, [], ◌∷◌,
  ◌++◌, true, false, Option, none, some, ok, length, length-append, append-nil, All, All-append,
  leb, arith,
}
use relay_settlement.Common.Doubles.{exact_limit, rounded-exact}
use relay_settlement.Host.{Text}
use relay_settlement.Indexer.Database.{Event, has_event}
use relay_settlement.Indexer.Ranges.{IndexedLog}
use relay_settlement.Indexer.Ranges.Complete.{
  exact_blocks, logs_from, logs_between, halves, Serves, get_transfer_logs_with_split_complete,
}
use relay_settlement.Indexer.Transfers.{TransferLog}
use relay_settlement.Indexer.TransferReplay.Request.{
  TransferReplayRequest, validate_transfer_replay_request, Batch, TransferReplayProgress, lower,
  processed, build_transfer_replay_progress,
}
use relay_settlement.Indexer.TransferReplay.Request.Valid.{validate_transfer_replay_request_iff}
use relay_settlement.Indexer.TransferReplay.Collect.{Env, sort_logs, Collected}
use relay_settlement.Indexer.TransferReplay.Collect.Counted.{
  Listed, IsTransfer, seen, collect_logs-GrowsAll, All-sort_logs, length-sort_logs,
}
use relay_settlement.Indexer.TransferReplay.Run.{
  Replay, insert_transfers, complete_batch, write_batch, replay_batch, replay_loop, followed,
  try_advisory_lock, try_finally, advisory_unlock, System, started, with_replay_lock, run_locked,
  report, as_numbers, run_transfer_replay,
}
use relay_settlement.Indexer.TransferReplay.Run.Writes.{
  Keeps, insert_transfers-Inserted, Answers, touched_reconcile, sync_tokens-events,
}

-- The event of a log that is a transfer is in the table.
abbrev pub Recorded : Env → List Event → IndexedLog → Type 0
Recorded env events log =
    IsTransfer env log → has_event log.transaction_hash log.index events ≡ true

abbrev pub counted : Replay → ℕ
counted st = st.counters.decoded + st.counters.skipped

Recorded-Keeps :
    (env : Env) (es fs : List Event) (logs : List IndexedLog)
    → Keeps es fs
    → All (Recorded env es) logs
    → All (Recorded env fs) logs
Recorded-Keeps env es fs [] k h = tt
Recorded-Keeps env es fs (log ∷ logs) k h =
    (λ t. k log.transaction_hash log.index (h.0 t), Recorded-Keeps env es fs logs k h.1)

Recorded-listed :
    (env : Env) (es : List Event) (ts : List (TransferLog × ℕ)) (logs : List IndexedLog)
    → ((tx : Text) (i : ℕ) → Listed tx i ts → has_event tx i es ≡ true)
    → All (λ log. IsTransfer env log → Listed log.transaction_hash log.index ts) logs
    → All (Recorded env es) logs
Recorded-listed env es ts [] k h = tt
Recorded-listed env es ts (log ∷ logs) k h =
    (λ t. k log.transaction_hash log.index (h.0 t), Recorded-listed env es ts logs k h.1)

le_or_lt : (a b : ℕ) → (a ≤ b) ⊎ (b < a)
le_or_lt a b = ground arith

not_past : (a b : ℕ) → a ≤ b → leb a b ≡ true
not_past a b h = ground arith

module _ (env : Env) (answers : Answers env) (blocks : ℕ → List IndexedLog) (depth : ℕ)
    (serves : Serves env.provider blocks depth) (enough : depth ≤ env.max_pages)
    (request : TransferReplayRequest) (exact : request.to_block ≤ exact_blocks) where
  record Written (start last : ℕ) (c : Collected) (st : Replay) : Type 0 where
    after : Replay
    run : write_batch env request start last c st ≡ (ok tt, after)
    keeps : Keeps st.db.events after.db.events
    listed : (tx : Text) (i : ℕ) → Listed tx i c.transfers → has_event tx i after.db.events ≡ true
    counts : counted after ≡ counted st + seen c
    completed : after.completed ≡ some (record { first = start; last = last })

  write_batch-Written : (start last : ℕ) (c : Collected) (st : Replay) → Written start last c st
  unfolding write_batch complete_batch
  write_batch-Written start last c st =
      let st0 = record st {
        cache = c.cache;
        counters = let old = st.counters in record old { skipped = old.skipped + c.skipped };
      } in
      let i = insert_transfers-Inserted env c.transfers st0 in
      let st1 = insert_transfers env c.transfers st0 in
      let (st2, e, q) = touched_reconcile env answers request.reconcile_chunk_size c.touched st1 in
      let after = (complete_batch env request start last c.touched_tokens st2).1 in
      let events : after.db.events ≡ st1.db.events =
        sync_tokens-events env c.touched_tokens st2.db ∙ q.events in
      record {
        after = after;
        run = rw (e) refl;
        keeps = λ tx n h. subst (λ es. has_event tx n es ≡ true) (sym events) (i.keeps tx n h);
        listed = λ tx n h. subst (λ es. has_event tx n es ≡ true) (sym events) (i.listed tx n h);
        counts = omega (arith, q.decoded, q.skipped, i.decoded, i.skipped);
        completed = refl;
      }

  record Batched (start last : ℕ) (st : Replay) : Type 0 where
    after : Replay
    run : replay_batch env request start last st ≡ (ok tt, after)
    keeps : Keeps st.db.events after.db.events
    recorded : All (Recorded env after.db.events) (logs_between blocks start last)
    counts : counted after ≡ counted st + length (logs_between blocks start last)
    completed : after.completed ≡ some (record { first = start; last = last })

  replay_batch-Batched :
      (start last : ℕ) (st : Replay)
      → start ≤ last
      → last ≤ request.to_block
      → Batched start last st
  unfolding replay_batch
  replay_batch-Batched start last st ordered within =
      let logs = logs_between blocks start last in
      let empty : Collected = record {
        cache = st.cache;
        skipped = 0;
        transfers = [];
        touched_tokens = [];
        touched = [];
      } in
      let read =
        get_transfer_logs_with_split_complete env.provider blocks depth serves (suc (last - start))
          env.max_pages start last ordered (omega arith) (omega arith) enough in
      let g = collect_logs-GrowsAll env answers.block (sort_logs logs) empty in
      let w = write_batch-Written start last g.next st in
      record {
        after = w.after;
        run = rw (read, replay_batch, g.run) w.run;
        keeps = w.keeps;
        recorded =
            Recorded-listed env w.after.db.events g.added logs
              (λ tx i h. w.listed tx i (subst (λ ts. Listed tx i ts) (sym g.grown) h))
              (All-sort_logs
                (λ log. IsTransfer env log → Listed log.transaction_hash log.index g.added) logs
                g.listed);
        counts = omega (arith, w.counts, g.counted, length-sort_logs logs);
        completed = w.completed;
      }

  record Looped (fuel start : ℕ) (st : Replay) : Type 0 where
    after : Replay
    run : replay_loop env request fuel start st ≡ (ok tt, after)
    keeps : Keeps st.db.events after.db.events
    recorded : All (Recorded env after.db.events) (logs_between blocks start request.to_block)
    counts : counted after ≡ counted st + length (logs_between blocks start request.to_block)
    completed :
        (start ≤ request.to_block)
        → (b : Batch) × (after.completed ≡ some b) × (b.last ≡ request.to_block)
    unchanged : (request.to_block < start) → after.completed ≡ st.completed

  lower_ordered : (a n : ℕ) → a ≤ request.to_block → a < n → a ≤ lower (n - 1) request.to_block
  lower_ordered a n h k = ground arith

  lower_within : (n : ℕ) → lower n request.to_block ≤ request.to_block
  lower_within n = ground arith

  lower_last : (a n : ℕ) → request.to_block < n → lower (n - 1) request.to_block ≡ request.to_block
  lower_last a n h = ground arith

  lower_next : (n : ℕ) → 0 < n → n ≤ request.to_block → lower (n - 1) request.to_block ≡ n - 1
  lower_next n h k = ground arith

  -- A batch and the blocks behind it.
  both_parts :
      (a n : ℕ)
      → a ≤ request.to_block
      → a < n
      → logs_between blocks a (lower (n - 1) request.to_block)
          ++ logs_between blocks n request.to_block
        ≡ logs_between blocks a request.to_block
  both_parts a n h k = elim (le_or_lt n request.to_block) [
    | inl more ↦
        let last = lower_next n (omega arith) more in
        let step : n - 1 + 1 ≡ n = omega arith in
        ap (λ c. logs_between blocks a c ++ logs_between blocks n request.to_block) last
        ∙ ap (λ c. logs_between blocks a (n - 1) ++ logs_between blocks c request.to_block)
            (sym step)
        ∙ halves blocks a (n - 1) request.to_block (omega arith) (omega arith)
    | inr past ↦
        let none_left : suc request.to_block - n ≡ 0 = omega arith in
        ap (λ c. logs_between blocks a c ++ logs_between blocks n request.to_block)
          (lower_last a n past)
        ∙ ap (λ c. logs_between blocks a request.to_block ++ logs_from blocks n c) none_left
        ∙ append-nil (logs_between blocks a request.to_block)
  ]

  -- Behind the last block nothing is left.
  loop_ended :
      (fuel start : ℕ) (st : Replay) → request.to_block < start → Looped (suc fuel) start st
  unfolding replay_loop
  loop_ended fuel start st h =
      let none_left : suc request.to_block - start ≡ 0 = omega arith in
      let past : leb start request.to_block ≡ false = ground arith in
      record {
        after = st;
        run = rw (past, replay_loop) refl;
        keeps = λ tx i k. k;
        recorded =
            subst (λ n. All (Recorded env st.db.events) (logs_from blocks start n)) (sym none_left)
              tt;
        counts = omega (arith, ap (λ n. length (logs_from blocks start n)) none_left);
        completed = λ k. absurd (omega arith);
        unchanged = λ k. refl;
      }

  module _ (some_batch : 1 ≤ request.batch_size)
      (exact_sum : request.to_block + request.batch_size ≤ exact_limit) where
    -- One step of the loop, where the sum is exact.
    loop_step :
        (fuel start : ℕ) (st : Replay)
        → start ≤ request.to_block
        → replay_loop env request (suc fuel) start st
          ≡ followed
              (replay_batch env request start
                (lower (start + request.batch_size - 1) request.to_block)
                st)
              (replay_loop env request fuel (start + request.batch_size))
    unfolding replay_loop
    loop_step fuel start st ordered =
        let sum = rounded-exact (start + request.batch_size) (omega arith) in
        let before = rounded-exact (start + request.batch_size - 1) (omega arith) in
        rw (not_past start request.to_block ordered, replay_loop, sum, before) refl

    loop-Looped :
        (fuel start : ℕ) (st : Replay) → suc request.to_block - start < fuel → Looped fuel start st
    unfolding replay_loop
    loop-Looped zero start st h = absurd (omega arith)
    loop-Looped (suc fuel) start st h = elim (le_or_lt start request.to_block) [
      | inr past ↦ loop_ended fuel start st past
      | inl ordered ↦
          let last = lower (start + request.batch_size - 1) request.to_block in
          let b =
            replay_batch-Batched start last st
              (lower_ordered start (start + request.batch_size) ordered (omega arith))
              (lower_within (start + request.batch_size - 1)) in
          let rest = loop-Looped fuel (start + request.batch_size) b.after (omega arith) in
          let all = both_parts start (start + request.batch_size) ordered (omega arith) in
          let first = logs_between blocks start last in
          let second = logs_between blocks (start + request.batch_size) request.to_block in
          record {
            after = rest.after;
            run =
                loop_step fuel start st ordered
                ∙ ap (λ o. followed o (replay_loop env request fuel (start + request.batch_size)))
                    b.run
                ∙ rest.run;
            keeps = λ tx i k. rest.keeps tx i (b.keeps tx i k);
            recorded =
                subst (λ ls. All (Recorded env rest.after.db.events) ls) all
                  (All-append (Recorded env rest.after.db.events) first second
                    (Recorded-Keeps env b.after.db.events rest.after.db.events first rest.keeps
                      b.recorded)
                    rest.recorded);
            counts = omega (
              arith,
              rest.counts,
              b.counts,
              ap (λ ls. length ls) all,
              length-append first second,
            );
            completed = λ k. elim (le_or_lt (start + request.batch_size) request.to_block) [
              | inl more ↦ rest.completed more
              | inr past ↦ (
                record { first = start; last = last },
                rest.unchanged past ∙ b.completed,
                lower_last start (start + request.batch_size) past,
              )
            ];
            unchanged = λ k. absurd (omega arith);
          }
    ]

  -- The result of a replay of the whole range.
  pub record Completes (system : System) : Type 0 where
    pub progress : TransferReplayProgress
    pub reported : List TransferReplayProgress
    pub after : System
    pub run : run_transfer_replay env request system ≡ (ok progress, reported, after)
    pub unlocked : after.locked ≡ false
    pub finished : progress.remaining_blocks ≡ 0
    pub whole : progress.processed_blocks ≡ progress.total_blocks
    pub counts :
        progress.counters.decoded + progress.counters.skipped
        ≡ length (logs_between blocks request.from_block request.to_block)
    pub keeps : Keeps system.db.events after.db.events
    pub recorded :
        All (Recorded env after.db.events) (logs_between blocks request.from_block request.to_block)

  processed_all :
      (o : Option Batch) (b : Batch)
      → o ≡ some b
      → b.last ≡ request.to_block
      → processed request o ≡ (request.to_block + 1) - request.from_block
  unfolding processed
  processed_all o b h k = ap (λ x. processed request x) h ∙ lower_same b.last k
    where
      lower_same :
          (n : ℕ)
          → n ≡ request.to_block
          → (lower n request.to_block + 1) - request.from_block
            ≡ (request.to_block + 1) - request.from_block
      lower_same n e = ground arith

  locked_run :
      (system : System) (after : Replay)
      → system.locked ≡ false
      → replay_loop env request
          (request.to_block - request.from_block + 2)
          request.from_block
          (started system.db)
        ≡ (ok tt, after)
      → run_locked env request system ≡ (ok tt, after, record { db = after.db; locked = false })
  unfolding run_locked with_replay_lock try_advisory_lock try_finally advisory_unlock
  locked_run system after free h = rw (free, run_locked, h) refl

  validated :
      (system : System)
      → validate_transfer_replay_request (as_numbers request) none ≡ ok request
      → run_transfer_replay env request system ≡ report request (run_locked env request system)
  unfolding run_transfer_replay
  validated system h = rw (h, run_transfer_replay) refl

  -- A valid request for blocks up to 2 to the power 52, whose last block and batch size add up to at
  -- most 2 to the power 53, on a database whose lock is free runs to its end, where the provider serves all
  -- logs, possibly in parts, and the chain and the blocks are there: it returns, the lock is free
  -- again, no block remains, every log of the range is counted as decoded or as skipped, and every
  -- transfer among them, of a token that is not skipped, has its event, as have all events that were
  -- there before.
  pub run_transfer_replay_complete :
      1 ≤ request.batch_size
      → 1 ≤ request.reconcile_chunk_size
      → request.from_block ≤ request.to_block
      → request.to_block + request.batch_size ≤ exact_limit
      → (system : System) → system.locked ≡ false
      → Completes system
  unfolding report build_transfer_replay_progress
  run_transfer_replay_complete some_batch some_chunk ordered exact_sum system free =
      let valid =
        (validate_transfer_replay_request_iff (as_numbers request) none request).1 (record {
          batch = refl;
          first = refl;
          chunk_number = refl;
          last = refl;
          some_batch = some_batch;
          some_chunk = some_chunk;
          ordered = ordered;
          within = tt;
        }) in
      let l =
        loop-Looped some_batch exact_sum (request.to_block - request.from_block + 2)
          request.from_block (started system.db) (omega arith) in
      let (b, done, last) = l.completed ordered in
      let locked = locked_run system l.after free l.run in
      let all = processed_all l.after.completed b done last in
      record {
        progress = build_transfer_replay_progress request l.after.counters l.after.completed;
        reported = l.after.reported;
        after = record { db = l.after.db; locked = false };
        run = validated system valid ∙ ap (λ o. report request o) locked;
        unlocked = refl;
        finished = omega (arith, all);
        whole = omega (arith, all);
        counts = omega (arith, l.counts);
        keeps = l.keeps;
        recorded = l.recorded;
      }
