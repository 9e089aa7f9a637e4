-- ===== src/Indexer/TransferReplay/Run/Lock.antt =====
-- The lock of the replays.
use relay_settlement.Common.{
  ◌≡◌, ◌⊎◌, refl, sym, ap, ◌∙◌, true, false, [], none, Result, ok, err, Result-cases, Bool-cases,
  inl, inr,
}
use relay_settlement.Indexer.TransferReplay.Request.{
  TransferReplayRequest, validate_transfer_replay_request,
}
use relay_settlement.Indexer.TransferReplay.Collect.{Env, ReplayFault}
use relay_settlement.Indexer.TransferReplay.Run.{
  Replay, Outcome, System, try_advisory_lock, advisory_unlock, try_finally, with_replay_lock,
  started, as_numbers, run_locked, report, run_transfer_replay,
}

-- The lock is as it was before the run. It was free, or the run threw and changed nothing.
pub record LockKept (env : Env) (request : TransferReplayRequest) (system : System) : Type 0 where
  pub kept : (run_transfer_replay env request system).2.locked ≡ system.locked
  pub exclusive :
      (system.locked ≡ false)
      ⊎ (((e : ReplayFault) × ((run_transfer_replay env request system).0 ≡ err e))
          × ((run_transfer_replay env request system).2 ≡ system))

-- What is run under the lock does not matter for the lock.
unlocked_behind :
    (o : Outcome) (system : System) → (try_finally o system advisory_unlock).2.locked ≡ false
unfolding try_finally advisory_unlock
unlocked_behind (ok u, st) system = refl
unlocked_behind (err e, st) system = refl

module _ (env : Env) (request : TransferReplayRequest) (system : System) where
  lock_given_back : system.locked ≡ false → (run_locked env request system).2.locked ≡ false
  unfolding run_locked with_replay_lock try_advisory_lock
  lock_given_back h = rw (h, run_locked) (unlocked_behind _ _)

  lock_refused :
      system.locked ≡ true
      → run_locked env request system ≡ (err ReplayFault.lock_taken, started system.db, system)
  unfolding run_locked with_replay_lock try_advisory_lock
  lock_refused h = rw (h, run_locked) refl

  report-system : (o : Result ReplayFault (Unit {0}) × Replay × System) → (report request o).2 ≡ o.2
  unfolding report
  report-system (ok u, st, s) = refl
  report-system (err e, st, s) = refl

-- Whatever a replay returns or throws, the lock is behind it as it was before; and where another one
-- held the lock, the replay throws and leaves the database alone.
pub run_transfer_replay_lock :
    (env : Env) (request : TransferReplayRequest) (system : System) → LockKept env request system
unfolding run_transfer_replay report
run_transfer_replay_lock env request system =
    elim (Result-cases (validate_transfer_replay_request (as_numbers request) none)) [
      | inr (e, h) ↦
          let all : run_transfer_replay env request system
              ≡ (err (ReplayFault.bad_request e), [], system) =
            rw (h, run_transfer_replay) refl in
          record {
            kept = ap (λ o. o.2.locked) all;
            exclusive = inr ((ReplayFault.bad_request e, ap (λ o. o.0) all), ap (λ o. o.2) all);
          }
      | inl (valid, h) ↦
          let all : run_transfer_replay env request system
              ≡ report valid (run_locked env valid system) =
            rw (h, run_transfer_replay) refl in
          elim (Bool-cases system.locked) [
            | inl taken ↦
                let refused =
                  all ∙ ap (λ o. report valid o) (lock_refused env valid system taken) in
                record {
                  kept = ap (λ o. o.2.locked) refused;
                  exclusive =
                      inr ((ReplayFault.lock_taken, ap (λ o. o.0) refused), ap (λ o. o.2) refused);
                }
            | inr free ↦ record {
              kept =
                  ap (λ o. o.2.locked) all
                  ∙ ap (λ s. s.locked)
                      (report-system env valid system (run_locked env valid system))
                  ∙ lock_given_back env valid system free
                  ∙ sym free;
              exclusive = inl free;
            }
          ]
    ]
