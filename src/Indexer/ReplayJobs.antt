-- ===== src/Indexer/ReplayJobs.antt =====
-- packages/indexer/src/services/transferReplayJobs.ts: the table of jobs, in the order of insertion.
-- A time is a number of milliseconds; the texts of ISO times compare as these do. The id of a new
-- job and the time of a call are arguments. What the promise of a replay calls back is an operation
-- of its own on the job's row, which does nothing where the row is gone.
pub mod Reachable
mod Tests
use relay_settlement.Common.{
  ℕ, zero, suc, ◌+◌, List, [], ◌∷◌, ◌++◌, Bool, true, false, not, ◌&&◌, Option, none, some, Result,
  ok, err, length, find?, ltb, leb, equal_bytes, if◌then◌else◌,
}
use relay_settlement.Host.{Text}
use relay_settlement.Indexer.TransferReplay.Request.{
  JsNumber, JsValue, Fields, TransferReplayRequest, RequestError, Numbers,
  build_transfer_replay_request, TransferReplayProgress, build_transfer_replay_progress,
}

pub data TransferReplayJobState : Type 0 where
  failed running succeeded : TransferReplayJobState

pub record TransferReplayJob : Type 0 where
  pub completed_at : Option ℕ
  pub error : Option Text
  pub id : Text
  pub progress : TransferReplayProgress
  pub request : TransferReplayRequest
  pub started_at : ℕ
  pub state : TransferReplayJobState

pub record Options : Type 0 where
  pub default_batch_size : JsNumber
  pub default_reconcile_chunk_size : JsNumber
  pub max_block_range : ℕ
  pub max_retained_jobs : ℕ
  pub terminal_job_ttl_ms : ℕ
  pub numbers : Numbers

pub data StartError : Type 0 where
  job_conflict : Text → StartError
  request_refused : RequestError → StartError

abbrev pub is_running : TransferReplayJob → Bool
is_running job = elim (job.state) [ running ↦ true | failed ↦ false | succeeded ↦ false ]

abbrev pub has_completed : TransferReplayJob → Bool
has_completed job = elim (job.completed_at) [ none ↦ false | some t ↦ true ]

unfoldable pub select {ℓ} : {A : Type ℓ} → (A → Bool) → List A → List A
select p [] = []
select p (x ∷ xs) = let rest = select p xs in if p x then x ∷ rest else rest

unfoldable pub insert_job : TransferReplayJob → List TransferReplayJob → List TransferReplayJob
insert_job x [] = x ∷ []
insert_job x (y ∷ ys) =
    let rest = insert_job x ys in if leb x.started_at y.started_at then x ∷ y ∷ ys else y ∷ rest

unfoldable pub sort_jobs : List TransferReplayJob → List TransferReplayJob
unfolding insert_job
sort_jobs [] = []
sort_jobs (x ∷ xs) = insert_job x (sort_jobs xs)

-- `jobs.delete(id)`, `jobs.set(id, job)` and a change of the row of an id.
unfoldable pub delete_job : Text → List TransferReplayJob → List TransferReplayJob
delete_job id [] = []
delete_job id (x ∷ xs) =
    let rest = delete_job id xs in if equal_bytes x.id id then rest else x ∷ rest

unfoldable pub set_job : TransferReplayJob → List TransferReplayJob → List TransferReplayJob
set_job job [] = job ∷ []
set_job job (x ∷ xs) =
    let rest = set_job job xs in if equal_bytes x.id job.id then job ∷ xs else x ∷ rest

unfoldable pub change_job :
    Text → (TransferReplayJob → TransferReplayJob) → List TransferReplayJob → List TransferReplayJob
change_job id change [] = []
change_job id change (x ∷ xs) =
    let rest = change_job id change xs in if equal_bytes x.id id then change x ∷ xs else x ∷ rest

module _ (options : Options) where
  abbrev pub is_expired : ℕ → TransferReplayJob → Bool
  is_expired now job = elim (job.completed_at) [
    | none ↦ false
    | some t ↦ ltb (t + options.terminal_job_ttl_ms) now
  ]

  unfoldable pub delete_expired :
      ℕ → List TransferReplayJob → List TransferReplayJob → List TransferReplayJob
  unfolding delete_job
  delete_expired now [] jobs = jobs
  delete_expired now (job ∷ terminal) jobs =
      delete_expired now terminal (if is_expired now job then delete_job job.id jobs else jobs)

  -- The retained jobs, the oldest first, while they are more than the options allow.
  unfoldable pub delete_oldest :
      List TransferReplayJob → List TransferReplayJob → List TransferReplayJob
  unfolding delete_job
  delete_oldest [] jobs = jobs
  delete_oldest (job ∷ retained) jobs =
      let rest = delete_oldest retained (delete_job job.id jobs) in
      if ltb options.max_retained_jobs (length (job ∷ retained)) then rest else jobs

  unfoldable pub prune_terminal_jobs : ℕ → List TransferReplayJob → List TransferReplayJob
  unfolding select sort_jobs delete_expired delete_oldest
  prune_terminal_jobs now jobs =
      let kept =
        delete_expired now (sort_jobs (select (λ j. not (is_running j) && has_completed j) jobs))
          jobs in
      delete_oldest (sort_jobs (select (λ j. not (is_running j)) kept)) kept

  unfoldable pub new_job : Text → ℕ → TransferReplayRequest → TransferReplayJob
  unfolding build_transfer_replay_progress
  new_job id now request = record {
    completed_at = none;
    error = none;
    id = id;
    progress =
        build_transfer_replay_progress request
          (record { decoded = 0; inserted = 0; reconciled_addresses = 0; skipped = 0 }) none;
    request = request;
    started_at = now;
    state = running;
  }

  -- The new job or the error, and the table.
  unfoldable pub start_job :
      Fields JsValue
      → Text
      → ℕ
      → List TransferReplayJob
      → Result StartError TransferReplayJob × List TransferReplayJob
  unfolding prune_terminal_jobs build_transfer_replay_request new_job set_job
  start_job input id now jobs =
      let kept = prune_terminal_jobs now jobs in
      elim (find? is_running kept) [
        | some job ↦ (err (job_conflict job.id), kept)
        | none ↦
            elim (build_transfer_replay_request options.numbers input options.default_batch_size
              options.default_reconcile_chunk_size (some options.max_block_range)) [
                | err e ↦ (err (request_refused e), kept)
                | ok request ↦ (ok (new_job id now request), set_job (new_job id now request) kept)
              ]
      ]

  unfoldable pub get_job :
      Text → ℕ → List TransferReplayJob → Option TransferReplayJob × List TransferReplayJob
  unfolding prune_terminal_jobs
  get_job id now jobs =
      let kept = prune_terminal_jobs now jobs in (find? (λ j. equal_bytes j.id id) kept, kept)

  -- `onProgress`, `then` and `catch`.
  unfoldable pub progress_job :
      Text → TransferReplayProgress → List TransferReplayJob → List TransferReplayJob
  unfolding change_job
  progress_job id progress jobs = change_job id (λ j. record j { progress = progress }) jobs

  unfoldable pub succeed_job :
      Text → TransferReplayProgress → ℕ → List TransferReplayJob → List TransferReplayJob
  unfolding change_job prune_terminal_jobs
  succeed_job id result now jobs = prune_terminal_jobs now (
      change_job id
        (λ j. record j { completed_at = some now; progress = result; state = succeeded }) jobs)

  unfoldable pub fail_job : Text → Text → ℕ → List TransferReplayJob → List TransferReplayJob
  unfolding change_job prune_terminal_jobs
  fail_job id message now jobs = prune_terminal_jobs now (
      change_job id
        (λ j. record j { completed_at = some now; error = some message; state = failed }) jobs)
