-- ===== src/Indexer/ReplayJobs/Reachable.antt =====
-- The tables that the operations reach from the empty one.
use relay_settlement.Common.{
  ℕ, ◌+◌, ◌≡◌, ◌≤◌, inl, inr, refl, ap, ◌∙◌, List, [], ◌∷◌, Bool, true, false, not, ◌&&◌, Option,
  none, some, Result-cases, Option-cases, All, find?, equal_bytes, Bool-cases, subst, if◌then◌else◌,
  length, ltb, arith,
}
use relay_settlement.Host.{Text}
use relay_settlement.Indexer.TransferReplay.Request.{
  JsValue, Fields, TransferReplayRequest, TransferReplayProgress, build_transfer_replay_request,
}
use relay_settlement.Indexer.ReplayJobs.{
  TransferReplayJobState, failed, running, succeeded, TransferReplayJob, Options, is_running,
  has_completed, is_expired, select, sort_jobs, delete_job, set_job, change_job, delete_expired,
  delete_oldest, prune_terminal_jobs, new_job, start_job, get_job, progress_job, succeed_job,
  fail_job,
}

abbrev pub count_running : List TransferReplayJob → ℕ
count_running [] = 0
count_running (j ∷ js) = (if is_running j then 1 else 0) + count_running js

-- A job has completed exactly where it does not run, and has an error exactly where it failed.
abbrev pub Fits : TransferReplayJobState → Option ℕ → Option Text → Type 0
Fits running done fault = (done ≡ none) × (fault ≡ none)
Fits succeeded done fault = ((t : ℕ) × (done ≡ some t)) × (fault ≡ none)
Fits failed done fault = ((t : ℕ) × (done ≡ some t)) × ((e : Text) × (fault ≡ some e))

abbrev pub Consistent : TransferReplayJob → Type 0
Consistent j = Fits j.state j.completed_at j.error

pub record Sound (jobs : List TransferReplayJob) : Type 0 where
  pub one : count_running jobs ≤ 1
  pub consistent : All Consistent jobs

same_job : {a b : TransferReplayJob} → ◌≡◌ {A = Option TransferReplayJob} (some a) (some b) → a ≡ b
same_job h = cc

-- A promise calls back for a job whose row runs.
abbrev pub Runs : Text → List TransferReplayJob → Type 0
Runs id jobs =
    (j : TransferReplayJob) × (find? (λ k. equal_bytes k.id id) jobs ≡ some j) × (j.state ≡ running)

pub data Reachable (options : Options) : List TransferReplayJob → Type 0 where
  initial : Reachable options []
  job_started :
      (jobs : List TransferReplayJob) (input : Fields JsValue) (id : Text) (now : ℕ)
      → Reachable options jobs
      → Reachable options (start_job options input id now jobs).1
  read :
      (jobs : List TransferReplayJob) (id : Text) (now : ℕ)
      → Reachable options jobs
      → Reachable options (get_job options id now jobs).1
  progressed :
      (jobs : List TransferReplayJob) (id : Text) (progress : TransferReplayProgress)
      → Runs id jobs
      → Reachable options jobs
      → Reachable options (progress_job options id progress jobs)
  completed :
      (jobs : List TransferReplayJob) (id : Text) (result : TransferReplayProgress) (now : ℕ)
      → Runs id jobs
      → Reachable options jobs
      → Reachable options (succeed_job options id result now jobs)
  broken :
      (jobs : List TransferReplayJob) (id message : Text) (now : ℕ)
      → Runs id jobs
      → Reachable options jobs
      → Reachable options (fail_job options id message now jobs)

count-delete_job :
    (id : Text) (js : List TransferReplayJob) → count_running (delete_job id js) ≤ count_running js
unfolding delete_job
count-delete_job id [] = omega arith
count-delete_job id (j ∷ js) = ground (arith, count-delete_job id js)

delete_job-Consistent :
    (id : Text) (js : List TransferReplayJob)
    → All Consistent js
    → All Consistent (delete_job id js)
unfolding delete_job
delete_job-Consistent id [] h = tt
delete_job-Consistent id (j ∷ js) h = elim (Bool-cases (equal_bytes j.id id)) [
  | inl e ↦ rw e (delete_job-Consistent id js h.1)
  | inr e ↦ rw e (h.0, delete_job-Consistent id js h.1)
]

delete_job-Sound :
    (id : Text) (jobs : List TransferReplayJob) → Sound jobs → Sound (delete_job id jobs)
delete_job-Sound id jobs h = record {
  one = omega (arith, count-delete_job id jobs, h.one);
  consistent = delete_job-Consistent id jobs h.consistent;
}

-- No job runs where none is found.
none_runs : (js : List TransferReplayJob) → find? is_running js ≡ none → count_running js ≡ 0
none_runs [] h = refl
none_runs (j ∷ js) h = ground (arith, none_runs js)

count-set_job :
    (job : TransferReplayJob) (js : List TransferReplayJob)
    → count_running (set_job job js) ≤ count_running js + 1
unfolding set_job
count-set_job job [] = ground arith
count-set_job job (j ∷ js) = ground (arith, count-set_job job js)

set_job-Consistent :
    (job : TransferReplayJob) (js : List TransferReplayJob)
    → Consistent job
    → All Consistent js
    → All Consistent (set_job job js)
unfolding set_job
set_job-Consistent job [] h k = (h, tt)
set_job-Consistent job (j ∷ js) h k = elim (Bool-cases (equal_bytes j.id job.id)) [
  | inl e ↦ rw e (h, k.1)
  | inr e ↦ rw e (k.0, set_job-Consistent job js h k.1)
]

row_state :
    (id : Text) (j : TransferReplayJob) (js : List TransferReplayJob)
    → Runs id (j ∷ js)
    → equal_bytes j.id id ≡ true
    → j.state ≡ running
row_state id j js (k, found, runs) e = ap (λ x. x.state) (same_job (rw (e, find?) at found)) ∙ runs

later_row :
    (id : Text) (j : TransferReplayJob) (js : List TransferReplayJob)
    → Runs id (j ∷ js)
    → equal_bytes j.id id ≡ false
    → Runs id js
later_row id j js (k, found, runs) e = (k, rw (e, find?) at found, runs)

at_most_one : (b : Bool) → (if b then 1 else 0) ≤ 1
at_most_one b = ground arith

runs_true : (j : TransferReplayJob) → j.state ≡ running → is_running j ≡ true
runs_true j h = rw h refl

-- A change of a row that runs, which leaves it consistent and does not start it anew.
module _ (id : Text) (change : TransferReplayJob → TransferReplayJob)
    (fits : (j : TransferReplayJob)
      → j.state ≡ running
      → Consistent j
      → Consistent (change j)) where
  count-change_job :
      (js : List TransferReplayJob)
      → Runs id js
      → count_running (change_job id change js) ≤ count_running js
  unfolding change_job
  count-change_job [] r = omega arith
  count-change_job (j ∷ js) r = elim (Bool-cases (equal_bytes j.id id)) [
    | inl e ↦
        rw (e, runs_true j (row_state id j js r e))
          (omega (arith, at_most_one (is_running (change j))))
    | inr e ↦ rw e (omega (arith, count-change_job js (later_row id j js r e)))
  ]

  change_job-Consistent :
      (js : List TransferReplayJob)
      → Runs id js
      → All Consistent js
      → All Consistent (change_job id change js)
  unfolding change_job
  change_job-Consistent [] r h = tt
  change_job-Consistent (j ∷ js) r h = elim (Bool-cases (equal_bytes j.id id)) [
    | inl e ↦ rw e (fits j (row_state id j js r e) h.0, h.1)
    | inr e ↦ rw e (h.0, change_job-Consistent js (later_row id j js r e) h.1)
  ]

  change_job-Sound :
      (js : List TransferReplayJob) → Runs id js → Sound js → Sound (change_job id change js)
  change_job-Sound js r h = record {
    one = omega (arith, count-change_job js r, h.one);
    consistent = change_job-Consistent js r h.consistent;
  }

either_Sound :
    (b : Bool) (xs ys : List TransferReplayJob) → Sound xs → Sound ys → Sound (if b then ys else xs)
either_Sound true xs ys h k = k
either_Sound false xs ys h k = h

running_Fits :
    (j : TransferReplayJob) → j.state ≡ running → Consistent j → Fits running j.completed_at j.error
running_Fits j h c = subst (λ s. Fits s j.completed_at j.error) h c

module _ (options : Options) where
  new_fits :
      (id : Text) (now : ℕ) (request : TransferReplayRequest)
      → Consistent (new_job options id now request)
  unfolding new_job
  new_fits id now request = (refl, refl)

  expired-Sound :
      (now : ℕ) (terminal jobs : List TransferReplayJob)
      → Sound jobs
      → Sound (delete_expired options now terminal jobs)
  unfolding delete_expired
  expired-Sound now [] jobs h = h
  expired-Sound now (t ∷ terminal) jobs h = expired-Sound now terminal _ (
      either_Sound (is_expired options now t) jobs (delete_job t.id jobs) h
        (delete_job-Sound t.id jobs h))

  oldest-Sound :
      (retained jobs : List TransferReplayJob)
      → Sound jobs
      → Sound (delete_oldest options retained jobs)
  unfolding delete_oldest
  oldest-Sound [] jobs h = h
  oldest-Sound (t ∷ retained) jobs h =
      either_Sound (ltb options.max_retained_jobs (length (t ∷ retained))) jobs
        (delete_oldest options retained (delete_job t.id jobs)) h
        (oldest-Sound retained (delete_job t.id jobs) (delete_job-Sound t.id jobs h))

  prune-Sound :
      (now : ℕ) (jobs : List TransferReplayJob)
      → Sound jobs
      → Sound (prune_terminal_jobs options now jobs)
  unfolding prune_terminal_jobs
  prune-Sound now jobs h =
      let terminal = sort_jobs (select (λ j. not (is_running j) && has_completed j) jobs) in
      let kept = delete_expired options now terminal jobs in
      oldest-Sound (sort_jobs (select (λ j. not (is_running j)) kept)) kept
        (expired-Sound now terminal jobs h)

  start-Sound :
      (input : Fields JsValue) (id : Text) (now : ℕ) (jobs : List TransferReplayJob)
      → Sound jobs
      → Sound (start_job options input id now jobs).1
  unfolding start_job
  start-Sound input id now jobs h =
      let kept = prune_terminal_jobs options now jobs in
      let p = prune-Sound now jobs h in
      elim (Option-cases (find? is_running kept)) [
        | inr (j, e) ↦ rw (e, start_job) p
        | inl e ↦
            elim (Result-cases (
              build_transfer_replay_request options.numbers input options.default_batch_size
                options.default_reconcile_chunk_size (some options.max_block_range))) [
                  | inr (fault, f) ↦ rw (e, start_job, f) p
                  | inl (request, f) ↦
                      rw (e, start_job, f)
                        (record {
                          one = omega (
                            arith,
                            count-set_job (new_job options id now request) kept,
                            none_runs kept e,
                          );
                          consistent =
                              set_job-Consistent (new_job options id now request) kept
                                (new_fits id now request) p.consistent;
                        })
                ]
      ]

  -- In every table that is reached from the empty one by starting and reading jobs, and by the
  -- callbacks of jobs that run, at most one job runs; and each job has completed exactly where it
  -- does not run, and has an error exactly where it failed.
  pub Reachable-Sound : (jobs : List TransferReplayJob) → Reachable options jobs → Sound jobs
  unfolding get_job progress_job succeed_job fail_job
  Reachable-Sound _ initial = record { one = omega arith; consistent = tt }
  Reachable-Sound _ (job_started jobs input id now r) =
      start-Sound input id now jobs (Reachable-Sound jobs r)
  Reachable-Sound _ (read jobs id now r) = prune-Sound now jobs (Reachable-Sound jobs r)
  Reachable-Sound _ (progressed jobs id progress runs r) =
      change_job-Sound id (λ j. record j { progress = progress }) (λ j h c. c) jobs runs
        (Reachable-Sound jobs r)
  Reachable-Sound _ (completed jobs id result now runs r) = prune-Sound now _ (
      change_job-Sound id
        (λ j. record j { completed_at = some now; progress = result; state = succeeded })
        (λ j h c. ((now, refl), (running_Fits j h c).1)) jobs runs (Reachable-Sound jobs r))
  Reachable-Sound _ (broken jobs id message now runs r) = prune-Sound now _ (
      change_job-Sound id
        (λ j. record j { completed_at = some now; error = some message; state = failed })
        (λ j h c. ((now, refl), (message, refl))) jobs runs (Reachable-Sound jobs r))
