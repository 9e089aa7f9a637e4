-- ===== src/Indexer/ReplayJobs/Tests.antt =====
-- A job that is started and succeeds.
use relay_settlement.Common.{refl, [], ◌∷◌, some, equal_bytes, and_then}
use relay_settlement.Common.Int.{pos}
use relay_settlement.Indexer.TransferReplay.Request.{
  JsValue, JsNumber, integer, Fields, TransferReplayProgress, validate_transfer_replay_request,
  parse_integer, read_required_integer, read_optional_integer, build_transfer_replay_request,
}
use relay_settlement.Indexer.ReplayJobs.{
  Options, select, sort_jobs, set_job, delete_expired, delete_oldest, prune_terminal_jobs, new_job,
  start_job, succeed_job,
}
use relay_settlement.Indexer.ReplayJobs.Reachable.{Sound, Runs, Reachable, Reachable-Sound}

abbrev options : Options
options = record {
  default_batch_size = integer (pos 100);
  default_reconcile_chunk_size = integer (pos 10);
  max_block_range = 1000;
  max_retained_jobs = 2;
  terminal_job_ttl_ms = 60;
  numbers = record { number_of = λ t. JsNumber.fractional; trim = λ t. t };
}

abbrev input : Fields JsValue
input = record {
  batch_size = JsValue.missing;
  from_block = JsValue.number (integer (pos 5));
  reconcile_chunk_size = JsValue.missing;
  to_block = JsValue.number (integer (pos 9));
}

abbrev done : TransferReplayProgress
done = record {
  counters = record { decoded = 1; inserted = 1; reconciled_addresses = 2; skipped = 0 };
  last_batch = some (record { first = 5; last = 9 });
  processed_blocks = 5;
  remaining_blocks = 0;
  total_blocks = 5;
}

runs : Runs (b'j' ∷ []) (start_job options input (b'j' ∷ []) 7 []).1
unfolding start_job prune_terminal_jobs select sort_jobs delete_expired delete_oldest
    build_transfer_replay_request read_required_integer read_optional_integer parse_integer
    validate_transfer_replay_request and_then new_job set_job equal_bytes
runs = (
  new_job options (b'j' ∷ []) 7
      (record { batch_size = 100; from_block = 5; reconcile_chunk_size = 10; to_block = 9 }),
  refl,
  refl,
)

Reachable-Sound_example :
    Sound (succeed_job options (b'j' ∷ []) done 8 (start_job options input (b'j' ∷ []) 7 []).1)
Reachable-Sound_example =
    Reachable-Sound options
      (succeed_job options (b'j' ∷ []) done 8 (start_job options input (b'j' ∷ []) 7 []).1)
      (Reachable.completed (start_job options input (b'j' ∷ []) 7 []).1 (b'j' ∷ []) done 8 runs
        (Reachable.job_started [] input (b'j' ∷ []) 7 Reachable.initial))
