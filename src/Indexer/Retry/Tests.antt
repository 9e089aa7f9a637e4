-- ===== src/Indexer/Retry/Tests.antt =====
-- A function that fails once, and the theorem at it.
use relay_settlement.Common.{ℕ, zero, suc, none, some, Result, ok, err}
use relay_settlement.Indexer.Retry.{Thrown, thrown_object, serialization_failure, run_with_retry}
use relay_settlement.Indexer.Retry.Attempts.{Ends, run_with_retry-Ends}

abbrev fails_once : ℕ → Result Thrown ℕ
fails_once zero = err (thrown_object (some serialization_failure) none)
fails_once (suc n) = ok n

run_with_retry-Ends_example : Ends (λ t. t) fails_once 0 (run_with_retry (λ t. t) fails_once)
run_with_retry-Ends_example = run_with_retry-Ends (λ t. t) fails_once
