-- ===== src/Indexer/Retry/Attempts.antt =====
-- The attempts of `runWithRetry`.
use relay_settlement.Common.{
  ℕ, zero, suc, ◌+◌, ◌*◌, ◌^◌, ◌≡◌, ◌≤◌, ◌<◌, inl, inr, refl, ap, ◌∙◌, List, [], ◌∷◌, true, false,
  Option, some, Result, ok, err, leb, arith, Bool-cases, Result-cases,
}
use relay_settlement.Indexer.Retry.{
  Thrown, retry_max, is_retryable_pg_error, run_from, run_with_retry,
}
use relay_settlement.Host.{Text}

module _ (low : Text → Text) {A : Type 0} (fn : ℕ → Result Thrown A) where
  -- The attempt failed with an error after which it is tried again.
  abbrev pub Failed : ℕ → Type 0
  Failed i = (e : Thrown) × (fn i ≡ err e) × (is_retryable_pg_error low e ≡ true)

  -- The attempt succeeded, or failed for good.
  pub data Final (i : ℕ) : Type 0 where
    succeeded : (a : A) → fn i ≡ ok a → Final i
    failed : (e : Thrown) → fn i ≡ err e → is_retryable_pg_error low e ≡ false → Final i
    exhausted : (e : Thrown) → fn i ≡ err e → retry_max ≤ i → Final i

  -- From attempt `i` on, `count` attempts failed, each with its delay after it, and the next is final.
  abbrev pub Retries : ℕ → ℕ → List ℕ → Type 0
  Retries i zero delays = (delays ≡ []) × Final i
  Retries i (suc count) [] = ⊥
  Retries i (suc count) (d ∷ delays) = (d ≡ 200 * 2 ^ i) × Failed i × Retries (suc i) count delays

  pub record Ends (i : ℕ) (r : Option (Result Thrown A × List ℕ)) : Type 0 where
    pub count : ℕ
    pub delays : List ℕ
    pub bounded : i + count ≤ retry_max
    pub ended : r ≡ some (fn (i + count), delays)
    pub retries : Retries i count delays

  stop :
      (i : ℕ) (r : Option (Result Thrown A × List ℕ))
      → i ≤ retry_max
      → r ≡ some (fn i, [])
      → Final i
      → Ends i r
  stop i r le h f = record {
    count = 0;
    delays = [];
    bounded = omega arith;
    ended = h ∙ ap (λ k. some (fn k, [])) (omega arith);
    retries = (refl, f);
  }

  run_from-Ends :
      (fuel i : ℕ) → i ≤ retry_max → retry_max < i + fuel → Ends i (run_from low fuel fn i)
  unfolding run_from
  run_from-Ends zero i le enough = absurd (omega arith)
  run_from-Ends (suc fuel) i le enough = elim (Result-cases (fn i)) [
    | inl (a, p) ↦ stop i _ le (rw (p, run_from) refl) (succeeded a p)
    | inr (e, p) ↦ elim (Bool-cases (is_retryable_pg_error low e)) [
      | inr no_retry ↦
          stop i _ le (rw (p, run_from) (rw (no_retry, run_from) refl)) (failed e p no_retry)
      | inl retry ↦ elim (Bool-cases (leb retry_max i)) [
        | inl over ↦
            stop i _ le (rw (p, run_from) (rw (retry, over) refl)) (exhausted e p (ground arith))
        | inr under ↦
            let later = run_from-Ends fuel (suc i) (ground arith) (omega arith) in
            record {
              count = suc later.count;
              delays = (200 * 2 ^ i) ∷ later.delays;
              bounded = omega (arith, later.bounded);
              ended =
                  rw (p, run_from)
                    (rw (retry, under)
                      (rw (later.ended)
                        (ap (λ k. some (fn k, (200 * 2 ^ i) ∷ later.delays)) (omega arith))));
              retries = (refl, (e, p, retry), later.retries);
            }
      ]
    ]
  ]

  -- The loop always ends, after at most five retries: it gives the result of the first attempt that
  -- succeeds, that fails with an error that is not to be retried, or that is the sixth; every attempt
  -- before it failed with an error that is to be retried, and was followed by a delay of 200
  -- milliseconds, doubled each time.
  pub run_with_retry-Ends : Ends 0 (run_with_retry low fn)
  unfolding run_with_retry
  run_with_retry-Ends = run_from-Ends 6 0 (omega arith) (omega arith)
