-- ===== src/Indexer/TransferReplay/Collect/Counted.antt =====
-- The logs of a batch against what is collected of them.
use relay_settlement.Common.{
  ℕ, suc, ◌+◌, ◌≡◌, ◌≤◌, append-nil, ◌⊎◌, inl, inr, refl, sym, ap, ◌∙◌, List, [], ◌∷◌, ◌++◌,
  append_assoc, Bool, true, false, Option, none, some, ok, and_then, and_then-ok-eq, length,
  length-append, All, Bool-cases, Option-cases, if◌then◌else◌, arith,
}
use relay_settlement.Host.{Text}
use relay_settlement.Indexer.Ranges.{IndexedLog}
use relay_settlement.Indexer.Transfers.{TransferLog}
use relay_settlement.Indexer.TransferReplay.Collect.{
  ParsedTransferLog, placed, Env, not_after, insert_log, sort_logs, cached, get_block_timestamp,
  should_skip_token_id, Collected, with_transfer, collect_transfer, collect_log, collect_logs,
}

-- The sort keeps the logs.
length-insert_log :
    (x : IndexedLog) (ys : List IndexedLog) → length (insert_log x ys) ≡ suc (length ys)
unfolding insert_log
length-insert_log x [] = refl
length-insert_log x (y ∷ ys) = ground (arith, length-insert_log x ys)

pub length-sort_logs : (xs : List IndexedLog) → length (sort_logs xs) ≡ length xs
unfolding sort_logs
length-sort_logs [] = refl
length-sort_logs (x ∷ xs) =
    length-insert_log x (sort_logs xs) ∙ ap (λ n. suc n) (length-sort_logs xs)

module _ (P : IndexedLog → Type 0) where
  All-either :
      (b : Bool) (xs ys : List IndexedLog) → All P (if b then xs else ys) → All P xs ⊎ All P ys
  All-either true xs ys h = inl h
  All-either false xs ys h = inr h

  All-insert_log :
      (x : IndexedLog) (ys : List IndexedLog) → All P (insert_log x ys) → P x × All P ys
  unfolding insert_log
  All-insert_log x [] h = (h.0, tt)
  All-insert_log x (y ∷ ys) h =
      elim (All-either (not_after x y) (x ∷ y ∷ ys) (y ∷ insert_log x ys) h) [
        | inl k ↦ k
        | inr k ↦ let (px, rest) = All-insert_log x ys k.1 in (px, (k.0, rest))
      ]

  pub All-sort_logs : (xs : List IndexedLog) → All P (sort_logs xs) → All P xs
  unfolding sort_logs
  All-sort_logs [] h = tt
  All-sort_logs (x ∷ xs) h =
      let (px, rest) = All-insert_log x (sort_logs xs) h in (px, All-sort_logs xs rest)

-- A transfer with this place is among the transfers.
abbrev pub Listed : Text → ℕ → List (TransferLog × ℕ) → Type 0
Listed tx i [] = 1 ≤ 0
Listed tx i ((t, timestamp) ∷ ts) = ((t.transaction_hash ≡ tx) × (t.index ≡ i)) ⊎ Listed tx i ts

Listed-left :
    (tx : Text) (i : ℕ) (xs ys : List (TransferLog × ℕ)) → Listed tx i xs → Listed tx i (xs ++ ys)
Listed-left tx i [] ys h = absurd (omega arith)
Listed-left tx i ((t, timestamp) ∷ xs) ys (inl h) = inl h
Listed-left tx i ((t, timestamp) ∷ xs) ys (inr h) = inr (Listed-left tx i xs ys h)

Listed-right :
    (tx : Text) (i : ℕ) (xs ys : List (TransferLog × ℕ)) → Listed tx i ys → Listed tx i (xs ++ ys)
Listed-right tx i [] ys h = h
Listed-right tx i ((t, timestamp) ∷ xs) ys h = inr (Listed-right tx i xs ys h)

-- A log that is a transfer of a token that is not skipped.
pub record IsTransfer (env : Env) (log : IndexedLog) : Type 0 where
  pub transfer : ParsedTransferLog
  pub parsed : env.parse_transfer_log log ≡ some transfer
  pub wanted : should_skip_token_id env transfer.token_id ≡ false

-- The logs that are passed over and those that are collected, together.
abbrev pub seen : Collected → ℕ
seen c = c.skipped + length c.transfers

not_none : {A : Type 0} {a : A} {o : Option A} → o ≡ some a → o ≡ none → 1 ≤ 0
not_none h k = cc

not_both : {b : Bool} → b ≡ false → b ≡ true → 1 ≤ 0
not_both h k = cc

same_parse : {A : Type 0} {a b : A} {o : Option A} → o ≡ some a → o ≡ some b → a ≡ b
same_parse h k = cc

module _ (env : Env) (found : (block : ℕ) → (t : ℕ) × (env.get_block block ≡ some t)) where
  timestamp_found :
      (cache : List (ℕ × ℕ)) (block : ℕ)
      → (t : ℕ × List (ℕ × ℕ)) × (get_block_timestamp env cache block ≡ ok t)
  unfolding get_block_timestamp
  timestamp_found cache block = elim (Option-cases (cached block cache)) [
    | inl e ↦
        let (t, h) = found block in
        ((t, cache ++ ((block, t) ∷ [])), rw (e, get_block_timestamp, h) refl)
    | inr (t, e) ↦ ((t, cache), rw (e, get_block_timestamp) refl)
  ]

  -- One log: what is collected grows by at most one transfer, which is that of the log.
  record Grows (log : IndexedLog) (c : Collected) : Type 0 where
    next : Collected
    added : List (TransferLog × ℕ)
    run : collect_log env log c ≡ ok next
    grown : next.transfers ≡ c.transfers ++ added
    counted : seen next ≡ seen c + 1
    listed : IsTransfer env log → Listed log.transaction_hash log.index added

  collect_log-Grows : (log : IndexedLog) (c : Collected) → Grows log c
  unfolding collect_log collect_transfer with_transfer and_then
  collect_log-Grows log c = elim (Option-cases (env.parse_transfer_log log)) [
    | inl e ↦ record {
      next = record c { skipped = c.skipped + 1 };
      added = [];
      run = rw (e, collect_log) refl;
      grown = sym (append-nil c.transfers);
      counted = omega arith;
      listed = λ h. absurd (omega (arith, not_none h.parsed e));
    }
    | inr (t, e) ↦ elim (Bool-cases (should_skip_token_id env t.token_id)) [
      | inl s ↦ record {
        next = record c { skipped = c.skipped + 1 };
        added = [];
        run = rw (e, collect_log, s) refl;
        grown = sym (append-nil c.transfers);
        counted = omega arith;
        listed = λ h. absurd (
            omega (
              arith,
              not_both h.wanted
                  (ap (λ u. should_skip_token_id env u.token_id) (same_parse h.parsed e) ∙ s),
            ));
      }
      | inr s ↦
          let ((timestamp, cache), h) = timestamp_found c.cache log.block_number in
          record {
            next = with_transfer env log t timestamp cache c;
            added = (placed log t, timestamp) ∷ [];
            run = rw (e, collect_log, s, h, and_then) refl;
            grown = refl;
            counted = omega (arith, length-append c.transfers ((placed log t, timestamp) ∷ []));
            listed = λ k. inl (refl, refl);
          }
    ]
  ]

  -- All logs of a batch.
  pub record GrowsAll (logs : List IndexedLog) (c : Collected) : Type 0 where
    pub next : Collected
    pub added : List (TransferLog × ℕ)
    pub run : collect_logs env logs c ≡ ok next
    pub grown : next.transfers ≡ c.transfers ++ added
    pub counted : seen next ≡ seen c + length logs
    pub listed : All (λ log. IsTransfer env log → Listed log.transaction_hash log.index added) logs

  later :
      (logs : List IndexedLog) (xs ys : List (TransferLog × ℕ))
      → All (λ log. IsTransfer env log → Listed log.transaction_hash log.index ys) logs
      → All (λ log. IsTransfer env log → Listed log.transaction_hash log.index (xs ++ ys)) logs
  later [] xs ys h = tt
  later (log ∷ logs) xs ys h =
      (λ t. Listed-right log.transaction_hash log.index xs ys (h.0 t), later logs xs ys h.1)

  pub collect_logs-GrowsAll : (logs : List IndexedLog) (c : Collected) → GrowsAll logs c
  unfolding collect_logs
  collect_logs-GrowsAll [] c = record {
    next = c;
    added = [];
    run = refl;
    grown = sym (append-nil c.transfers);
    counted = omega arith;
    listed = tt;
  }
  collect_logs-GrowsAll (log ∷ logs) c =
      let one = collect_log-Grows log c in
      let all = collect_logs-GrowsAll logs one.next in
      record {
        next = all.next;
        added = one.added ++ all.added;
        run = and_then-ok-eq _ _ one.next one.run all.run;
        grown =
            all.grown
            ∙ ap (λ ts. ts ++ all.added) one.grown
            ∙ append_assoc c.transfers one.added all.added;
        counted = omega (arith, all.counted, one.counted);
        listed = (
          λ t. Listed-left log.transaction_hash log.index one.added all.added (one.listed t),
          later logs one.added all.added all.listed,
        );
      }
