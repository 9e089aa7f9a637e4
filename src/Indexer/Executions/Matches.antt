-- ===== src/Indexer/Executions/Matches.antt =====
-- The execution that oracleExecutionProcessor.ts stores with a log.
use mathlib.Core.List.{Memᴰ}
use mathlib.Core.List.Memᴰ
use relay_settlement.Common.{
  ℕ, suc, ◌+◌, ◌≡◌, inl, inr, refl, ap, sym, ◌∙◌, subst, List, [], ◌∷◌, Bool, true, Option, none,
  some, ok, and_then-eq-ok, or_throw, or_throw-eq-ok, ok_same, guard-eq-ok, arith, map, length,
  find?, get_elem?, All, Bool-cases, Option-cases, Result-cases, equal_bytes, equal_bytes_iff, ◌↔◌,
}
use relay_settlement.Host.{Text}
use relay_settlement.Indexer.Executions.{
  Error, Struct, executed, execution_failed, other_log, ParsedTransaction, single, multiple,
  other_method, Call, DecodedOracleExecution, DecodedOracleTransaction, Log,
  NormalizedOracleExecution, Context, actions_equal, normalize_execution_struct, normalize_all,
  decode_parsed, decode_oracle_transaction, decode_each, non_empty, is_oracle, decode_multicall,
  decode_oracle_transaction_calls, get_decoded_oracle_transaction, pair_with, candidates, with_key,
  matching_execution, process_oracle_execution_log,
}

actions_equal_iff : (xs ys : List Text) → (actions_equal xs ys ≡ true) ↔ (xs ≡ ys)
unfolding actions_equal
actions_equal_iff [] [] = (λ h. refl, λ h. refl)
actions_equal_iff [] (y ∷ ys) = (λ h. cc, λ h. cc)
actions_equal_iff (x ∷ xs) [] = (λ h. cc, λ h. cc)
actions_equal_iff (x ∷ xs) (y ∷ ys) = ground (arith, equal_bytes_iff x y, actions_equal_iff xs ys)

some_same : {A : Type 0} {x y : A} → some x ≡ some y → x ≡ y
some_same h = cc

absent_ne : {A : Type 0} {x : A} → none ≡ some x → ⊥
absent_ne h = cc

zero_add : (i : ℕ) → 0 + i ≡ i
zero_add i = omega arith

-- The execution at each place of a transaction has that place as its index.
abbrev pub Indexed : DecodedOracleTransaction → Type 0
Indexed t =
    (e : DecodedOracleExecution)
    → Memᴰ e t.executions
    → get_elem? t.executions e.execution_index ≡ some e

module _ {A : Type 0} (p : A → Bool) where
  find?-some : (xs : List A) (a : A) → find? p xs ≡ some a → (p a ≡ true) × Memᴰ a xs
  find?-some [] a h = absurd (cc)
  find?-some (x ∷ xs) a h = elim (Bool-cases (p x)) [
    | inl e ↦ let same : x ≡ a = ground arith in (ap p (sym same) ∙ e, Memᴰ.head (sym same))
    | inr e ↦ let (q, m) = find?-some xs a (ground arith) in (q, Memᴰ.tail m)
  ]

module _ (context : Context) where
  normalize_all_index :
      (k : ℕ) (ss : List Struct) (gs : List Text) (e : DecodedOracleExecution)
      → Memᴰ e (normalize_all context k ss gs)
      → (i : ℕ) × (e.execution_index ≡ k + i)
        × (get_elem? (normalize_all context k ss gs) i ≡ some e)
  unfolding normalize_all normalize_execution_struct
  normalize_all_index k [] gs e m = absurd (Memᴰ.not-nil m)
  normalize_all_index k (s ∷ ss) [] e m = absurd (Memᴰ.not-nil m)
  normalize_all_index k (s ∷ ss) (g ∷ gs) e (Memᴰ.head h) =
      (0, ap (λ x. x.execution_index) h ∙ omega arith, ap some (sym h))
  normalize_all_index k (s ∷ ss) (g ∷ gs) e (Memᴰ.tail m) =
      let (i, at_i, found) = normalize_all_index (suc k) ss gs e m in
      (suc i, at_i ∙ omega arith, found)

  decode_parsed-Indexed :
      (p : ParsedTransaction) (t : DecodedOracleTransaction)
      → decode_parsed context p ≡ ok t
      → Indexed t
  unfolding decode_parsed normalize_execution_struct
  decode_parsed-Indexed (single s oracle g) t h = subst Indexed (ok_same h) (λ e m.
      let same = Memᴰ.eq_of_singleton m in
      ap
        (λ (x : DecodedOracleExecution).
          get_elem? (normalize_execution_struct context s 0 g ∷ []) x.execution_index)
        same
      ∙ ap some (sym same))
  decode_parsed-Indexed (multiple ss oracle gs) t h =
      let (long, last) = guard-eq-ok _ Error.batch_mismatch _ h in
      subst Indexed (ok_same last) (λ e m.
        let (i, at_i, found) = normalize_all_index 0 ss gs e m in
        ap (get_elem? (normalize_all context 0 ss gs)) (at_i ∙ zero_add i) ∙ found)
  decode_parsed-Indexed other_method t h = absurd (cc)

  decode-Indexed :
      (d : Text) (t : DecodedOracleTransaction)
      → decode_oracle_transaction context d ≡ ok t
      → Indexed t
  unfolding decode_oracle_transaction
  decode-Indexed d t h = let (p, e, rest) = and_then-eq-ok _ _ h in decode_parsed-Indexed p t rest

  decode_each-Indexed : (cs : List Call) → All Indexed (decode_each context cs)
  unfolding decode_each
  decode_each-Indexed [] = tt
  decode_each-Indexed (c ∷ cs) =
      elim (Result-cases (decode_oracle_transaction context c.call_data)) [
        | inl (t, e) ↦ rw (e, decode_each) (decode-Indexed c.call_data t e, decode_each-Indexed cs)
        | inr (x, e) ↦ rw (e, decode_each) (decode_each-Indexed cs)
      ]

  non_empty-eq-ok :
      {A : Type 0} (e : Error) (xs ys : List A) → non_empty context e xs ≡ ok ys → xs ≡ ys
  non_empty-eq-ok e [] ys h = absurd (cc)
  non_empty-eq-ok e (x ∷ xs) ys h = ok_same h

  calls-Indexed :
      (target : Option Text) (d : Text) (ts : List DecodedOracleTransaction)
      → decode_oracle_transaction_calls context target d ≡ ok ts
      → All Indexed ts
  unfolding decode_oracle_transaction_calls decode_multicall
  calls-Indexed target d ts h = elim (Bool-cases (is_oracle context target)) [
    | inl e ↦
        let (t, decoded, last) =
          and_then-eq-ok (decode_oracle_transaction context d) _
            (rw (e, decode_oracle_transaction_calls) at h) in
        subst (All Indexed) (ok_same last) (decode-Indexed d t decoded, tt)
    | inr e ↦
        let (calls, e1, h1) =
          and_then-eq-ok (or_throw Error.target_mismatch (context.parse_multicall d)) _
            (rw (e, decode_oracle_transaction_calls) at h) in
        let (found, e2, h2) = and_then-eq-ok _ _ h1 in
        subst (All Indexed) (non_empty-eq-ok Error.no_decoded_call _ ts h2)
          (decode_each-Indexed found)
  ]

  get_decoded-Indexed :
      (tx : Text) (ts : List DecodedOracleTransaction)
      → get_decoded_oracle_transaction context tx ≡ ok ts
      → All Indexed ts
  unfolding get_decoded_oracle_transaction
  get_decoded-Indexed tx ts h =
      let (t, e1, h1) = and_then-eq-ok _ _ h in
      elim (Bool-cases (equal_bytes t.data_text [])) [
        | inl e ↦ absurd (cc (rw e at h1))
        | inr e ↦ calls-Indexed t.to t.data_text ts (rw e at h1)
      ]

  All-mem : {A : Type 0} (P : A → Type 0) (xs : List A) (x : A) → All P xs → Memᴰ x xs → P x
  All-mem P [] x h m = absurd (Memᴰ.not-nil m)
  All-mem P (y ∷ xs) x h (Memᴰ.head e) = subst P (sym e) h.0
  All-mem P (y ∷ xs) x h (Memᴰ.tail m) = All-mem P xs x h.1 m

  mem-pair_with :
      (t : DecodedOracleTransaction) (es : List DecodedOracleExecution)
      (c : DecodedOracleExecution × DecodedOracleTransaction)
      → Memᴰ c (pair_with context t es)
      → Memᴰ c.0 es × (c.1 ≡ t)
  mem-pair_with t [] c m = absurd (Memᴰ.not-nil m)
  mem-pair_with t (e ∷ es) c (Memᴰ.head h) = (Memᴰ.head (ap (λ x. x.0) h), ap (λ x. x.1) h)
  mem-pair_with t (e ∷ es) c (Memᴰ.tail m) =
      let (k, same) = mem-pair_with t es c m in (Memᴰ.tail k, same)

  mem-candidates :
      (ts : List DecodedOracleTransaction) (c : DecodedOracleExecution × DecodedOracleTransaction)
      → Memᴰ c (candidates context ts)
      → Memᴰ c.0 c.1.executions × Memᴰ c.1 ts
  unfolding candidates
  mem-candidates [] c m = absurd (Memᴰ.not-nil m)
  mem-candidates (t ∷ ts) c m = elim (Memᴰ.append_cases (pair_with context t t.executions) m) [
    | inl k ↦
        let (inside, same) = mem-pair_with t t.executions c k in
        (subst (λ x. Memᴰ c.0 x.executions) (sym same) inside, Memᴰ.head same)
    | inr k ↦ let (inside, later) = mem-candidates ts c k in (inside, Memᴰ.tail later)
  ]

  mem-with_key :
      (key : Text) (cs : List (DecodedOracleExecution × DecodedOracleTransaction))
      (c : DecodedOracleExecution × DecodedOracleTransaction)
      → Memᴰ c (with_key context key cs)
      → (c.0.idempotency_key ≡ key) × Memᴰ c cs
  unfolding with_key
  mem-with_key key [] c m = absurd (Memᴰ.not-nil m)
  mem-with_key key (x ∷ cs) c m = elim (Bool-cases (equal_bytes x.0.idempotency_key key)) [
    | inl e ↦ elim (Memᴰ.cases_cons (rw (e, with_key) at m)) [
      | inl same ↦
          (ap (λ y. y.0.idempotency_key) same ∙ (equal_bytes_iff _ key).0 e, Memᴰ.head same)
      | inr k ↦ let (p, q) = mem-with_key key cs c k in (p, Memᴰ.tail q)
    ]
    | inr e ↦ let (p, q) = mem-with_key key cs c (rw (e, with_key) at m) in (p, Memᴰ.tail q)
  ]

-- The execution that a stored log names.
pub record Matched (context : Context) (log : Log) (n : NormalizedOracleExecution) : Type 0 where
  pub key : Text
  pub actions : List Text
  pub emitted : log.parsed ≡ some (executed key actions)
  pub transactions : List DecodedOracleTransaction
  pub read : get_decoded_oracle_transaction context log.transaction_hash ≡ ok transactions
  pub transaction : DecodedOracleTransaction
  pub read_transaction : Memᴰ transaction transactions
  pub execution : DecodedOracleExecution
  pub at_index : get_elem? transaction.executions n.execution_index ≡ some execution
  pub log_key : execution.idempotency_key ≡ context.to_lower_case key
  pub log_actions : execution.actions ≡ map context.to_lower_case actions
  pub stored_key : n.idempotency_key ≡ execution.idempotency_key
  pub stored_actions : n.actions ≡ execution.actions
  pub signature : n.aggregated_signature ≡ execution.aggregated_signature
  pub count : n.execution_count ≡ length transaction.executions

module _ (context : Context) where
  matching-eq-ok :
      (key : Text) (actions : List Text) (ts : List DecodedOracleTransaction)
      (c : DecodedOracleExecution × DecodedOracleTransaction)
      → matching_execution context key actions ts ≡ ok c
      → (c.0.idempotency_key ≡ key)
        × (c.0.actions ≡ actions)
        × Memᴰ c.0 c.1.executions
        × Memᴰ c.1 ts
  unfolding matching_execution
  matching-eq-ok key actions ts c h =
      let (found, e1, h1) = and_then-eq-ok _ _ h in
      let (same, m) =
        find?-some (λ x. actions_equal x.0.actions actions) found c
          (or_throw-eq-ok Error.actions_mismatch _ c h1) in
      let all = non_empty-eq-ok context Error.execution_missing _ found e1 in
      let (k, inside) =
        mem-with_key context key (candidates context ts) c (subst (Memᴰ c) (sym all) m) in
      let (of_transaction, read) = mem-candidates context ts c inside in
      (k, (actions_equal_iff c.0.actions actions).0 same, of_transaction, read)

  executed-Matched :
      (log : Log) (ts : ℕ) (n : NormalizedOracleExecution) (key : Text) (actions : List Text)
      → log.parsed ≡ some (executed key actions)
      → process_oracle_execution_log context log ts ≡ ok (some n)
      → Matched context log n
  unfolding process_oracle_execution_log
  executed-Matched log ts n key actions p h =
      let (transactions, e1, h1) =
        and_then-eq-ok (get_decoded_oracle_transaction context log.transaction_hash) _
          (rw (p, process_oracle_execution_log) at h) in
      let (c, e2, h2) = and_then-eq-ok _ _ h1 in
      let (k, a, inside, read) = matching-eq-ok _ _ transactions c e2 in
      let whole = some_same (ok_same h2) in
      let indexed =
        All-mem context Indexed transactions c.1
          (get_decoded-Indexed context log.transaction_hash transactions e1) read in
      record {
        key = key;
        actions = actions;
        emitted = p;
        transactions = transactions;
        read = e1;
        transaction = c.1;
        read_transaction = read;
        execution = c.0;
        at_index =
            ap (λ x. get_elem? c.1.executions x.execution_index) (sym whole) ∙ indexed c.0 inside;
        log_key = k;
        log_actions = a;
        stored_key = ap (λ x. x.idempotency_key) (sym whole) ∙ sym k;
        stored_actions = ap (λ x. x.actions) (sym whole) ∙ sym a;
        signature = ap (λ x. x.aggregated_signature) (sym whole);
        count = ap (λ x. x.execution_count) (sym whole);
      }

  -- Where a log gives an execution to store, the log is one of an execution that succeeded, and its
  -- transaction has, at the stored index of a call that was decoded, an execution with the log's key
  -- and the log's actions; its signature is stored, and the count is that of its call.
  pub process_oracle_execution_log-Matched :
      (log : Log) (ts : ℕ) (n : NormalizedOracleExecution)
      → process_oracle_execution_log context log ts ≡ ok (some n)
      → Matched context log n
  unfolding process_oracle_execution_log
  process_oracle_execution_log-Matched log ts n h = elim (Option-cases log.parsed) [
    | inl e ↦ absurd (cc (rw (e, process_oracle_execution_log) at h))
    | inr (executed key actions, e) ↦ executed-Matched log ts n key actions e h
    | inr (execution_failed key actions, e) ↦
        absurd (absent_ne (ok_same (rw (e, process_oracle_execution_log) at h)))
    | inr (other_log, e) ↦ absurd (cc (rw (e, process_oracle_execution_log) at h))
  ]
