-- ===== src/Indexer/Ranges/Complete.antt =====
-- `getTransferLogsWithSplit` over a provider that serves all logs in parts.
use relay_settlement.Common.{
  ℕ, zero, suc, ◌+◌, ◌-◌, ◌/◌, ◌≡◌, ◌≤◌, ◌<◌, ◌⊎◌, inl, inr, refl, sym, ap, ◌∙◌, List, [], ◌++◌,
  append_assoc, append-nil, subst, true, false, Option, none, some, ok, err, and_then, leb, arith,
}
use relay_settlement.Common.Doubles.{rounded-exact}
use relay_settlement.Host.{Text}
use relay_settlement.Indexer.Ranges.{
  IndexedLog, ReadError, is_get_logs_response_too_large_error, Page, Provider, next_cursor,
  fetch_logs_with_cursor, get_transfer_logs_with_split,
}

-- The sum of two blocks up to this one, 2 to the power 52, is exact.
abbrev pub exact_blocks : ℕ
exact_blocks = 4503599627370496

-- The logs of `n` blocks from one on, where `blocks` are the logs of each.
abbrev pub logs_from : (ℕ → List IndexedLog) → ℕ → ℕ → List IndexedLog
logs_from blocks a zero = []
logs_from blocks a (suc n) = blocks a ++ logs_from blocks (suc a) n

abbrev pub logs_between : (ℕ → List IndexedLog) → ℕ → ℕ → List IndexedLog
logs_between blocks a b = logs_from blocks a (suc b - a)

-- The pages of a block behind a cursor: as many as `depth` at most, which together are the logs.
pub data Pages (provider : Provider) (a : ℕ) : ℕ → Option Text → List IndexedLog → Type 0 where
  last_page :
      (depth : ℕ) (cursor : Option Text) (page : Page)
      → provider.get_logs_with_cursor a a cursor ≡ ok page
      → next_cursor page.cursor ≡ none
      → Pages provider a (suc depth) cursor page.logs
  more_pages :
      (depth : ℕ) (cursor : Option Text) (page : Page) (next : Text) (rest : List IndexedLog)
      → provider.get_logs_with_cursor a a cursor ≡ ok page
      → next_cursor page.cursor ≡ some next
      → Pages provider a depth (some next) rest
      → Pages provider a (suc depth) cursor (page.logs ++ rest)

-- A provider that gives the logs of a range or says that they are too many, and that pages through
-- every block.
pub record Serves (provider : Provider) (blocks : ℕ → List IndexedLog) (depth : ℕ) : Type 0 where
  pub ranged :
      (a b : ℕ)
      → a ≤ b
      → (provider.get_logs a b ≡ ok (logs_between blocks a b))
        ⊎ ((e : ReadError) × (provider.get_logs a b ≡ err e)
            × (is_get_logs_response_too_large_error e ≡ true))
  pub paged : (a : ℕ) → Pages provider a depth none (blocks a)

logs_from-add :
    (blocks : ℕ → List IndexedLog) (a m n : ℕ)
    → logs_from blocks a (m + n) ≡ logs_from blocks a m ++ logs_from blocks (a + m) n
logs_from-add blocks a zero n =
    let here : a + zero ≡ a = omega arith in
    let same : zero + n ≡ n = omega arith in
    ap (λ k. logs_from blocks a k) same ∙ ap (λ k. logs_from blocks k n) (sym here)
logs_from-add blocks a (suc m) n =
    let start : suc a + m ≡ a + suc m = omega arith in
    let count : suc m + n ≡ suc (m + n) = omega arith in
    ap (λ k. logs_from blocks a k) count
    ∙ ap (λ t. blocks a ++ t) (logs_from-add blocks (suc a) m n)
    ∙ sym (append_assoc (blocks a) (logs_from blocks (suc a) m) (logs_from blocks (suc a + m) n))
    ∙ ap (λ k. (blocks a ++ logs_from blocks (suc a) m) ++ logs_from blocks k n) start

pub halves :
    (blocks : ℕ → List IndexedLog) (a c b : ℕ)
    → a ≤ c
    → c < b
    → logs_between blocks a c ++ logs_between blocks (c + 1) b ≡ logs_between blocks a b
halves blocks a c b p q =
    let count : (suc c - a) + (suc b - (c + 1)) ≡ suc b - a = omega arith in
    let start : a + (suc c - a) ≡ c + 1 = omega arith in
    ap (λ k. logs_between blocks a c ++ logs_from blocks k (suc b - (c + 1))) (sym start)
    ∙ sym (logs_from-add blocks a (suc c - a) (suc b - (c + 1)))
    ∙ ap (λ k. logs_from blocks a k) count

lt-or-eq : (a b : ℕ) → a ≤ b → (a < b) ⊎ (a ≡ b)
lt-or-eq a b h = ground arith

middle : (a b : ℕ) → a < b → (a ≤ (a + b) / 2) × ((a + b) / 2 < b)
middle a b h = omega arith

not_leb : (a b : ℕ) → a < b → leb b a ≡ false
not_leb a b h = ground arith

leb_same : (a b : ℕ) → a ≡ b → leb b a ≡ true
leb_same a b h = ground arith

module _ (provider : Provider) (blocks : ℕ → List IndexedLog) (depth : ℕ)
    (serves : Serves provider blocks depth) where
  fetch-Pages :
      (a d pages : ℕ) (cursor : Option Text) (logs : List IndexedLog)
      → Pages provider a d cursor logs
      → d ≤ pages
      → fetch_logs_with_cursor provider pages a a cursor ≡ ok logs
  unfolding fetch_logs_with_cursor and_then
  fetch-Pages a _ zero _ _ (last_page n cursor page e h) k = absurd (omega arith)
  fetch-Pages a _ zero _ _ (more_pages n cursor page c rest e h q) k = absurd (omega arith)
  fetch-Pages a _ (suc pages) _ _ (last_page n cursor page e h) k = rw (e, and_then, h) refl
  fetch-Pages a _ (suc pages) _ _ (more_pages n cursor page c rest e h q) k =
      rw (e, and_then, h, fetch-Pages a n pages (some c) rest q (omega arith)) refl

  one_block : (a b : ℕ) → a ≡ b → logs_between blocks a b ≡ blocks a
  one_block a b h =
      let count : suc b - a ≡ 1 = omega arith in
      ap (λ k. logs_from blocks a k) count ∙ append-nil (blocks a)

  -- Up to block 2 to the power 52 and with enough fuel, over a provider that gives the logs of a range or says that they are too many,
  -- and that pages through every block, the split returns exactly the logs of all blocks of the
  -- range, in order.
  pub get_transfer_logs_with_split_complete :
      (fuel pages a b : ℕ)
      → a ≤ b
      → b ≤ exact_blocks
      → b - a < fuel
      → depth ≤ pages
      → get_transfer_logs_with_split provider fuel pages a b ≡ ok (logs_between blocks a b)
  unfolding get_transfer_logs_with_split and_then
  get_transfer_logs_with_split_complete zero pages a b p x q r = absurd (omega arith)
  get_transfer_logs_with_split_complete (suc fuel) pages a b p x q r = elim (serves.ranged a b p) [
    | inl h ↦ rw (h, get_transfer_logs_with_split) refl
    | inr (e, h, large) ↦ elim (lt-or-eq a b p) [
      | inl more ↦
          let c = (a + b) / 2 in
          let (low, high) = middle a b more in
          let sum = rounded-exact (a + b) (omega arith) in
          let next = rounded-exact (c + 1) (omega arith) in
          rw
            (
              h,
              get_transfer_logs_with_split,
              sum,
              next,
              large,
              not_leb a b more,
              get_transfer_logs_with_split_complete fuel pages a c low (omega arith) (omega arith)
                  r,
              get_transfer_logs_with_split_complete fuel pages (c + 1) b (omega arith) x
                  (omega arith) r,
            )
            (ap ok (halves blocks a c b low high))
      | inr same ↦
          rw (h, get_transfer_logs_with_split, large, leb_same a b same)
            (subst
              (λ n. fetch_logs_with_cursor provider pages a n none ≡ ok (logs_between blocks a b))
              same
              (fetch-Pages a depth pages none (blocks a) (serves.paged a) r
                ∙ ap ok (sym (one_block a b same))))
    ]
  ]
