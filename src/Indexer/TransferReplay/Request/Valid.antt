-- ===== src/Indexer/TransferReplay/Request/Valid.antt =====
-- Which requests pass.
use relay_settlement.Common.{
  ℕ, ◌+◌, ◌-◌, ◌≡◌, ◌≤◌, ◌↔◌, refl, ap, ◌∙◌, subst, false, Option, none, some, ok, err, and_then,
  and_then-eq-ok, ok_same, if-cases, ltb, if◌then◌else◌, arith, inl, inr,
}
use relay_settlement.Common.Int.{ℤ, pos, negsuc}
use relay_settlement.Indexer.TransferReplay.Request.{
  JsNumber, integer, fractional, Fields, TransferReplayRequest, RequestError, require_integer,
  natural, at_least_one, exceeds, validate_transfer_replay_request,
}

-- The range of blocks is within the limit, if there is one.
abbrev pub Within : Option ℕ → ℕ → Type 0
Within none range = Unit {0}
Within (some m) range = range ≤ m

-- The numbers of a request are integers in their bounds.
pub record Valid (raw : Fields JsNumber) (max_block_range : Option ℕ) (r : TransferReplayRequest)
    : Type 0 where
  pub batch : raw.batch_size ≡ integer (pos r.batch_size)
  pub first : raw.from_block ≡ integer (pos r.from_block)
  pub chunk_number : raw.reconcile_chunk_size ≡ integer (pos r.reconcile_chunk_size)
  pub last : raw.to_block ≡ integer (pos r.to_block)
  pub some_batch : 1 ≤ r.batch_size
  pub some_chunk : 1 ≤ r.reconcile_chunk_size
  pub ordered : r.from_block ≤ r.to_block
  pub within : Within max_block_range (r.to_block - r.from_block + 1)

integer-eq-ok : (n : JsNumber) (z : ℤ) → require_integer n ≡ ok z → n ≡ integer z
integer-eq-ok (integer y) z h = ap (λ x. integer x) (ok_same h)
integer-eq-ok fractional z h = absurd (cc)

natural-eq-ok : (e : RequestError) (z : ℤ) (n : ℕ) → natural e z ≡ ok n → z ≡ pos n
natural-eq-ok e (pos m) n h = ap (λ x. pos x) (ok_same h)
natural-eq-ok e (negsuc m) n h = absurd (cc)

at_least-eq-ok : (e : RequestError) (n m : ℕ) → at_least_one e n ≡ ok m → (n ≡ m) × (1 ≤ m)
at_least-eq-ok e n m h = elim (if-cases (ltb n 1) (err e) (ok n) h) [
  | inl (b, k) ↦ absurd (cc)
  | inr (b, k) ↦ let same : n ≡ m = ok_same k in (same, ground arith)
]

exceeds-Within : (o : Option ℕ) (range : ℕ) → (exceeds o range ≡ false) ↔ Within o range
exceeds-Within none range = (λ h. tt, λ h. refl)
exceeds-Within (some m) range = ground arith

not_below : (a b : ℕ) → ltb a b ≡ false → b ≤ a
not_below a b h = ground arith

above : (a b : ℕ) → b ≤ a → ltb a b ≡ false
above a b h = ground arith

-- The last two tests.
range-eq-ok :
    (max : Option ℕ) (from to : ℕ) (r s : TransferReplayRequest)
    → (if ltb to from
        then err RequestError.block_order
        else if exceeds max (to - from + 1)
        then err RequestError.range_too_large
        else ok s)
      ≡ ok r
    → (from ≤ to) × Within max (to - from + 1) × (s ≡ r)
range-eq-ok max from to r s h =
    let order =
      if-cases (ltb to from) (err RequestError.block_order)
        (if exceeds max (to - from + 1) then err RequestError.range_too_large else ok s) h in
    elim order [
      | inl (b, k) ↦ absurd (cc)
      | inr (b, k) ↦
          elim (if-cases (exceeds max (to - from + 1)) (err RequestError.range_too_large) (ok s)
            k) [
              | inl (c, l) ↦ absurd (cc)
              | inr (c, l) ↦
                  (not_below to from b, (exceeds-Within max (to - from + 1)).0 c, ok_same l)
            ]
    ]

module _ (raw : Fields JsNumber) (max : Option ℕ) (r : TransferReplayRequest) where
  validate-Valid : validate_transfer_replay_request raw max ≡ ok r → Valid raw max r
  unfolding validate_transfer_replay_request
  validate-Valid h =
      let (zb, e1, h1) = and_then-eq-ok _ _ h in
      let (zf, e2, h2) = and_then-eq-ok _ _ h1 in
      let (zc, e3, h3) = and_then-eq-ok _ _ h2 in
      let (zt, e4, h4) = and_then-eq-ok _ _ h3 in
      let (from, e5, h5) = and_then-eq-ok _ _ h4 in
      let (to, e6, h6) = and_then-eq-ok _ _ h5 in
      let (b0, e7, h7) = and_then-eq-ok _ _ h6 in
      let (b, e8, h8) = and_then-eq-ok _ _ h7 in
      let (c0, e9, h9) = and_then-eq-ok _ _ h8 in
      let (c, e10, h10) = and_then-eq-ok _ _ h9 in
      let (b_same, b_some) = at_least-eq-ok RequestError.batch_too_small b0 b e8 in
      let (c_same, c_some) = at_least-eq-ok RequestError.chunk_too_small c0 c e10 in
      let (ordered, within, same) = range-eq-ok max from to r _ h10 in
      subst (λ q. Valid raw max q) same
        (record {
          batch =
              integer-eq-ok raw.batch_size zb e1
              ∙ ap (λ z. integer z)
                  (natural-eq-ok RequestError.batch_too_small zb b0 e7 ∙ ap (λ n. pos n) b_same);
          first =
              integer-eq-ok raw.from_block zf e2
              ∙ ap (λ z. integer z) (natural-eq-ok RequestError.negative_block zf from e5);
          chunk_number =
              integer-eq-ok raw.reconcile_chunk_size zc e3
              ∙ ap (λ z. integer z)
                  (natural-eq-ok RequestError.chunk_too_small zc c0 e9 ∙ ap (λ n. pos n) c_same);
          last =
              integer-eq-ok raw.to_block zt e4
              ∙ ap (λ z. integer z) (natural-eq-ok RequestError.negative_block zt to e6);
          some_batch = b_some;
          some_chunk = c_some;
          ordered = ordered;
          within = within;
        })

  Valid-validate : Valid raw max r → validate_transfer_replay_request raw max ≡ ok r
  unfolding validate_transfer_replay_request and_then
  Valid-validate v =
      rw
        (
          v.batch,
          v.first,
          v.chunk_number,
          v.last,
          above r.batch_size 1 v.some_batch,
          above r.reconcile_chunk_size 1 v.some_chunk,
          above r.to_block r.from_block v.ordered,
          (exceeds-Within max (r.to_block - r.from_block + 1)).1 v.within,
        )
        refl

  -- A request passes, with its numbers, exactly where all four are integers, the blocks are not
  -- negative and in order, the sizes are at least one, and the range is within the limit.
  pub validate_transfer_replay_request_iff :
      (validate_transfer_replay_request raw max ≡ ok r) ↔ Valid raw max r
  validate_transfer_replay_request_iff = (validate-Valid, Valid-validate)
