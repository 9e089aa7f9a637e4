-- ===== src/Indexer/Transfers/Tracked.antt =====
-- Which addresses are tracked.
use relay_settlement.Common.{
  ◌≡◌, ◌⊎◌, refl, ◌∙◌, List, [], ◌∷◌, true, false, not, ◌&&◌, arith, equal_bytes, equal_bytes_iff,
  map,
}
use relay_settlement.Host.{Text}
use relay_settlement.Indexer.Transfers.{
  Chain, is_zero_address, without, distinct, drop_zero, tracked_addresses,
}
use relay_settlement.Indexer.Transfers.Writes.{listed}

listed-map :
    (f : Text → Text) (a : Text) (xs : List Text)
    → listed a xs ≡ true
    → listed (f a) (map f xs) ≡ true
listed-map f a [] h = h
listed-map f a (x ∷ xs) h =
    ground (arith, equal_bytes_iff a x, equal_bytes_iff (f a) (f x), listed-map f a xs)

listed-without :
    (b x : Text) (ys : List Text) → listed b (without x ys) ≡ (listed b ys && not (equal_bytes b x))
unfolding without
listed-without b x [] = refl
listed-without b x (y ∷ ys) =
    ground
      (arith, equal_bytes_iff b y, equal_bytes_iff b x, equal_bytes_iff x y, listed-without b x ys)

listed-distinct : (b : Text) (xs : List Text) → listed b (distinct xs) ≡ listed b xs
unfolding distinct
listed-distinct b [] = refl
listed-distinct b (x ∷ xs) = ground (arith, listed-without b x (distinct xs), listed-distinct b xs)

listed-drop_zero :
    (chain : Chain) (b : Text) (xs : List Text)
    → listed b (drop_zero chain xs) ≡ (listed b xs && not (is_zero_address chain b))
unfolding drop_zero
listed-drop_zero chain b [] = refl
listed-drop_zero chain b (x ∷ xs) = ground (arith, equal_bytes_iff b x, listed-drop_zero chain b xs)

-- The lower-case form of each address that was given is tracked, unless it is the zero address.
pub listed-tracked_addresses :
    (chain : Chain) (a : Text) (addresses : List Text)
    → listed a addresses ≡ true
    → is_zero_address chain (chain.to_lower_case a) ≡ false
    → listed (chain.to_lower_case a) (tracked_addresses chain addresses) ≡ true
unfolding tracked_addresses
listed-tracked_addresses chain a addresses h z =
    let b = chain.to_lower_case a in
    let lowered = map chain.to_lower_case addresses in
    listed-drop_zero chain b (distinct lowered)
    ∙ ground (arith, listed-distinct b lowered, listed-map chain.to_lower_case a addresses h)

-- An address is tracked only where it is the lower-case form of one that was given, and not zero.
pub tracked_addresses_only :
    (chain : Chain) (b : Text) (addresses : List Text)
    → (listed b (map chain.to_lower_case addresses) ≡ false) ⊎ (is_zero_address chain b ≡ true)
    → listed b (tracked_addresses chain addresses) ≡ false
unfolding tracked_addresses
tracked_addresses_only chain b addresses h =
    let lowered = map chain.to_lower_case addresses in
    listed-drop_zero chain b (distinct lowered) ∙ ground (arith, listed-distinct b lowered, h)
