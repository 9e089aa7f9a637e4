-- ===== src/Ethereum/Policy/Calls.antt =====
-- What the tests of a transaction and of its calldata ask for.
use relay_settlement.Common.{
  ℕ, zero, suc, ◌+◌, ◌-◌, ◌*◌, ◌<◌, ◌≤◌, [], ◌∷◌, ◌++◌, arith, take, drop, get_or, All, take-append,
  length-append, ◌≡◌, ◌↔◌, refl, sym, ap, ◌∙◌, subst, List, Bool, true, Option, some, ok, and_then,
  and_then-eq-ok, or_throw-eq-ok, guard-eq-ok, require, require-eq-ok, length, ==_iff, equal_bytes,
  equal_bytes_iff,
}
use relay_settlement.Host.{starts_with, Text, Host}
use relay_settlement.Ethereum.Address.{
  Error, hex_of, encode_ethereum_address_to_hex, normalize_ethereum_address_hex,
}
use relay_settlement.Ethereum.Address.Names.{
  IsHex, IsAddress, encode_hex-IsAddress, IsAddress-encode_hex, normalize-IsAddress,
  IsAddress-normalize, hex_of_same,
}
use relay_settlement.Ethereum.Policy.{
  EthereumTrigger, ParsedTransaction, prefixed, word_at, word_hex_len, recipient,
  decode_address_arg, decode_bytes32_arg, assert_to, assert_calldata, assert_address, assert_order,
}

-- Both texts decode to the same address of 20 bytes.
pub record SameAddress (host : Host) (s t : Text) : Type 0 where
  pub bytes : List ℕ
  pub left : IsAddress host s bytes
  pub right : IsAddress host t bytes

-- The recipient of a transaction.
pub record IsTo (host : Host) (parsed : ParsedTransaction) (text : Text) : Type 0 where
  pub to : Text
  pub given : recipient parsed ≡ some to
  pub same : SameAddress host to text

abbrev pub joined : List Text → Text
joined [] = []
joined (t ∷ ts) = t ++ joined ts

-- Calldata of a selector and of so many arguments: ten characters, which with the prefix are those of
-- the selector in lower case, and behind them the arguments, of 64 characters each.
pub record IsCall (host : Host) (text selector : Text) (words : ℕ) (arguments : List Text)
    : Type 0 where
  pub selected : starts_with selector (host.to_lower_case text) ≡ true
  pub front : Text
  pub front_size : length front ≡ 10
  pub at : text ≡ front ++ joined arguments
  pub count : length arguments ≡ words
  pub sizes : All (λ w. length w ≡ 64) arguments

-- The address that an argument holds, in its last 40 characters.
abbrev pub address_in : Host → Text → Text
address_in host word = prefixed (host.to_lower_case (drop 24 word))

take_front : (n : ℕ) (xs ys : Text) → length xs ≡ n → take n (xs ++ ys) ≡ xs
take_front n xs ys h = subst (λ k. take k (xs ++ ys) ≡ xs) h (take-append xs ys)

drop_front : (n k : ℕ) (xs ys : Text) → length xs ≡ n → drop (n + k) (xs ++ ys) ≡ drop k ys
drop_front zero k [] ys h = let e : zero + k ≡ k = omega arith in ap (λ i. drop i ys) e
drop_front zero k (x ∷ xs) ys h = absurd (omega arith)
drop_front (suc n) k [] ys h = absurd (omega arith)
drop_front (suc n) k (x ∷ xs) ys h =
    let e : suc n + k ≡ suc (n + k) = omega arith in
    ap (λ i. drop i (x ∷ xs ++ ys)) e ∙ drop_front n k xs ys (omega arith)

joined_word :
    (ws : List Text) (i : ℕ)
    → All (λ w. length w ≡ 64) ws
    → i < length ws
    → take 64 (drop (i * 64) (joined ws)) ≡ get_or ws i []
joined_word [] i h k = absurd (omega arith)
joined_word (w ∷ ws) zero h k = take_front 64 w (joined ws) h.0
joined_word (w ∷ ws) (suc i) h k =
    let e : suc i * 64 ≡ 64 + i * 64 = omega arith in
    ap (λ j. take 64 (drop j (w ++ joined ws))) e
    ∙ ap (λ t. take 64 t) (drop_front 64 (i * 64) w (joined ws) h.0)
    ∙ joined_word ws i h.1 (omega arith)

-- The arguments stand where they are read.
pub word_at-IsCall :
    (host : Host) (text selector : Text) (words : ℕ) (arguments : List Text)
    → IsCall host text selector words arguments
    → (i : ℕ) → i < words
    → word_at text i ≡ get_or arguments i []
unfolding word_at
word_at-IsCall host text selector words arguments c i h =
    ap (λ t. take 64 (drop (10 + i * 64) t)) c.at
    ∙ ap (λ t. take 64 t) (drop_front 10 (i * 64) c.front (joined arguments) c.front_size)
    ∙ joined_word arguments i c.sizes (omega (arith, c.count))

split_words : ℕ → Text → List Text
split_words zero text = []
split_words (suc n) text = take 64 text ∷ split_words n (drop 64 text)

length-take_front : (n : ℕ) (t : Text) → n ≤ length t → length (take n t) ≡ n
length-take_front zero t h = refl
length-take_front (suc n) [] h = absurd (omega arith)
length-take_front (suc n) (x ∷ t) h = ap suc (length-take_front n t (omega arith))

length-drop_front : (n : ℕ) (t : Text) → length (drop n t) ≡ length t - n
length-drop_front zero t = omega arith
length-drop_front (suc n) [] = omega arith
length-drop_front (suc n) (x ∷ t) = omega (arith, length-drop_front n t)

take_and_drop : (n : ℕ) (t : Text) → take n t ++ drop n t ≡ t
take_and_drop zero t = refl
take_and_drop (suc n) [] = refl
take_and_drop (suc n) (x ∷ t) = ap (λ u. x ∷ u) (take_and_drop n t)

nil_of : (t : Text) → length t ≡ 0 → t ≡ []
nil_of [] h = refl
nil_of (x ∷ t) h = absurd (omega arith)

split_words-joined : (n : ℕ) (t : Text) → length t ≡ n * 64 → joined (split_words n t) ≡ t
unfolding split_words
split_words-joined zero t h = sym (nil_of t (omega arith))
split_words-joined (suc n) t h =
    ap (λ u. take 64 t ++ u)
      (split_words-joined n (drop 64 t) (omega (arith, length-drop_front 64 t)))
    ∙ take_and_drop 64 t

split_words-sizes :
    (n : ℕ) (t : Text) → length t ≡ n * 64 → All (λ w. length w ≡ 64) (split_words n t)
unfolding split_words
split_words-sizes zero t h = tt
split_words-sizes (suc n) t h = (
  length-take_front 64 t (omega arith),
  split_words-sizes n (drop 64 t) (omega (arith, length-drop_front 64 t)),
)

length-split_words : (n : ℕ) (t : Text) → length (split_words n t) ≡ n
unfolding split_words
length-split_words zero t = refl
length-split_words (suc n) t = ap suc (length-split_words n (drop 64 t))

length-joined : (ws : List Text) → All (λ w. length w ≡ 64) ws → length (joined ws) ≡ length ws * 64
length-joined [] h = omega arith
length-joined (w ∷ ws) h = omega (arith, length-append {0} w (joined ws), h.0, length-joined ws h.1)

module _ (host : Host) (hex : IsHex host) (parse : Text → Option ParsedTransaction) where
  alike :
      (s t a e : Text) (mismatch : Error)
      → encode_ethereum_address_to_hex host s ≡ ok a
      → normalize_ethereum_address_hex host t ≡ ok e
      → require (equal_bytes (host.to_lower_case a) e) mismatch ≡ ok tt
      → SameAddress host s t
  alike s t a e mismatch h k l =
      let (as', p, shown) = encode_hex-IsAddress host s a h in
      let (bs, q, shown') = normalize-IsAddress host hex t e k in
      let same : hex_of host as' ≡ hex_of host bs =
        sym (hex.lower as')
        ∙ ap (λ x. host.to_lower_case x) shown
        ∙ (equal_bytes_iff _ _).0 (require-eq-ok _ mismatch l)
        ∙ sym shown' in
      record {
        bytes = bs;
        left = subst (λ b. IsAddress host s b) (hex_of_same host hex s t as' bs p q same) p;
        right = q;
      }

  pub assert_to_iff :
      (parsed : ParsedTransaction) (text : Text)
      → (assert_to host parse parsed text ≡ ok tt) ↔ IsTo host parsed text
  unfolding assert_to and_then
  assert_to_iff parsed text = (
    λ h.
        let (expected, e1, h1) = and_then-eq-ok _ _ h in
        let (to, e2, h2) = and_then-eq-ok _ _ h1 in
        let (actual, e3, h3) = and_then-eq-ok _ _ h2 in
        record {
          to = to;
          given = or_throw-eq-ok Error.to_mismatch _ _ e2;
          same = alike to text actual expected Error.to_mismatch e3 e1 h3;
        },
    λ r.
        rw
          (
            IsAddress-normalize host hex text r.same.bytes r.same.right,
            r.given,
            IsAddress-encode_hex host r.to r.same.bytes r.same.left,
            hex.lower r.same.bytes,
            (equal_bytes_iff (hex_of host r.same.bytes) (hex_of host r.same.bytes)).1 refl,
          )
          refl,
  )

  pub assert_address_iff :
      (text : Text) (index : ℕ) (expected : Text) (mismatch : Error)
      → (assert_address host parse text index expected mismatch ≡ ok tt)
        ↔ SameAddress host (decode_address_arg host parse text index) expected
  unfolding assert_address and_then
  assert_address_iff text index expected mismatch = (
    λ h.
        let (actual, e1, h1) = and_then-eq-ok _ _ h in
        let (e, e2, h2) = and_then-eq-ok _ _ h1 in
        alike (decode_address_arg host parse text index) expected actual e mismatch e1 e2 h2,
    λ s.
        rw
          (
            IsAddress-encode_hex host (decode_address_arg host parse text index) s.bytes s.left,
            IsAddress-normalize host hex expected s.bytes s.right,
            hex.lower s.bytes,
            (equal_bytes_iff (hex_of host s.bytes) (hex_of host s.bytes)).1 refl,
          )
          refl,
  )

  pub assert_calldata_iff :
      (text selector : Text) (words : ℕ)
      → (assert_calldata host parse text selector words ≡ ok tt)
        ↔ ((arguments : List Text) × IsCall host text selector words arguments)
  unfolding assert_calldata
  assert_calldata_iff text selector words = (
    λ h.
        let (selected, k) = guard-eq-ok _ Error.call_mismatch _ h in
        let size = (==_iff _ _).0 (require-eq-ok _ Error.calldata_length k) in
        let rest : length (drop 10 text) ≡ words * 64 =
          omega (arith, length-drop_front 10 text, size) in
        (
          split_words words (drop 10 text),
          record {
            selected = selected;
            front = take 10 text;
            front_size = length-take_front 10 text (omega (arith, size));
            at = sym (
                ap (λ t. take 10 text ++ t) (split_words-joined words (drop 10 text) rest)
                ∙ take_and_drop 10 text);
            count = length-split_words words (drop 10 text);
            sizes = split_words-sizes words (drop 10 text) rest;
          },
        ),
    λ (arguments, c).
        let size : length text ≡ 10 + words * word_hex_len = omega (
          arith,
          ap (λ t. length t) c.at,
          length-append {0} c.front (joined arguments),
          c.front_size,
          length-joined arguments c.sizes,
          ap (λ n. n * 64) c.count,
        ) in
        rw (c.selected, (==_iff _ _).1 size) refl,
  )

  pub require_iff : (b : Bool) (e : Error) → (require b e ≡ ok tt) ↔ (b ≡ true)
  require_iff b e = (λ h. require-eq-ok b e h, λ h. rw h refl)

  pub assert_order_iff :
      (text : Text) (index : ℕ) (trigger : EthereumTrigger)
      → (assert_order host parse text index trigger ≡ ok tt) ↔ (
          host.to_lower_case (decode_bytes32_arg host parse text index)
          ≡ host.to_lower_case trigger.order_id)
  unfolding assert_order
  assert_order_iff text index trigger = (
    λ h. (equal_bytes_iff _ _).0 (require-eq-ok _ Error.order_mismatch h),
    λ h. (require_iff _ Error.order_mismatch).1 ((equal_bytes_iff _ _).1 h),
  )

  module _ (text selector : Text) (words : ℕ) (arguments : List Text)
      (call : IsCall host text selector words arguments) (index : ℕ)
      (is_argument : index < words) where
    argument_address :
        decode_address_arg host parse text index ≡ address_in host (get_or arguments index [])
    unfolding decode_address_arg
    argument_address =
        ap (address_in host)
          (word_at-IsCall host text selector words arguments call index is_argument)

    argument_order :
        decode_bytes32_arg host parse text index
        ≡ prefixed (host.to_lower_case (get_or arguments index []))
    unfolding decode_bytes32_arg
    argument_order =
        ap (λ w. prefixed (host.to_lower_case w))
          (word_at-IsCall host text selector words arguments call index is_argument)

    pub assert_argument_iff :
        (expected : Text) (mismatch : Error)
        → (assert_address host parse text index expected mismatch ≡ ok tt)
          ↔ SameAddress host (address_in host (get_or arguments index [])) expected
    assert_argument_iff expected mismatch =
        subst
          (λ a.
            (assert_address host parse text index expected mismatch ≡ ok tt)
            ↔ SameAddress host a expected)
          argument_address (assert_address_iff text index expected mismatch)

    pub assert_order_argument_iff :
        (trigger : EthereumTrigger)
        → (assert_order host parse text index trigger ≡ ok tt) ↔ (
            host.to_lower_case (prefixed (host.to_lower_case (get_or arguments index [])))
            ≡ host.to_lower_case trigger.order_id)
    assert_order_argument_iff trigger =
        subst
          (λ a.
            (assert_order host parse text index trigger ≡ ok tt)
            ↔ (host.to_lower_case a ≡ host.to_lower_case trigger.order_id))
          argument_order (assert_order_iff text index trigger)
