-- ===== src/Solana/Policy/Carries.antt =====
-- The arguments of a deposit, read as a layout.
use relay_settlement.Common.{
  ℕ, zero, suc, ◌+◌, ◌≡◌, refl, sym, ap, ap₂, ◌∙◌, subst, List, [], ◌∷◌, ◌++◌, ok, and_then,
  and_then-eq-ok, or_throw-eq-ok, guard-eq-ok, require-eq-ok, length, take, drop, drop-drop,
  take-append, drop-append, length-append, length-drop, some, get_elem?, equal_bytes_iff, ==_iff,
  arith,
}
use relay_settlement.Bytes.{bytes_to_number_le}
use relay_settlement.Solana.Reader.{Error}
use relay_settlement.Solana.Message.{Instruction, Message}
use relay_settlement.Solana.Policy.{resolve_static_key, assert_shape, assert_key, assert_args}

-- The discriminator, eight bytes of the amount with the lowest first, and the id.
pub record Carries (args discriminator : List ℕ) (amount : ℕ) (id : List ℕ) : Type 0 where
  pub amount_bytes : List ℕ
  pub size : length amount_bytes ≡ 8
  pub value : bytes_to_number_le amount_bytes ≡ amount
  pub layout : args ≡ discriminator ++ (amount_bytes ++ id)

-- An account slot of the instruction that resolves to a key.
pub record Refers (message : Message) (ix : Instruction) (slot : ℕ) (key : List ℕ) : Type 0 where
  pub index : ℕ
  pub account : get_elem? ix.account_indexes slot ≡ some index
  pub static : get_elem? message.static_account_keys index ≡ some key

module _ {A : Type 0} where
  cut_whole : (n : ℕ) (xs : List A) → take n xs ++ drop n xs ≡ xs
  cut_whole zero xs = refl
  cut_whole (suc n) [] = refl
  cut_whole (suc n) (x ∷ xs) = ap (λ t. x ∷ t) (cut_whole n xs)

  take_all : (xs : List A) → take (length xs) xs ≡ xs
  take_all [] = refl
  take_all (x ∷ xs) = ap (λ t. x ∷ t) (take_all xs)

  head_of_8 : (xs : List A) (n : ℕ) → length xs ≡ 8 + n → length (take 8 xs) ≡ 8
  head_of_8 xs n h = omega (
    arith,
    ap (λ t. length t) (cut_whole 8 xs),
    length-append (take 8 xs) (drop 8 xs),
    length-drop 8 xs,
  )

  take_exact : (n : ℕ) (xs ys : List A) → length xs ≡ n → take n (xs ++ ys) ≡ xs
  take_exact n xs ys h = subst (λ k. take k (xs ++ ys) ≡ xs) h (take-append xs ys)

  drop_exact : (n : ℕ) (xs ys : List A) → length xs ≡ n → drop n (xs ++ ys) ≡ ys
  drop_exact n xs ys h = subst (λ k. drop k (xs ++ ys) ≡ ys) h (drop-append xs ys)

assert_shape-eq-ok :
    (ix : Instruction) (d : List ℕ) (count : ℕ)
    → assert_shape ix d count ≡ ok tt
    → (length ix.args ≡ 48) × (take 8 ix.args ≡ d) × (length ix.account_indexes ≡ count)
unfolding assert_shape
assert_shape-eq-ok ix d count h =
    let (size, h1) = guard-eq-ok _ Error.args_length _ h in
    let (head, h2) = guard-eq-ok _ Error.discriminator _ h1 in
    (
      (==_iff _ _).0 size,
      (equal_bytes_iff _ _).0 head,
      (==_iff _ _).0 (require-eq-ok _ Error.account_count h2),
    )

assert_args-eq-ok :
    (ix : Instruction) (amount : ℕ) (id : List ℕ)
    → assert_args ix amount id ≡ ok tt
    → (bytes_to_number_le (take 8 (drop 8 ix.args)) ≡ amount) × (take 32 (drop 16 ix.args) ≡ id)
unfolding assert_args
assert_args-eq-ok ix amount id h =
    let (value, h1) = guard-eq-ok _ Error.amount_mismatch _ h in
    ((==_iff _ _).0 value, (equal_bytes_iff _ _).0 (require-eq-ok _ Error.id_mismatch h1))

module _ (ix : Instruction) (d : List ℕ) (count amount : ℕ) (id : List ℕ) where
  pub tests-Carries :
      assert_shape ix d count ≡ ok tt
      → assert_args ix amount id ≡ ok tt
      → Carries ix.args d amount id × (length ix.account_indexes ≡ count)
  tests-Carries h k =
      let (size, head, accounts) = assert_shape-eq-ok ix d count h in
      let (value, tail) = assert_args-eq-ok ix amount id k in
      let rest = drop 8 ix.args in
      let rest_size : length rest ≡ 40 = omega (arith, length-drop 8 ix.args, size) in
      let last_size : length (drop 16 ix.args) ≡ 32 = omega (arith, length-drop 16 ix.args, size) in
      let last : drop 8 rest ≡ id =
        sym (drop-drop 8 8 ix.args)
        ∙ sym (
            subst (λ n. take n (drop 16 ix.args) ≡ drop 16 ix.args) last_size
              (take_all (drop 16 ix.args)))
        ∙ tail in
      (
        record {
          amount_bytes = take 8 rest;
          size = head_of_8 rest 32 rest_size;
          value = value;
          layout =
              sym (cut_whole 8 ix.args)
              ∙ ap₂ (λ a b. a ++ b) head (sym (cut_whole 8 rest) ∙ ap (λ b. take 8 rest ++ b) last);
        },
        accounts,
      )

  pub Carries-tests :
      length d ≡ 8
      → length id ≡ 32
      → Carries ix.args d amount id
      → length ix.account_indexes ≡ count
      → (assert_shape ix d count ≡ ok tt) × (assert_args ix amount id ≡ ok tt)
  unfolding assert_shape assert_args
  Carries-tests hd hi c accounts =
      let size : length ix.args ≡ 48 = omega (
        arith,
        ap (λ t. length t) c.layout,
        length-append d (c.amount_bytes ++ id),
        length-append c.amount_bytes id,
        hd,
        hi,
        c.size,
      ) in
      let head : take 8 ix.args ≡ d =
        ap (λ t. take 8 t) c.layout ∙ take_exact 8 d (c.amount_bytes ++ id) hd in
      let rest : drop 8 ix.args ≡ c.amount_bytes ++ id =
        ap (λ t. drop 8 t) c.layout ∙ drop_exact 8 d (c.amount_bytes ++ id) hd in
      let value : bytes_to_number_le (take 8 (drop 8 ix.args)) ≡ amount =
        ap (λ t. bytes_to_number_le (take 8 t)) rest
        ∙ ap (λ t. bytes_to_number_le t) (take_exact 8 c.amount_bytes id c.size)
        ∙ c.value in
      let last : take 32 (drop 16 ix.args) ≡ id =
        ap (λ t. take 32 t)
          (drop-drop 8 8 ix.args ∙ ap (λ t. drop 8 t) rest ∙ drop_exact 8 c.amount_bytes id c.size)
        ∙ subst (λ n. take n id ≡ id) hi (take_all id) in
      (
        rw ((==_iff _ _).1 size, (equal_bytes_iff _ _).1 head, (==_iff _ _).1 accounts) refl,
        rw ((==_iff _ _).1 value, (equal_bytes_iff _ _).1 last) refl,
      )

module _ (message : Message) (ix : Instruction) (slot : ℕ) (key : List ℕ) (e : Error) where
  pub assert_key-Refers : assert_key message ix slot key e ≡ ok tt → Refers message ix slot key
  unfolding assert_key resolve_static_key
  assert_key-Refers h =
      let (index, h1, k1) = and_then-eq-ok _ _ h in
      let (found, h2, k2) = and_then-eq-ok _ _ k1 in
      record {
        index = index;
        account = or_throw-eq-ok Error.account_count _ _ h1;
        static =
            or_throw-eq-ok Error.outside_static_keys _ _ h2
            ∙ ap some ((equal_bytes_iff _ _).0 (require-eq-ok _ e k2));
      }

  pub Refers-assert_key : Refers message ix slot key → assert_key message ix slot key e ≡ ok tt
  unfolding assert_key resolve_static_key and_then
  Refers-assert_key r = rw (r.account, r.static, (equal_bytes_iff key key).1 refl) refl
