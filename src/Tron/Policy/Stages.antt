-- ===== src/Tron/Policy/Stages.antt =====
-- The stages of a TRC20 batch, and the policy as a whole.
use relay_settlement.Common.{
  ℕ, ◌≡◌, ◌⊎◌, inl, inr, refl, sym, subst, List, [], ◌∷◌, Bool, some, Result, ok, and_then,
  and_then-eq-ok, ok_same, map, get_elem?, equal_bytes, arith,
}
use relay_settlement.Host.{Text}
use relay_settlement.Tron.Values.{Error}
use relay_settlement.Tron.Policy.{
  Trigger, TronVmTransaction, Env, pre_approval, approval, deposit, join, direct, reset,
  assert_trc20_call, assert_approvals,
}
use relay_settlement.Tron.Policy.Purposes.{join_determined}
use relay_settlement.Tron.Policy.Batches.{
  Approves, Deposits, Stages, approve_deposit, reset_approve_deposit, assert_approval-Approves,
  assert_trc20_call-Deposits,
}

some_of : {A : Type 0} {x y : A} → some x ≡ some y → x ≡ y
some_of h = cc

head_of : {x y : Text} {xs ys : List Text} → x ∷ xs ≡ y ∷ ys → x ≡ y
head_of h = cc

tail_of : {x y : Text} {xs ys : List Text} → x ∷ xs ≡ y ∷ ys → xs ≡ ys
tail_of h = cc

map_purpose_nil : (ts : List TronVmTransaction) → map (λ t. t.purpose) ts ≡ [] → ts ≡ []
map_purpose_nil [] h = refl
map_purpose_nil (t ∷ ts) h = absurd (cc)

module _ (env : Env) (trigger : Trigger) (token depository : Text) (amount : ℕ) where
  direct-Stages :
      (ts : List TronVmTransaction) (a d : TronVmTransaction)
      → join (map (λ t. t.purpose) ts) ≡ direct
      → get_elem? ts 0 ≡ some a
      → get_elem? ts 1 ≡ some d
      → Approves env a 0 token depository amount
      → Deposits env trigger d 1 token depository amount
      → Stages env trigger token depository amount ts
  unfolding join
  direct-Stages [] a d h p q f g = absurd (cc)
  direct-Stages (x ∷ []) a d h p q f g = absurd (cc)
  direct-Stages (x ∷ y ∷ ts) a d h p q f g =
      let all =
        join_determined x.purpose (y.purpose ∷ map (λ t. t.purpose) ts) approval (deposit ∷ []) refl
          (omega arith) h in
      subst (λ r. Stages env trigger token depository amount (x ∷ y ∷ r))
        (sym (map_purpose_nil ts (tail_of (tail_of all))))
        (approve_deposit x y (head_of all) (head_of (tail_of all))
          (subst (λ t. Approves env t 0 token depository amount) (sym (some_of p)) f)
          (subst (λ t. Deposits env trigger t 1 token depository amount) (sym (some_of q)) g))

  reset-Stages :
      (ts : List TronVmTransaction) (z a d : TronVmTransaction)
      → join (map (λ t. t.purpose) ts) ≡ reset
      → get_elem? ts 0 ≡ some z
      → get_elem? ts 1 ≡ some a
      → get_elem? ts 2 ≡ some d
      → Approves env z 0 token depository 0
      → Approves env a 1 token depository amount
      → Deposits env trigger d 2 token depository amount
      → Stages env trigger token depository amount ts
  unfolding join
  reset-Stages [] z a d h o p q e f g = absurd (cc)
  reset-Stages (x ∷ []) z a d h o p q e f g = absurd (cc)
  reset-Stages (x ∷ y ∷ []) z a d h o p q e f g = absurd (cc)
  reset-Stages (x ∷ y ∷ w ∷ ts) z a d h o p q e f g =
      let all =
        join_determined x.purpose (y.purpose ∷ w.purpose ∷ map (λ t. t.purpose) ts) pre_approval
          (approval ∷ deposit ∷ []) refl (omega arith) h in
      subst (λ r. Stages env trigger token depository amount (x ∷ y ∷ w ∷ r))
        (sym (map_purpose_nil ts (tail_of (tail_of (tail_of all)))))
        (reset_approve_deposit x y w (head_of all) (head_of (tail_of all))
          (head_of (tail_of (tail_of all)))
          (subst (λ t. Approves env t 0 token depository 0) (sym (some_of o)) e)
          (subst (λ t. Approves env t 1 token depository amount) (sym (some_of p)) f)
          (subst (λ t. Deposits env trigger t 2 token depository amount) (sym (some_of q)) g))

  -- The approvals and the deposit in the order of the code.
  abbrev pub assert_stages : Bool → List TronVmTransaction → Result Error (Unit {0})
  assert_stages two ts =
      and_then (assert_approvals env two ts token depository amount)
        λ index. assert_trc20_call env trigger ts index token depository amount

  pub assert_stages-Stages :
      (ts : List TronVmTransaction)
      → (join (map (λ t. t.purpose) ts) ≡ direct) ⊎ (join (map (λ t. t.purpose) ts) ≡ reset)
      → assert_stages (equal_bytes (join (map (λ t. t.purpose) ts)) reset) ts ≡ ok tt
      → Stages env trigger token depository amount ts
  unfolding assert_approvals equal_bytes
  assert_stages-Stages ts (inl h) k =
      let (i, e1, k1) =
        and_then-eq-ok _ _ (subst (λ p. assert_stages (equal_bytes p reset) ts ≡ ok tt) h k) in
      let (u, e2, k2) = and_then-eq-ok _ _ e1 in
      let (a, at_a, approves) =
        assert_approval-Approves env trigger ts 0 token depository amount e2 in
      let (d, at_d, deposits) =
        assert_trc20_call-Deposits env trigger ts 1 token depository amount (
          subst (λ n. assert_trc20_call env trigger ts n token depository amount ≡ ok tt)
            (sym (ok_same k2)) k1) in
      direct-Stages ts a d h at_a at_d approves deposits
  assert_stages-Stages ts (inr h) k =
      let (i, e1, k1) =
        and_then-eq-ok _ _ (subst (λ p. assert_stages (equal_bytes p reset) ts ≡ ok tt) h k) in
      let (u, e2, k2) = and_then-eq-ok _ _ e1 in
      let (v, e3, k3) = and_then-eq-ok _ _ k2 in
      let (z, at_z, zeroes) = assert_approval-Approves env trigger ts 0 token depository 0 e2 in
      let (a, at_a, approves) =
        assert_approval-Approves env trigger ts 1 token depository amount e3 in
      let (d, at_d, deposits) =
        assert_trc20_call-Deposits env trigger ts 2 token depository amount (
          subst (λ n. assert_trc20_call env trigger ts n token depository amount ≡ ok tt)
            (sym (ok_same k3)) k1) in
      reset-Stages ts z a d h at_z at_a at_d zeroes approves deposits
