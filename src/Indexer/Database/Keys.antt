-- ===== src/Indexer/Database/Keys.antt =====
-- What the statements do to the balance at each key.
use relay_settlement.Common.{
  ℕ, ◌≡◌, ◌↔◌, refl, List, [], ◌∷◌, true, Option, arith, equal_bytes_iff, if◌then◌else◌, Bool-cases,
  inl, inr, ◌==◌, ==_iff,
}
use relay_settlement.Host.{Text}
use relay_settlement.Indexer.Database.{
  Balance, same_key, get_balance, delete_balance, upsert_balance, set_balance,
}

pub same_key_iff : (a t b u : Text) → (same_key a t b u ≡ true) ↔ ((a ≡ b) × (t ≡ u))
same_key_iff a t b u = ground (arith, equal_bytes_iff a b, equal_bytes_iff t u)

get-delete_balance :
    (a t b u : Text) (rs : List Balance)
    → get_balance b u (delete_balance a t rs) ≡ (if same_key b u a t then 0 else get_balance b u rs)
unfolding get_balance delete_balance
get-delete_balance a t b u [] = ground arith
get-delete_balance a t b u (r ∷ rs) = ground (
  arith,
  get-delete_balance a t b u rs,
  same_key_iff a t r.address r.token_id,
  same_key_iff b u r.address r.token_id,
  same_key_iff b u a t,
)

get-upsert_balance :
    (a t b u : Text) (n : ℕ) (ts : Option ℕ) (rs : List Balance)
    → get_balance b u (upsert_balance a t n ts rs)
      ≡ (if same_key b u a t then n else get_balance b u rs)
unfolding get_balance upsert_balance
get-upsert_balance a t b u n ts [] = ground arith
get-upsert_balance a t b u n ts (r ∷ rs) = ground (
  arith,
  get-upsert_balance a t b u n ts rs,
  same_key_iff a t r.address r.token_id,
  same_key_iff b u r.address r.token_id,
  same_key_iff b u a t,
)

-- After a balance is set, it reads as it was set, and the balance at every other key as before.
pub get-set_balance :
    (a t b u : Text) (n : ℕ) (ts : Option ℕ) (rs : List Balance)
    → get_balance b u (set_balance a t n ts rs)
      ≡ (if same_key b u a t then n else get_balance b u rs)
unfolding set_balance
get-set_balance a t b u n ts rs = elim (Bool-cases (n == 0)) [
  | inl e ↦ rw (e, get-delete_balance a t b u rs) (rw ((==_iff n 0).0 e) refl)
  | inr e ↦ rw (e, get-upsert_balance a t b u n ts rs)
]
