-- ===== src/Indexer/Database/Tokens.antt =====
-- What the statements do to the row of a token.
use relay_settlement.Common.{
  ◌≡◌, ◌≢◌, refl, List, [], ◌∷◌, ◌++◌, Option, none, some, arith, equal_bytes_iff,
}
use relay_settlement.Host.{Text}
use relay_settlement.Indexer.Database.{Token, select_token, update_token}

-- A change that leaves the key alone.
abbrev pub KeepsKey : (Token → Token) → Type 0
KeepsKey f = (x : Token) → (f x).token_id ≡ x.token_id

abbrev pub changed : (Token → Token) → Option Token → Option Token
changed f none = none
changed f (some x) = some (f x)

pub select-update_token :
    (t : Text) (f : Token → Token) (ts : List Token)
    → KeepsKey f
    → select_token t (update_token t f ts) ≡ changed f (select_token t ts)
unfolding select_token update_token
select-update_token t f [] keeps = refl
select-update_token t f (x ∷ xs) keeps = ground (arith, keeps x, select-update_token t f xs keeps)

pub select-append :
    (t : Text) (fresh : Token) (ts : List Token)
    → fresh.token_id ≡ t
    → select_token t ts ≡ none
    → select_token t (ts ++ (fresh ∷ [])) ≡ some fresh
unfolding select_token
select-append t fresh [] e h = ground (arith, equal_bytes_iff t fresh.token_id)
select-append t fresh (x ∷ xs) e h = ground (arith, select-append t fresh xs e)

-- Two changes one after the other are one change.
pub update-update_token :
    (t : Text) (f g : Token → Token) (ts : List Token)
    → KeepsKey f
    → update_token t g (update_token t f ts) ≡ update_token t (λ x. g (f x)) ts
unfolding update_token
update-update_token t f g [] keeps = refl
update-update_token t f g (x ∷ xs) keeps =
    ground (arith, keeps x, update-update_token t f g xs keeps)

-- The row of another token is left alone.
pub select-update_other :
    (u t : Text) (f : Token → Token) (ts : List Token)
    → KeepsKey f
    → u ≢ t
    → select_token u (update_token t f ts) ≡ select_token u ts
unfolding select_token update_token
select-update_other u t f [] keeps other = refl
select-update_other u t f (x ∷ xs) keeps other = ground (
  arith,
  keeps x,
  equal_bytes_iff u x.token_id,
  equal_bytes_iff t x.token_id,
  select-update_other u t f xs keeps other,
)

pub select-append_other :
    (u : Text) (fresh : Token) (ts : List Token)
    → u ≢ fresh.token_id
    → select_token u (ts ++ (fresh ∷ [])) ≡ select_token u ts
unfolding select_token
select-append_other u fresh [] other = ground (arith, equal_bytes_iff u fresh.token_id)
select-append_other u fresh (x ∷ xs) other = ground (arith, select-append_other u fresh xs other)
