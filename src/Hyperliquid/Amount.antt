-- ===== src/Hyperliquid/Amount.antt =====
-- `rawAmount` and `inputCurrencyDecimals` of derivation/vm/hyperliquid/policy.ts: a decimal text in
-- the smallest unit of its currency. A digit is an ASCII digit.
pub mod Value
use relay_settlement.Common.{
  ℕ, zero, suc, ◌+◌, ◌-◌, List, [], ◌∷◌, ◌++◌, Bool, true, false, not, ◌&&◌, Option, none, some,
  Result, ok, err, and_then, or_throw, length, get_elem?, ltb, leb, ◌==◌, equal_bytes,
  if◌then◌else◌,
}
use relay_settlement.Host.{natural_big_int, Text, Host}

pub data AmountError : Type 0 where
  not_a_decimal too_many_decimals bad_big_int decimals_missing : AmountError

abbrev pub is_digit : ℕ → Bool
is_digit c = leb b'0' c && leb c b'9'

abbrev pub all_digits : Text → Bool
all_digits [] = true
all_digits (c ∷ cs) = is_digit c && all_digits cs

-- One digit or more.
abbrev pub some_digits : Text → Bool
some_digits [] = false
some_digits (c ∷ cs) = all_digits (c ∷ cs)

-- The text before its first dot, and what follows that dot.
unfoldable pub before_dot : Text → Text
before_dot [] = []
before_dot (c ∷ cs) = let rest = before_dot cs in if c == b'.' then [] else c ∷ rest

unfoldable pub after_dot : Text → Option Text
after_dot [] = none
after_dot (c ∷ cs) = let rest = after_dot cs in if c == b'.' then some cs else rest

abbrev pub fraction : Option Text → Text
fraction none = []
fraction (some f) = f

abbrev pub fraction_fits : Option Text → Bool
fraction_fits none = true
fraction_fits (some f) = some_digits f

-- `/^\d+(\.\d+)?$/`.
unfoldable pub is_unsigned_decimal : Text → Bool
unfolding before_dot after_dot
is_unsigned_decimal t = some_digits (before_dot t) && fraction_fits (after_dot t)

unfoldable pub zero_digits : ℕ → Text
zero_digits zero = []
zero_digits (suc n) = b'0' ∷ zero_digits n

-- `text.padEnd(length, "0")`.
unfoldable pub pad_end : Text → ℕ → Text
unfolding zero_digits
pad_end t n = t ++ zero_digits (n - length t)

unfoldable pub raw_amount : Host → Text → ℕ → Result AmountError ℕ
unfolding is_unsigned_decimal before_dot after_dot pad_end
raw_amount host decimal decimals =
    if not (is_unsigned_decimal decimal)
    then err not_a_decimal
    else let frac = fraction (after_dot decimal) in
      if ltb decimals (length frac)
      then err too_many_decimals
      else or_throw bad_big_int (natural_big_int host (before_dot decimal ++ pad_end frac decimals))

pub record Currency : Type 0 where
  pub chain_id : Text
  pub currency : Text

-- `findIndex`, from an index on.
unfoldable pub find_index : (Currency → Bool) → ℕ → List Currency → Option ℕ
find_index p i [] = none
find_index p i (c ∷ cs) = let rest = find_index p (suc i) cs in if p c then some i else rest

-- The decimals in the prices, at the index of the input's currency.
unfoldable pub input_currency_decimals :
    Host → List Currency → List ℕ → Text → Text → Result AmountError ℕ
unfolding find_index
input_currency_decimals host currencies prices chain_id currency =
    and_then
      (or_throw decimals_missing (
        find_index
          (λ c.
            equal_bytes c.chain_id chain_id
            && equal_bytes (host.to_lower_case c.currency) (host.to_lower_case currency))
          0 currencies))
      λ i. or_throw decimals_missing (get_elem? prices i)
