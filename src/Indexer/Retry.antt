-- ===== src/Indexer/Retry.antt =====
-- packages/indexer/src/services/retry.ts. The function that is run gives a result for each attempt;
-- the loop takes fuel, and gives `none` where the fuel does not do. The delays are in milliseconds.
pub mod Attempts
mod Tests
use relay_settlement.Common.{
  ℕ, zero, suc, ◌*◌, ◌^◌, List, [], ◌∷◌, Bool, true, false, not, ◌||◌, Option, none, some, Result,
  ok, err, leb, equal_bytes, if◌then◌else◌,
}
use relay_settlement.Host.{Text, starts_with, includes}

-- What was thrown: a value that is no object, or an object with the fields that are read.
pub data Thrown : Type 0 where
  no_object : Thrown
  thrown_object : Option Text → Option Text → Thrown

abbrev pub retry_max : ℕ
retry_max = 5

abbrev pub serialization_failure : Text
serialization_failure = b'4' ∷ b'0' ∷ b'0' ∷ b'0' ∷ b'1' ∷ []

abbrev pub deadlock_code : Text
deadlock_code = b'4' ∷ b'0' ∷ b'P' ∷ b'0' ∷ b'1' ∷ []

abbrev pub lock_code : Text
lock_code = b'5' ∷ b'5' ∷ b'P' ∷ b'0' ∷ b'3' ∷ []

abbrev pub could_not_serialize : Text
could_not_serialize =
    b'c' ∷ b'o' ∷ b'u' ∷ b'l' ∷ b'd' ∷ b' ' ∷ b'n' ∷ b'o' ∷ b't' ∷ b' ' ∷ b's' ∷ b'e' ∷ b'r' ∷ b'i'
    ∷ b'a' ∷ b'l' ∷ b'i' ∷ b'z' ∷ b'e' ∷ b' ' ∷ b'a' ∷ b'c' ∷ b'c' ∷ b'e' ∷ b's' ∷ b's' ∷ []

abbrev pub deadlock_detected : Text
deadlock_detected =
    b'd' ∷ b'e' ∷ b'a' ∷ b'd' ∷ b'l' ∷ b'o' ∷ b'c' ∷ b'k' ∷ b' ' ∷ b'd' ∷ b'e' ∷ b't' ∷ b'e' ∷ b'c'
    ∷ b't' ∷ b'e' ∷ b'd' ∷ []

abbrev pub lock_not_available : Text
lock_not_available =
    b'l' ∷ b'o' ∷ b'c' ∷ b'k' ∷ b' ' ∷ b'n' ∷ b'o' ∷ b't' ∷ b' ' ∷ b'a' ∷ b'v' ∷ b'a' ∷ b'i' ∷ b'l'
    ∷ b'a' ∷ b'b' ∷ b'l' ∷ b'e' ∷ []

abbrev pub is_retryable_code : Option Text → Bool
is_retryable_code none = false
is_retryable_code (some c) =
    equal_bytes c serialization_failure || (equal_bytes c deadlock_code || equal_bytes c lock_code)

abbrev pub lowered_message : (Text → Text) → Option Text → Text
lowered_message to_lower_case none = []
lowered_message to_lower_case (some m) = to_lower_case m

module _ (to_lower_case : Text → Text) where
  unfoldable pub is_retryable_pg_error : Thrown → Bool
  unfolding includes
  is_retryable_pg_error no_object = false
  is_retryable_pg_error (thrown_object code message) =
      let lowered = lowered_message to_lower_case message in
      is_retryable_code code
      || (includes lowered could_not_serialize
          || (includes lowered deadlock_detected || includes lowered lock_not_available))

  -- The result and the delays before it, from an attempt on.
  unfoldable pub run_from :
      {A : Type 0} → ℕ → (ℕ → Result Thrown A) → ℕ → Option (Result Thrown A × List ℕ)
  unfolding is_retryable_pg_error
  run_from zero fn attempt = none
  run_from (suc fuel) fn attempt =
      let rest = run_from fuel fn (suc attempt) in
      elim (fn attempt) [
        | ok a ↦ some (ok a, [])
        | err e ↦
            if not (is_retryable_pg_error e) || leb retry_max attempt
            then some (err e, [])
            else elim rest [
              | none ↦ none
              | some (result, delays) ↦ some (result, (200 * 2 ^ attempt) ∷ delays)
            ]
      ]

  unfoldable pub run_with_retry :
      {A : Type 0} → (ℕ → Result Thrown A) → Option (Result Thrown A × List ℕ)
  unfolding run_from
  run_with_retry fn = run_from 6 fn 0
