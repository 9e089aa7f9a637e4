-- ===== src/Indexer/Ranges.antt =====
-- `isGetLogsResponseTooLargeError` and `getTransferLogsWithSplit` of
-- packages/indexer/src/services/transferReplay.ts: the logs of a range of blocks, in halves where
-- the provider refuses the whole and by pages where it refuses one block. The provider's two calls
-- are parameters, at the hub's address and topic. A half is smaller than its range, or it is the
-- range again, where doubles are too coarse, and the code goes on for ever: fuel for as many blocks
-- as there are runs out in that case only. The pages have fuel too.
pub mod Complete
use relay_settlement.Common.{
  ℕ, zero, suc, ◌+◌, ◌/◌, ◌≡◌, List, [], ◌∷◌, ◌++◌, Bool, true, false, not, ◌||◌, Option, none,
  some, Result, ok, err, and_then, any, leb, ◌==◌, if◌then◌else◌,
}
use relay_settlement.Common.Doubles.{rounded}
use relay_settlement.Common.Int.{ℤ, pos, negsuc}
use relay_settlement.Host.{Text, starts_with, includes}

pub record IndexedLog : Type 0 where
  pub block_number : ℕ
  pub transaction_hash : Text
  pub index : ℕ
  pub topics : List Text
  pub contents : Text

-- What was thrown: something that is no object, or an object with its code, if that is a number, the
-- texts among `message`, `shortMessage` and `reason`, and the field `error`.
pub data ReadError : Type 0 where
  plain : ReadError
  object : Option ℤ → List Text → ReadError → ReadError

abbrev pub size_message : Text
size_message =
    b'R' ∷ b'e' ∷ b's' ∷ b'p' ∷ b'o' ∷ b'n' ∷ b's' ∷ b'e' ∷ b' ' ∷ b's' ∷ b'i' ∷ b'z' ∷ b'e' ∷ b' '
    ∷ b'e' ∷ b'x' ∷ b'c' ∷ b'e' ∷ b'e' ∷ b'd' ∷ b's' ∷ b' ' ∷ b'l' ∷ b'i' ∷ b'm' ∷ b'i' ∷ b't' ∷ []

-- The code -32005.
abbrev pub is_limit_code : Option ℤ → Bool
is_limit_code (some (negsuc n)) = n == 32004
is_limit_code _ = false

unfoldable pub is_get_logs_response_too_large_error : ReadError → Bool
unfolding includes
is_get_logs_response_too_large_error plain = false
is_get_logs_response_too_large_error (object code messages inner) =
    (is_limit_code code || any (λ m. includes m size_message) messages)
    || is_get_logs_response_too_large_error inner

pub record Page : Type 0 where
  pub cursor : Option Text
  pub logs : List IndexedLog

pub record Provider : Type 0 where
  pub get_logs : ℕ → ℕ → Result ReadError (List IndexedLog)
  pub get_logs_with_cursor : ℕ → ℕ → Option Text → Result ReadError Page

pub data ReadFault : Type 0 where
  thrown : ReadError → ReadFault
  out_of_fuel : ReadFault

abbrev pub rethrown {ℓ} : {A : Type ℓ} → Result ReadError A → Result ReadFault A
rethrown (ok a) = ok a
rethrown (err e) = err (thrown e)

-- The cursor with which the loop goes on: an empty text ends it as well as none.
abbrev pub next_cursor : Option Text → Option Text
next_cursor none = none
next_cursor (some []) = none
next_cursor (some (c ∷ cs)) = some (c ∷ cs)

module _ (provider : Provider) where
  unfoldable pub fetch_logs_with_cursor :
      ℕ → ℕ → ℕ → Option Text → Result ReadFault (List IndexedLog)
  fetch_logs_with_cursor zero from to cursor = err out_of_fuel
  fetch_logs_with_cursor (suc pages) from to cursor =
      and_then (rethrown (provider.get_logs_with_cursor from to cursor)) λ page.
        elim (next_cursor page.cursor) [
          | none ↦ ok page.logs
          | some c ↦
              and_then (fetch_logs_with_cursor pages from to (some c))
                λ rest. ok (page.logs ++ rest)
        ]

  unfoldable pub get_transfer_logs_with_split : ℕ → ℕ → ℕ → ℕ → Result ReadFault (List IndexedLog)
  unfolding is_get_logs_response_too_large_error fetch_logs_with_cursor
  get_transfer_logs_with_split zero pages from to = err out_of_fuel
  get_transfer_logs_with_split (suc fuel) pages from to =
      let midpoint = rounded (from + to) / 2 in
      let left = get_transfer_logs_with_split fuel pages from midpoint in
      let right = get_transfer_logs_with_split fuel pages (rounded (midpoint + 1)) to in
      elim (provider.get_logs from to) [
        | ok logs ↦ ok logs
        | err e ↦
            if not (is_get_logs_response_too_large_error e)
            then err (thrown e)
            else if leb to from
            then fetch_logs_with_cursor pages from to none
            else and_then left λ ls. and_then right λ rs. ok (ls ++ rs)
      ]
