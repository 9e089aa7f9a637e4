-- ===== src/Common/Doubles.antt =====
-- JavaScript numbers that are whole and not negative: a sum of two of them is rounded to the nearest
-- double, a tie to the one whose last bit is 0.
use mathlib.Core.Path.{◌≡◌}
use native.Mathlib.Omega.{arith}
use Prim.Native.Nat.{ℕ, zero, suc, ◌+◌, ◌*◌, ◌/◌, ◌%◌, ◌^◌, ◌≤◌}
use relay_settlement.Common.Tests.{ltb, leb, ◌==◌, if◌then◌else◌}

-- Up to this number, 2 to the power 53, every number is a double.
abbrev pub exact_limit : ℕ
exact_limit = 9007199254740992

-- The multiple of `unit` that is nearest to `n`.
nearest : ℕ → ℕ → ℕ
nearest unit n =
    let low = n / unit * unit in
    let high = low + unit in
    if ltb (2 * (n % unit)) unit
    then low
    else if ltb unit (2 * (n % unit))
    then high
    else if n / unit % 2 == 0
    then low
    else high

-- The unit is doubled until 53 bits are enough; what is past the largest double is infinite, which
-- stands here as 2 to the power 1024.
rounded_from : ℕ → ℕ → ℕ → ℕ
unfolding nearest
rounded_from zero unit n = 2 ^ 1024
rounded_from (suc fuel) unit n =
    let rest = rounded_from fuel (2 * unit) n in
    if leb n (exact_limit * unit) then nearest unit n else rest

unfoldable pub rounded : ℕ → ℕ
unfolding rounded_from
rounded n = rounded_from 972 1 n

nearest_one : (n : ℕ) → nearest 1 n ≡ n
unfolding nearest
nearest_one n = ground arith

rounded_from-small : (fuel n : ℕ) → n ≤ exact_limit → rounded_from (suc fuel) 1 n ≡ n
unfolding rounded_from
rounded_from-small fuel n h = ground (arith, nearest_one n)

pub rounded-exact : (n : ℕ) → n ≤ exact_limit → rounded n ≡ n
unfolding rounded
rounded-exact n h = rounded_from-small 971 n h
