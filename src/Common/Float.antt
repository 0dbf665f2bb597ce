-- ===== src/Common/Float.antt =====
-- float64 values as their 64 bits (IEEE 754), with the comparisons that Go's `<`, `<=` make.
use Prim.Native.Nat.{ℕ, zero, suc, ◌+◌, ◌-◌, ◌*◌, ◌/◌, ◌%◌}
use mathlib.Core.Path.{◌≡◌}
use native.Mathlib.Omega.{arith}
use mathlib.Core.Bool.{Bool, false, not, ◌&&◌, ◌||◌}
use kube_diagnose.Common.Numbers.{ltb, leb, ◌==◌, if◌then◌else◌}

-- The bit pattern: sign, eleven bits of exponent, fifty-two of fraction.
abbrev pub Float64 : Type 0
Float64 = ℕ

abbrev pub sign_bit : ℕ
sign_bit = 0x8000000000000000

abbrev pub magnitude : Float64 → ℕ
magnitude x = x % 0x8000000000000000

abbrev pub is_negative : Float64 → Bool
is_negative x = leb 0x8000000000000000 x

abbrev pub is_nan : Float64 → Bool
is_nan x = ltb 0x7FF0000000000000 (magnitude x)

-- The order of two patterns that are no NaN; the two zeros are equal.
abbrev pub numeric_lt : Float64 → Float64 → Bool
numeric_lt x y =
    if is_negative x
    then if is_negative y
      then ltb (magnitude y) (magnitude x)
      else not (magnitude x == 0 && magnitude y == 0)
    else if is_negative y
    then false
    else ltb (magnitude x) (magnitude y)

-- `x < y`: false when one of them is NaN.
unfoldable pub float_lt : Float64 → Float64 → Bool
float_lt x y = not (is_nan x) && (not (is_nan y) && numeric_lt x y)

-- `x <= y`: false when one of them is NaN.
unfoldable pub float_le : Float64 → Float64 → Bool
float_le x y = not (is_nan x) && (not (is_nan y) && not (numeric_lt y x))

abbrev pub float_zero : Float64
float_zero = 0

abbrev pub float_one : Float64
float_one = 0x3FF0000000000000

-- `float64(n) / float64(d)`, rounded to the nearest pattern with ties to even, for n < 2 ^ 53 and
-- 0 < d < 2 ^ 10: the numerator is doubled until the quotient has its 53 bits, which takes at
-- most 62 rounds.
scale : ℕ → ℕ → ℕ → ℕ → Float64
scale zero k n d = 0
scale (suc fuel) k n d =
    let more = scale fuel (k + 1) (n * 2) d in
    let q = n / d in
    let r = n % d in
    let up = if ltb d (2 * r) || (2 * r == d && q % 2 == 1) then 1 else 0 in
    if ltb q 0x10000000000000 then more else (1074 - k) * 0x10000000000000 + q + up

unfoldable pub float_ratio : ℕ → ℕ → Float64
unfolding scale
float_ratio n d = if n == 0 then 0 else scale 64 0 n d

pub float_lt_irrefl : (x : Float64) → float_lt x x ≡ false
unfolding float_lt
float_lt_irrefl x = ground arith
