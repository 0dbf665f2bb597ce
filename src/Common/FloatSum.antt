-- ===== src/Common/FloatSum.antt =====
-- Addition and halving of float64 values, rounded to the nearest with ties to even.
use Prim.Native.Nat.{ℕ, zero, suc, ◌+◌, ◌-◌, ◌*◌, ◌/◌, ◌%◌, ◌^◌}
use mathlib.Core.Bool.{Bool, not, ◌&&◌, ◌||◌}
use kube_diagnose.Common.Numbers.{ltb, leb, ◌==◌, if◌then◌else◌}
use kube_diagnose.Common.Float.{Float64, sign_bit, magnitude, is_negative, is_nan}

abbrev pub infinity : ℕ
infinity = 0x7FF0000000000000

abbrev nan : Float64
nan = 0x7FF8000000000000

-- A finite magnitude in units of the least float64 above zero.
units : ℕ → ℕ
units m =
    let e = m / 0x10000000000000 in
    let f = m % 0x10000000000000 in if e == 0 then f else (0x10000000000000 + f) * 2 ^ (e - 1)

-- The magnitude of a number of units: `k` bits are dropped so that 53 are left. A float64 has
-- fewer than 2100 bits of units.
rounded : ℕ → ℕ → ℕ → ℕ
rounded zero k n = infinity
rounded (suc fuel) k n =
    let more = rounded fuel (k + 1) n in
    let q = n / 2 ^ k in
    let r = n % 2 ^ k in
    let half = 2 ^ k / 2 in
    let up = if ltb half r || (r == half && (ltb 0 k && q % 2 == 1)) then 1 else 0 in
    if ltb q 0x20000000000000 then k * 0x10000000000000 + q + up else more

signed : Bool → ℕ → Float64
signed negative m = if negative then sign_bit + m else m

encode : Bool → ℕ → Float64
unfolding rounded signed
encode negative n =
    let m = rounded 2100 0 n in signed negative (if ltb m infinity then m else infinity)

finite_sum : Float64 → Float64 → Float64
unfolding units encode signed
finite_sum x y =
    let a = units (magnitude x) in
    let b = units (magnitude y) in
    if (if is_negative x then is_negative y else not (is_negative y))
    then encode (is_negative x) (a + b)
    else if ltb b a
    then encode (is_negative x) (a - b)
    else if ltb a b
    then encode (is_negative y) (b - a)
    else 0

-- `x + y`
unfoldable pub float_add : Float64 → Float64 → Float64
unfolding finite_sum
float_add x y =
    if is_nan x || is_nan y
    then nan
    else if leb infinity (magnitude x)
    then (if leb infinity (magnitude y) then (if x == y then x else nan) else x)
    else if leb infinity (magnitude y)
    then y
    else finite_sum x y

-- `x / 2.0`: an odd number of units is halved to the even neighbour.
unfoldable pub float_half : Float64 → Float64
unfolding units encode signed
float_half x =
    let n = units (magnitude x) in
    let q = n / 2 in
    if leb infinity (magnitude x)
    then x
    else encode (is_negative x) (if n % 2 == 1 then q + q % 2 else q)
