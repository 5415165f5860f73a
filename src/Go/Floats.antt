-- ===== src/Go/Floats.antt =====
-- float64 of Go for numbers that are not negative: each conversion and each operation gives the nearest
-- number with 53 bits, a tie goes to the even one. No exponent gets out of range here.
pub mod Ceil
use cindex.Prelude.{ℕ, zero, suc, ◌+◌, ◌-◌, ◌*◌, ◌/◌, ◌%◌, ltb, ◌==◌, if◌then◌else◌}

-- The number is numerator / denominator; the denominator is a power of 2.
pub record Float64 : Type 0 where
  pub numerator : ℕ
  pub denominator : ℕ

-- 2^53
abbrev pub mantissas : ℕ
mantissas = 9007199254740992

-- The whole number that is nearest to a / b.
unfoldable pub nearest : ℕ → ℕ → ℕ
nearest a b =
    let q = a / b in
    let r = a % b in
    if ltb (r + r) b then q else if ltb b (r + r) then suc q else if q % 2 == 0 then q else suc q

-- The smallest power of 2 by which a / b is divided to be below 2^53.
unfoldable pub coarse : ℕ → ℕ → ℕ → ℕ
coarse zero a b = 1
coarse (suc fuel) a b =
    let rest = coarse fuel a (b + b) in if ltb a (mantissas * b) then 1 else 2 * rest

-- The greatest power of 2 by which a / b can be multiplied and stay below 2^53.
unfoldable pub fine : ℕ → ℕ → ℕ → ℕ
fine zero a b = 1
fine (suc fuel) a b =
    let rest = fine fuel (a + a) b in if ltb (a + a) (mantissas * b) then 2 * rest else 1

-- The float64 of a / b, where the steps are enough.
unfoldable pub rounded : ℕ → ℕ → ℕ → Float64
unfolding nearest coarse fine
rounded fuel a b =
    let up = coarse fuel a b in
    let down = fine fuel a b in
    record { numerator = nearest (a * down) (b * up) * up; denominator = down }

-- 128 steps are enough where a and b are below 2^64.
unfoldable pub round : ℕ → ℕ → Float64
unfolding rounded
round a b = rounded 128 a b

-- float64(n)
unfoldable pub float : ℕ → Float64
unfolding round
float n = round n 1

-- x / y for y above 0.
unfoldable pub div : Float64 → Float64 → Float64
unfolding round
div x y = round (x.numerator * y.denominator) (x.denominator * y.numerator)

-- int(math.Ceil(x))
unfoldable pub ceil : Float64 → ℕ
ceil x = (x.numerator + (x.denominator - 1)) / x.denominator
