-- ===== src/Go/Strconv.antt =====
-- Package strconv: Itoa.
pub mod Injective
use cindex.Prelude.{ℕ, zero, suc, ◌+◌, ◌/◌, ◌%◌, [], ◌∷◌, ltb, if◌then◌else◌, Text}
use cindex.Prelude.Int.{ℤ, pos, negsuc}

-- The digits of `n` in front of `out`. The fuel bounds the rounds; `n + 1` is enough.
digits : ℕ → ℕ → Text → Text
digits zero n out = out
digits (suc f) n out =
    let longer = (48 + n % 10) ∷ out in
    let rest = digits f (n / 10) longer in if ltb n 10 then longer else rest

unfoldable pub itoa_ℕ : ℕ → Text
unfolding digits
itoa_ℕ n = digits (suc n) n []

-- strconv.Itoa
unfoldable pub itoa : ℤ → Text
unfolding itoa_ℕ
itoa (pos n) = itoa_ℕ n
itoa (negsuc n) = 45 ∷ itoa_ℕ (suc n)
