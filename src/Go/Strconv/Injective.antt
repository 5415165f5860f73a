-- ===== src/Go/Strconv/Injective.antt =====
-- Two integers with one decimal print are equal, and the print holds digits and a sign only.
use mathlib.Core.List.{foldl}
use cindex.Prelude.{
  ℕ, zero, suc, ◌+◌, ◌-◌, ◌*◌, ◌/◌, ◌%◌, ◌≤◌, ◌<◌, ◌≡◌, ◌≢◌, ap, sym, ◌∙◌, [], ◌∷◌, arith, Text,
  All,
}
use cindex.Prelude.Int.{ℤ, pos, negsuc}
use cindex.Go.Strconv.{digits, itoa_ℕ, itoa}

abbrev pub value : ℕ → Text → ℕ
value = foldl (λ n c. n * 10 + (c - 48))

value-digits : (f n : ℕ) (out : Text) → n < f → value 0 (digits f n out) ≡ value n out
unfolding digits
value-digits zero n out h = elim h [ ]
value-digits (suc f) n out h =
    let step : n / 10 * 10 + (48 + n % 10 - 48) ≡ n = omega arith in
    ground (arith, step, ap (λ m. value m out) step, value-digits f (n / 10) ((48 + n % 10) ∷ out))

pub value-itoa_ℕ : (n : ℕ) → value 0 (itoa_ℕ n) ≡ n
unfolding itoa_ℕ
value-itoa_ℕ n = value-digits (suc n) n [] (omega arith)

abbrev pub IsDigit : ℕ → Type 0
IsDigit c = (48 ≤ c) × (c ≤ 57)

digits-IsDigit : (f n : ℕ) (out : Text) → All IsDigit out → All IsDigit (digits f n out)
unfolding digits
digits-IsDigit zero n out h = h
digits-IsDigit (suc f) n out h = ground (arith, digits-IsDigit f (n / 10) ((48 + n % 10) ∷ out))

pub itoa_ℕ-IsDigit : (n : ℕ) → All IsDigit (itoa_ℕ n)
unfolding itoa_ℕ
itoa_ℕ-IsDigit n = digits-IsDigit (suc n) n [] tt

digits-ne-nil : (f n : ℕ) (out : Text) → out ≢ [] → digits f n out ≢ []
unfolding digits
digits-ne-nil zero n out h = h
digits-ne-nil (suc f) n out h = ground (arith, digits-ne-nil f (n / 10) ((48 + n % 10) ∷ out))

itoa_ℕ-ne-nil : (n : ℕ) → itoa_ℕ n ≢ []
unfolding itoa_ℕ
itoa_ℕ-ne-nil n = unfold digits in ground (arith, digits-ne-nil n (n / 10) ((48 + n % 10) ∷ []))

pub itoa-ne-nil : (z : ℤ) → itoa z ≢ []
unfolding itoa
itoa-ne-nil (pos n) = itoa_ℕ-ne-nil n
itoa-ne-nil (negsuc n) = ground arith

-- A digit is not a sign.
no_sign : (m : ℕ) (s : Text) → itoa_ℕ m ≢ 45 ∷ s
no_sign m s e = let h : All IsDigit (45 ∷ s) = rw e at (itoa_ℕ-IsDigit m) in absurd (omega arith)

itoa_ℕ_injective : (m n : ℕ) → itoa_ℕ m ≡ itoa_ℕ n → m ≡ n
itoa_ℕ_injective m n e = sym (value-itoa_ℕ m) ∙ ap (value 0) e ∙ value-itoa_ℕ n

pub itoa_injective : (y z : ℤ) → itoa y ≡ itoa z → y ≡ z
unfolding itoa
itoa_injective (pos m) (pos n) e = ap pos (itoa_ℕ_injective m n e)
itoa_injective (pos m) (negsuc n) e = absurd (no_sign m (itoa_ℕ (suc n)) e)
itoa_injective (negsuc m) (pos n) e = absurd (no_sign n (itoa_ℕ (suc m)) (sym e))
itoa_injective (negsuc m) (negsuc n) e =
    let tails : itoa_ℕ (suc m) ≡ itoa_ℕ (suc n) = cc in
    let same : suc m ≡ suc n = itoa_ℕ_injective (suc m) (suc n) tails in ap negsuc (omega arith)
