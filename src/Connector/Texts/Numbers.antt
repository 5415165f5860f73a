-- ===== src/Connector/Texts/Numbers.antt =====
-- `ToInt` (connector/text.go) reads back what strconv.Itoa prints.
use cindex.Prelude.{
  ℕ, ◌+◌, ◌-◌, ◌*◌, ◌%◌, ◌<◌, ◌≡◌, refl, ap, ◌∙◌, true, [], ◌∷◌, Text, All, ltb, arith,
}
use cindex.Prelude.Int.{pos}
use cindex.Go.Ints.{word, signed}
use cindex.Go.Strconv.{itoa_ℕ, itoa}
use cindex.Go.Strconv.Injective.{value, value-itoa_ℕ, IsDigit, itoa_ℕ-IsDigit}
use cindex.Connector.Texts.{is_digit, to_int_from, to_int}

is_digit-IsDigit : (c : ℕ) → IsDigit c → is_digit c ≡ true
unfolding is_digit
is_digit-IsDigit c h = ground (arith, h)

step-mod : (n d : ℕ) → (n % word * 10 + d) % word ≡ (n * 10 + d) % word
step-mod n d = omega arith

-- The loop on digits, for any number of bits.
to_int_from-value :
    (n : ℕ) (s : Text) → All IsDigit s → to_int_from (n % word) s ≡ signed (value n s % word)
unfolding to_int_from
to_int_from-value n [] h = refl
to_int_from-value n (c ∷ s) (p, h) =
    rw (is_digit-IsDigit c p)
      (ap (λ m. to_int_from m s) (step-mod n (c - 48)) ∙ to_int_from-value (n * 10 + (c - 48)) s h)

small : (n : ℕ) → n < 9223372036854775808 → n % word ≡ n
small n h = omega (arith, h)

ltb-eq-true : (n : ℕ) → n < 9223372036854775808 → ltb n 9223372036854775808 ≡ true
ltb-eq-true n h = ground (arith, h)

signed-lem : (n : ℕ) → n < 9223372036854775808 → signed (n % word) ≡ pos n
unfolding signed
signed-lem n h = rw (small n h, ltb-eq-true n h) refl

-- An int that is not negative is read back from its print.
pub to_int-itoa : (n : ℕ) → n < 9223372036854775808 → to_int (itoa (pos n)) ≡ pos n
unfolding to_int itoa
to_int-itoa n h =
    to_int_from-value 0 (itoa_ℕ n) (itoa_ℕ-IsDigit n)
    ∙ ap (λ m. signed (m % word)) (value-itoa_ℕ n)
    ∙ signed-lem n h
