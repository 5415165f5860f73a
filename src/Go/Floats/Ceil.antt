-- ===== src/Go/Floats/Ceil.antt =====
-- A quotient of small numbers, rounded to a float64 and then up, is the quotient rounded up.
use native.Mathlib.Nat.{
  mod-lt, mod-add-div', mul-le-mul, mul-le-mul_left, mul-le-mul_right, div-eq_of_lt-le,
  le-div_iff_mul-le, le_of_mul-le-mul_right, lt_of_mul-lt-mul_right, mul-lt-mul_of_pos_right,
  div-lt_iff_lt-mul,
}
use cindex.Prelude.{
  ℕ, zero, suc, ◌+◌, ◌-◌, ◌*◌, ◌/◌, ◌%◌, ◌≤◌, ◌<◌, ◌≡◌, ◌⊎◌, inl, inr, refl, ap, sym, ◌∙◌, arith,
  ltb, true, ◌==◌, Bool-cases,
}
use cindex.Go.Floats.{Float64, mantissas, nearest, coarse, fine, rounded, round, float, div, ceil}

-- The nearest whole number is the quotient or the next one.
nearest-cases :
    (a b : ℕ)
    → ((nearest a b ≡ a / b) × (a % b + a % b ≤ b))
      ⊎ ((nearest a b ≡ suc (a / b)) × (b ≤ a % b + a % b))
unfolding nearest
nearest-cases a b = elim (Bool-cases (ltb (a % b + a % b) b)) [
  | inl low ↦ inl (rw low refl, ground (arith, low))
  | inr mid ↦ elim (Bool-cases (ltb b (a % b + a % b))) [
    | inl high ↦ inr (rw (mid, high) refl, ground (arith, high))
    | inr tie ↦ elim (Bool-cases (a / b % 2 == 0)) [
      | inl even ↦ inl (rw (mid, tie, even) refl, ground (arith, tie))
      | inr odd ↦ inr (rw (mid, tie, odd) refl, ground (arith, mid))
    ]
  ]
]

-- Bounds of the nearest whole number.
nearest-low : (a b k : ℕ) → 0 < b → k * b ≤ a → k ≤ nearest a b
nearest-low a b k h le =
    let q : k ≤ a / b = (le-div_iff_mul-le h).1 le in
    elim (nearest-cases a b) [ inl (e, _) ↦ omega (arith, e, q) | inr (e, _) ↦ omega (arith, e, q) ]

nearest-high : (a b k : ℕ) → 0 < b → a ≤ k * b → nearest a b ≤ k
nearest-high a b k h le = elim (nearest-cases a b) [
  | inl (e, _) ↦
      rw e
        (let q : a / b < k + 1 = (div-lt_iff_lt-mul h).1 (omega (arith, le, h)) in omega (arith, q))
  | inr (e, half) ↦ rw e (
      let q : a / b < k = lt_of_mul-lt-mul_right b (omega (arith, mod-add-div' a b, le, h, half)) in
      omega (arith, q))
]

nearest-above : (a b k r : ℕ) → 0 < b → k * b + r ≤ a → b < r + r → suc k ≤ nearest a b
nearest-above a b k r h le big = elim (nearest-cases a b) [
  | inr (e, _) ↦
      let q : k ≤ a / b = (le-div_iff_mul-le h).1 (omega (arith, le)) in omega (arith, e, q)
  | inl (e, half) ↦ elim (Bool-cases (ltb k (a / b))) [
    | inl above ↦ rw e (ground (arith, above))
    | inr below ↦
        let q : a / b * b ≤ k * b = mul-le-mul_right b (ground (arith, below)) in
        absurd (omega (arith, mod-add-div' a b, q, le, big, half))
  ]
]

-- Unless its steps run out, the greatest power is beyond half of the bound.
fine-cases : (fuel a b : ℕ) → (fuel < fine fuel a b) ⊎ (mantissas * b ≤ 2 * (a * fine fuel a b))
unfolding fine
fine-cases zero a b = inl (omega arith)
fine-cases (suc fuel) a b = elim (Bool-cases (ltb (a + a) (mantissas * b))) [
  | inl small ↦ elim (fine-cases fuel (a + a) b) [
    | inl out ↦ inl (rw small (omega (arith, out)))
    | inr full ↦ inr (rw small (omega (arith, full)))
  ]
  | inr large ↦ inr (rw large (ground (arith, large)))
]

fine_pos : (fuel a b : ℕ) → 1 ≤ fine fuel a b
unfolding fine
fine_pos zero a b = omega arith
fine_pos (suc fuel) a b = elim (Bool-cases (ltb (a + a) (mantissas * b))) [
  | inl small ↦ rw small (omega (arith, fine_pos fuel (a + a) b))
  | inr large ↦ rw large (omega arith)
]

coarse-one : (fuel a b : ℕ) → a < mantissas * b → coarse fuel a b ≡ 1
unfolding coarse
coarse-one zero a b h = refl
coarse-one (suc fuel) a b h =
    let small : ltb a (mantissas * b) ≡ true = ground arith in rw small refl

module _ (n m p w : ℕ) (low : 1 ≤ m) (pos : 1 ≤ p) (wide : m < w + w) where
  -- The quotient, or the next one where it is not whole.
  up_from_whole : n % m ≡ 0 → (n + (m - 1)) / m ≡ n / m
  up_from_whole whole =
      div-eq_of_lt-le m (omega (arith, mod-add-div' n m))
        (omega (arith, mod-add-div' n m, whole, low))

  up_from_part : 1 ≤ n % m → (n + (m - 1)) / m ≡ n / m + 1
  up_from_part part =
      div-eq_of_lt-le m (omega (arith, mod-add-div' n m, part, low))
        (omega (arith, mod-add-div' n m, mod-lt n low, low))

  b_pos : 0 < m * p
  b_pos = mul-le-mul low pos

  times_w : n * p * w ≡ n / m * w * (m * p) + n % m * (p * w)
  times_w = ap (λ i. i * p * w) (sym (mod-add-div' n m)) ∙ omega arith

  nearest-whole : n % m ≡ 0 → nearest (n * p * w) (m * p) ≡ n / m * w
  nearest-whole whole =
      let none_left : n % m * (p * w) ≡ 0 = ap (λ r. r * (p * w)) whole ∙ omega arith in
      omega (
        arith,
        nearest-low (n * p * w) (m * p) (n / m * w) b_pos (omega (arith, times_w)),
        nearest-high (n * p * w) (m * p) (n / m * w) b_pos (omega (arith, times_w, none_left)),
      )

  nearest-part :
      1 ≤ n % m
      → (suc (n / m * w) ≤ nearest (n * p * w) (m * p))
        × (nearest (n * p * w) (m * p) ≤ (n / m + 1) * w)
  nearest-part part =
      let over : m * p < (w + w) * p = mul-lt-mul_of_pos_right wide pos in
      let one : 1 * (p * w) ≤ n % m * (p * w) = mul-le-mul_right (p * w) part in
      let all : n % m * (p * w) ≤ m * (p * w) =
        mul-le-mul_right (p * w) (omega (arith, mod-lt n low)) in
      (
        nearest-above (n * p * w) (m * p) (n / m * w) (n % m * (p * w)) b_pos
            (omega (arith, times_w)) (omega (arith, over, one)),
        nearest-high (n * p * w) (m * p) ((n / m + 1) * w) b_pos (omega (arith, times_w, all)),
      )

  ceil-nearest : (nearest (n * p * w) (m * p) + (w - 1)) / w ≡ (n + (m - 1)) / m
  ceil-nearest = elim (Bool-cases (ltb 0 (n % m))) [
    | inl part ↦
        let (least, most) = nearest-part (ground (arith, part)) in
        div-eq_of_lt-le w (omega (arith, least, wide)) (omega (arith, most, wide))
        ∙ sym (up_from_part (ground (arith, part)))
    | inr whole ↦
        let exact = nearest-whole (ground (arith, whole)) in
        div-eq_of_lt-le w (omega (arith, exact, wide)) (omega (arith, exact, wide, low))
        ∙ sym (up_from_whole (ground (arith, whole)))
  ]

module _ (fuel n m p : ℕ) (few : n < mantissas) (low : 1 ≤ m) (high : m ≤ fuel) (pos : 1 ≤ p) where
  small : n * p < mantissas * (m * p)
  small =
      let below : n * p < mantissas * p = mul-lt-mul_of_pos_right few pos in
      let more : 1 * p ≤ m * p = mul-le-mul_right p low in omega (arith, below, more)

  enough : m < fine fuel (n * p) (m * p) + fine fuel (n * p) (m * p)
  enough =
      let w = fine fuel (n * p) (m * p) in
      elim (fine-cases fuel (n * p) (m * p)) [
        | inl out ↦ omega (arith, out, high)
        | inr full ↦
            let bound : mantissas * m ≤ n * (w + w) =
              le_of_mul-le-mul_right (omega (arith, full)) pos in
            let over : n * m < mantissas * m = mul-lt-mul_of_pos_right few low in
            elim (Bool-cases (ltb m (w + w))) [
              | inl fits ↦ ground (arith, fits)
              | inr short ↦
                  let less : n * (w + w) ≤ n * m = mul-le-mul_left n (ground (arith, short)) in
                  absurd (omega (arith, bound, over, less))
            ]
      ]

  -- The quotient of n and m, both times a common factor, rounded and then rounded up.
  ceil-rounded : ceil (rounded fuel (n * p) (m * p)) ≡ (n + (m - 1)) / m
  unfolding ceil rounded
  ceil-rounded =
      let w = fine fuel (n * p) (m * p) in
      let one = coarse-one fuel (n * p) (m * p) small in
      let same : m * p * coarse fuel (n * p) (m * p) ≡ m * p =
        ap (λ u. m * p * u) one ∙ omega arith in
      ap (λ u. (nearest (n * p * w) (m * p * coarse fuel (n * p) (m * p)) * u + (w - 1)) / w) one
      ∙ ap (λ b. (nearest (n * p * w) b * 1 + (w - 1)) / w) same
      ∙ ap (λ k. (k + (w - 1)) / w) {x = nearest (n * p * w) (m * p) * 1}
          {y = nearest (n * p * w) (m * p)} (omega arith)
      ∙ ceil-nearest n m p w low pos enough

-- A number below 2^53 is a float64.
rounded-exact :
    (fuel n : ℕ) → n < mantissas → (rounded fuel n 1).numerator ≡ n * (rounded fuel n 1).denominator
unfolding rounded
rounded-exact fuel n few =
    let w = fine fuel n 1 in
    let one = coarse-one fuel n 1 (omega (arith, few)) in
    ap (λ u. nearest (n * w) (1 * u) * u) one
    ∙ omega (
      arith,
      nearest-low (n * w) 1 (n * w) (omega arith) (omega arith),
      nearest-high (n * w) 1 (n * w) (omega arith) (omega arith),
    )

rounded_pos : (fuel n : ℕ) → 1 ≤ (rounded fuel n 1).denominator
unfolding rounded
rounded_pos fuel n = fine_pos fuel n 1

ceil-rounded_of :
    (fuel n m : ℕ) (x y : Float64)
    → n < mantissas
    → 1 ≤ m
    → m ≤ fuel
    → x.numerator ≡ n * x.denominator
    → y.numerator ≡ m * y.denominator
    → 1 ≤ x.denominator
    → 1 ≤ y.denominator
    → ceil (rounded fuel (x.numerator * y.denominator) (x.denominator * y.numerator))
      ≡ (n + (m - 1)) / m
ceil-rounded_of fuel n m x y few low high e f px py =
    let p = x.denominator * y.denominator in
    let above : x.numerator * y.denominator ≡ n * p = ap (λ k. k * y.denominator) e ∙ omega arith in
    let below : x.denominator * y.numerator ≡ m * p = ap (λ k. x.denominator * k) f ∙ omega arith in
    ap (λ a. ceil (rounded fuel a (x.denominator * y.numerator))) above
    ∙ ap (λ b. ceil (rounded fuel (n * p) b)) below
    ∙ ceil-rounded fuel n m p few low high (mul-le-mul px py)

-- int(math.Ceil(float64(n) / float64(m))) is the quotient rounded up.
pub ceil-div :
    (n m : ℕ) → n < mantissas → 1 ≤ m → m ≤ 128 → ceil (div (float n) (float m)) ≡ (n + (m - 1)) / m
unfolding div float round
ceil-div n m few low high =
    ceil-rounded_of 128 n m (rounded 128 n 1) (rounded 128 m 1) few low high
      (rounded-exact 128 n few) (rounded-exact 128 m (omega (arith, high))) (rounded_pos 128 n)
      (rounded_pos 128 m)
