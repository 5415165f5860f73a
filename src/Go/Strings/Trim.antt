-- ===== src/Go/Strings/Trim.antt =====
-- What trimming keeps, and what it leaves alone.
use mathlib.Core.List.{cons-ne-nil}
use cindex.Prelude.{
  ℕ, ◌≡◌, ◌≢◌, ◌⊎◌, refl, ap, ◌∙◌, inl, inr, false, Bool-cases, if-cases, [], ◌∷◌, ◌++◌, Text, All,
}
use cindex.Go.Strings.{is_space, trim_left, trim_right, trim_right_cons, trim_space}

module _ (P : ℕ → Type 0) where
  trim_left-All : (s : Text) → All P s → All P (trim_left s)
  unfolding trim_left
  trim_left-All [] h = h
  trim_left-All (c ∷ s) (p, h) = elim (Bool-cases (is_space c)) [
    | inl e ↦ rw e (trim_left-All s h)
    | inr e ↦ rw e (p, h)
  ]

  trim_right_cons-All : (c : ℕ) (s : Text) → P c → All P s → All P (trim_right_cons c s)
  unfolding trim_right_cons
  trim_right_cons-All c [] p h = elim (Bool-cases (is_space c)) [
    | inl e ↦ rw e tt
    | inr e ↦ rw e (p, tt)
  ]
  trim_right_cons-All c (d ∷ s) p h = (p, h)

  trim_right-All : (s : Text) → All P s → All P (trim_right s)
  unfolding trim_right
  trim_right-All [] h = h
  trim_right-All (c ∷ s) (p, h) = trim_right_cons-All c (trim_right s) p (trim_right-All s h)

  -- Trimming keeps what holds of every code point.
  pub trim_space-All : (s : Text) → All P s → All P (trim_space s)
  unfolding trim_space
  trim_space-All s h = trim_right-All (trim_left s) (trim_left-All s h)

-- No space at the start.
StartsDark : Text → Type 0
StartsDark [] = Unit
StartsDark (c ∷ s) = is_space c ≡ false

-- Neither end is a space.
unfoldable pub Trimmed : Text → Type 0
unfolding StartsDark trim_right
Trimmed s = StartsDark s × (trim_right s ≡ s)

trim_left-StartsDark : (s : Text) → StartsDark (trim_left s)
unfolding trim_left StartsDark
trim_left-StartsDark [] = tt
trim_left-StartsDark (c ∷ s) =
    if-cases StartsDark (is_space c) _ _ (λ _. trim_left-StartsDark s) (λ e. e)

trim_right_cons-StartsDark :
    (c : ℕ) (s : Text) → is_space c ≡ false → StartsDark (trim_right_cons c s)
unfolding trim_right_cons StartsDark
trim_right_cons-StartsDark c [] e = rw e e
trim_right_cons-StartsDark c (d ∷ s) e = e

trim_right-StartsDark : (s : Text) → StartsDark s → StartsDark (trim_right s)
unfolding trim_right StartsDark
trim_right-StartsDark [] h = tt
trim_right-StartsDark (c ∷ s) e = trim_right_cons-StartsDark c (trim_right s) e

trim_right-trim_right_cons :
    (c : ℕ) (t : Text) → trim_right t ≡ t → trim_right (trim_right_cons c t) ≡ trim_right_cons c t
unfolding trim_right trim_right_cons
trim_right-trim_right_cons c [] h =
    if-cases (λ t. trim_right t ≡ t) (is_space c) _ _ (λ _. refl) (λ e. rw e refl)
trim_right-trim_right_cons c (d ∷ t) h = ap (trim_right_cons c) h

trim_right-trim_right : (s : Text) → trim_right (trim_right s) ≡ trim_right s
unfolding trim_right
trim_right-trim_right [] = refl
trim_right-trim_right (c ∷ s) =
    trim_right-trim_right_cons c (trim_right s) (trim_right-trim_right s)

pub trim_space-Trimmed : (s : Text) → Trimmed (trim_space s)
unfolding Trimmed trim_space
trim_space-Trimmed s = (
  trim_right-StartsDark (trim_left s) (trim_left-StartsDark s),
  trim_right-trim_right (trim_left s),
)

trim_left-lem : (s : Text) → StartsDark s → trim_left s ≡ s
unfolding trim_left StartsDark
trim_left-lem [] h = refl
trim_left-lem (c ∷ s) e = rw e refl

pub trim_space-lem : (s : Text) → Trimmed s → trim_space s ≡ s
unfolding Trimmed trim_space
trim_space-lem s (h, e) = ap trim_right (trim_left-lem s h) ∙ e

trim_right_cons-lem : (c : ℕ) (s : Text) → s ≢ [] → trim_right_cons c s ≡ c ∷ s
unfolding trim_right_cons
trim_right_cons-lem c [] h = absurd (h refl)
trim_right_cons-lem c (d ∷ s) h = refl

append-ne-nil : (s t : Text) → t ≢ [] → s ++ t ≢ []
append-ne-nil [] t h = h
append-ne-nil (c ∷ s) t h = cons-ne-nil c (s ++ t)

trim_right-append : (s t : Text) → t ≢ [] → trim_right t ≡ t → trim_right (s ++ t) ≡ s ++ t
unfolding trim_right
trim_right-append [] t h e = e
trim_right-append (c ∷ s) t h e =
    ap (trim_right_cons c) (trim_right-append s t h e)
    ∙ trim_right_cons-lem c (s ++ t) (append-ne-nil s t h)

-- A trimmed text in front of a space and a trimmed word, trimmed once more.
pub trim_space-append :
    (s t : Text)
    → Trimmed s
    → Trimmed t
    → t ≢ []
    → ((s ≡ []) × (trim_space (s ++ (32 ∷ t)) ≡ t)) ⊎ (trim_space (s ++ (32 ∷ t)) ≡ s ++ (32 ∷ t))
unfolding Trimmed StartsDark trim_space trim_left
trim_space-append [] t h k n = inl (refl, unfold is_space in trim_space-lem t k)
trim_space-append (c ∷ s) t (dark, e) (dark2, e2) n = inr (
    rw dark (
      trim_right-append (c ∷ s) (32 ∷ t) (cons-ne-nil 32 t)
        (ap (trim_right_cons 32) e2 ∙ trim_right_cons-lem 32 t n)))
