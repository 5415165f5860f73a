-- ===== src/Go/Strings/Contains.antt =====
-- Where a text that contains another one still contains it.
use mathlib.Core.List.{append-nil}
use cindex.Prelude.{
  ℕ, ◌≡◌, refl, sym, subst, ◌∙◌, inl, inr, arith, true, Bool-cases, [], ◌∷◌, ◌++◌, Text,
}
use cindex.Go.Strings.{has_prefix, contains}

has_prefix_self : (s t : Text) → has_prefix (s ++ t) s ≡ true
unfolding has_prefix
has_prefix_self [] [] = refl
has_prefix_self [] (c ∷ t) = refl
has_prefix_self (c ∷ s) t = ground (arith, has_prefix_self s t)

has_prefix_nil : (s : Text) → has_prefix s [] ≡ true
unfolding has_prefix
has_prefix_nil [] = refl
has_prefix_nil (c ∷ s) = refl

has_prefix-append : (s t p : Text) → has_prefix s p ≡ true → has_prefix (s ++ t) p ≡ true
unfolding has_prefix
has_prefix-append s t [] h = has_prefix_nil (s ++ t)
has_prefix-append [] t (d ∷ p) h = ground (arith, h)
has_prefix-append (c ∷ s) t (d ∷ p) h = ground (arith, h, has_prefix-append s t p)

contains-has_prefix : (s p : Text) → has_prefix s p ≡ true → contains s p ≡ true
unfolding contains
contains-has_prefix [] p h = h
contains-has_prefix (c ∷ s) p h = rw h refl

contains-later : (c : ℕ) (s p : Text) → contains s p ≡ true → contains (c ∷ s) p ≡ true
unfolding contains
contains-later c s p h = ground (arith, h)

pub contains-append_left : (s t p : Text) → contains s p ≡ true → contains (s ++ t) p ≡ true
unfolding contains
contains-append_left [] t p h = contains-has_prefix t p (has_prefix-append [] t p h)
contains-append_left (c ∷ s) t p h = elim (Bool-cases (has_prefix (c ∷ s) p)) [
  | inl e ↦ contains-has_prefix (c ∷ s ++ t) p (has_prefix-append (c ∷ s) t p e)
  | inr e ↦ contains-later c (s ++ t) p (contains-append_left s t p (sym (rw e refl) ∙ h))
]

pub contains-append_right : (s t p : Text) → contains t p ≡ true → contains (s ++ t) p ≡ true
contains-append_right [] t p h = h
contains-append_right (c ∷ s) t p h = contains-later c (s ++ t) p (contains-append_right s t p h)

pub contains_self : (s : Text) → contains s s ≡ true
contains_self s =
    contains-has_prefix s s
      (subst (λ t. has_prefix t s ≡ true) (append-nil s) (has_prefix_self s []))
