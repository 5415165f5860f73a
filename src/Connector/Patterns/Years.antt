-- ===== src/Connector/Patterns/Years.antt =====
-- The year that `ExtractYear` (connector/text.go) returns.
use cindex.Prelude.{
  ℕ, zero, suc, ◌+◌, ◌≤◌, ◌≡◌, ◌⊎◌, inl, inr, refl, arith, ◌&&◌, if-cases, Option, none, some, List,
  [], ◌∷◌, Text, All, leb, ltb,
}
use cindex.Connector.Patterns.{year_at, years_from, latest_year, extract_year}

-- A text in which the four digits of a year stand somewhere.
pub data Shows : ℕ → Text → Type 0 where
  here : {y : ℕ} {s : Text} → year_at s ≡ some y → Shows y s
  there : {y c : ℕ} {s : Text} → Shows y s → Shows y (c ∷ s)

AllShown : List ℕ → Text → Type 0
AllShown [] s = Unit
AllShown (y ∷ ys) s = Shows y s × AllShown ys s

AllShown-there : (c : ℕ) (ys : List ℕ) (s : Text) → AllShown ys s → AllShown ys (c ∷ s)
unfolding AllShown
AllShown-there c [] s h = tt
AllShown-there c (y ∷ ys) s (p, h) = (there p, AllShown-there c ys s h)

-- The value read at the text, and the years behind it.
push_year-AllShown :
    (o : Option ℕ) (c : ℕ) (s : Text)
    → year_at (c ∷ s) ≡ o
    → AllShown (years_from 3 s) s
    → AllShown (years_from 0 s) s
    → AllShown (elim o [ some y ↦ y ∷ years_from 3 s | none ↦ years_from 0 s ]) (c ∷ s)
unfolding AllShown
push_year-AllShown none c s e far near = AllShown-there c (years_from 0 s) s near
push_year-AllShown (some y) c s e far near = (here e, AllShown-there c (years_from 3 s) s far)

years_from-AllShown : (skip : ℕ) (s : Text) → AllShown (years_from skip s) s
unfolding years_from AllShown
years_from-AllShown skip [] = tt
years_from-AllShown (suc skip) (c ∷ s) =
    AllShown-there c (years_from skip s) s (years_from-AllShown skip s)
years_from-AllShown zero (c ∷ s) =
    push_year-AllShown (year_at (c ∷ s)) c s refl (years_from-AllShown 3 s)
      (years_from-AllShown 0 s)

-- No year at all, or a year of the text in the range.
unfoldable pub IsLatest : ℕ → Text → ℕ → Type 0
IsLatest now s y = (y ≡ 0) ⊎ (Shows y s × (1800 ≤ y) × (y ≤ now + 1))

latest_year-IsLatest :
    (now max : ℕ) (ys : List ℕ) (s : Text)
    → AllShown ys s
    → IsLatest now s max
    → IsLatest now s (latest_year now max ys)
unfolding latest_year AllShown
latest_year-IsLatest now max [] s h k = k
latest_year-IsLatest now max (y ∷ ys) s (p, h) k =
    if-cases (IsLatest now s) (leb 1800 y && leb y (now + 1) && ltb max y) _ _
      (λ e.
        latest_year-IsLatest now y ys s h
          (unfold IsLatest in inr (p, ground (arith, e), ground (arith, e))))
      (λ _. latest_year-IsLatest now max ys s h k)

-- Every year of the range that the scan finds is at most the result.
latest_year-max : (now max : ℕ) (ys : List ℕ) → max ≤ latest_year now max ys
unfolding latest_year
latest_year-max now max [] = omega arith
latest_year-max now max (y ∷ ys) =
    if-cases (λ r. max ≤ r) (leb 1800 y && leb y (now + 1) && ltb max y) _ _
      (λ e. ground (arith, e, latest_year-max now y ys)) (λ _. latest_year-max now max ys)

latest_year-All :
    (now max : ℕ) (ys : List ℕ) → All (λ y. 1800 ≤ y → y ≤ now + 1 → y ≤ latest_year now max ys) ys
unfolding latest_year
latest_year-All now max [] = tt
latest_year-All now max (y ∷ ys) =
    if-cases (λ r. (1800 ≤ y → y ≤ now + 1 → y ≤ r) × All (λ z. 1800 ≤ z → z ≤ now + 1 → z ≤ r) ys)
      (leb 1800 y && leb y (now + 1) && ltb max y) _ _
      (λ e. ((λ _ _. latest_year-max now y ys), latest_year-All now y ys))
      (λ e.
        ((λ p q. ground (arith, e, p, q, latest_year-max now max ys)), latest_year-All now max ys))

-- ExtractYear returns 0 or a year from 1800 to the next one whose four digits stand in the text, and
-- no match of the pattern in that range is later.
pub extract_year-IsLatest :
    (now : ℕ) (s : Text)
    → IsLatest now s (extract_year now s)
      × All (λ y. 1800 ≤ y → y ≤ now + 1 → y ≤ extract_year now s) (years_from 0 s)
unfolding extract_year IsLatest
extract_year-IsLatest now s = (
  latest_year-IsLatest now 0 (years_from 0 s) s (years_from-AllShown 0 s) (inl refl),
  latest_year-All now 0 (years_from 0 s),
)
