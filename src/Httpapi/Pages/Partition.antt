-- ===== src/Httpapi/Pages/Partition.antt =====
-- The pages of a list of hits.
use native.Mathlib.Nat.{suc-mul, mod-lt, mod-add-div'}
use mathlib.Core.Logic.{inl, inr}
use cindex.Prelude.{
  ℕ, zero, suc, ◌+◌, ◌-◌, ◌*◌, ◌/◌, ◌≡◌, ◌≤◌, ◌<◌, refl, sym, ◌∙◌, ap, true, Option, none, some,
  List, [], ◌∷◌, ◌++◌, arith, ltb, leb, length, take, drop, Bool-cases,
}
use cindex.Prelude.Int.{pos}
use cindex.Go.Floats.Ceil.{ceil-div}
use cindex.Domain.SearchJob.{SearchHit}
use cindex.Httpapi.Pages.{wrap, at_most, slice, slice_page, page_start, page_end, paginate_hits}

wrap-small : (n : ℕ) → n < 9223372036854775808 → wrap n ≡ pos n
unfolding wrap
wrap-small n h = ground arith

abbrev Hits : Type 0
Hits = List SearchHit

take-over : (n : ℕ) (l : Hits) → length l ≤ n → take n l ≡ l
take-over zero [] h = refl
take-over zero (x ∷ l) h = ground arith
take-over (suc n) [] h = refl
take-over (suc n) (x ∷ l) h = ap (◌∷◌ x) (take-over n l (omega arith))

drop-over : (n : ℕ) (l : Hits) → length l ≤ n → drop n l ≡ []
drop-over zero [] h = refl
drop-over zero (x ∷ l) h = ground arith
drop-over (suc n) [] h = refl
drop-over (suc n) (x ∷ l) h = drop-over n l (omega arith)

take-nil : (n : ℕ) → take {A = SearchHit} n [] ≡ []
take-nil zero = refl
take-nil (suc n) = refl

length-drop-add : (n : ℕ) (l : Hits) → n ≤ length l → length (drop n l) + n ≡ length l
length-drop-add zero l h = omega arith
length-drop-add (suc n) [] h = ground arith
length-drop-add (suc n) (x ∷ l) h = omega (arith, length-drop-add n l (omega arith))

take-drop : (a b : ℕ) (l : Hits) → take a l ++ take b (drop a l) ≡ take (a + b) l
take-drop zero b l = ap (λ n. take n l) {x = b} {y = 0 + b} (omega arith)
take-drop (suc a) b [] = take-nil b ∙ sym (take-nil (suc a + b))
take-drop (suc a) b (x ∷ l) =
    ap (◌∷◌ x) (take-drop a b l)
    ∙ ap (λ n. take n (x ∷ l)) {x = suc (a + b)} {y = suc a + b} (omega arith)

slice-to :
    (l : Hits) (s e s' e' : ℕ)
    → s ≡ s'
    → e ≡ e'
    → s' ≤ e'
    → slice l s e ≡ some (take (e' - s') (drop s' l))
unfolding slice
slice-to l s e s' e' p q h = let ordered : leb s e ≡ true = ground arith in rw (ordered, p, q) refl

-- A slice of which the ends are moved into the list holds what the list has between them.
slice-at_most :
    (l : Hits) (start size : ℕ)
    → slice l (at_most (length l) start) (at_most (length l) (start + size))
      ≡ some (take size (drop start l))
slice-at_most l start size = elim (Bool-cases (ltb (length l) start)) [
  | inl over ↦
      slice-to l _ _ (length l) (length l) (rw over refl) (ground arith) (omega arith)
      ∙ ap some (
          ap (take (length l - length l)) (drop-over (length l) l (omega arith))
          ∙ take-nil (length l - length l)
          ∙ sym (ap (take size) (drop-over start l (ground arith)) ∙ take-nil size))
  | inr within ↦ elim (Bool-cases (ltb (length l) (start + size))) [
    | inl last ↦
        slice-to l _ _ start (length l) (rw within refl) (rw last refl) (ground arith)
        ∙ ap some (
            let len = length-drop-add start l (ground arith) in
            take-over (length l - start) (drop start l) (omega arith)
            ∙ sym (take-over size (drop start l) (ground arith)))
    | inr inside ↦
        slice-to l _ _ start (start + size) (rw within refl) (rw inside refl) (omega arith)
        ∙ ap (λ n. some (take n (drop start l))) {x = start + size - start} {y = size} (omega arith)
  ]
]

module _ (hits : Hits) (per_page : ℕ) where
  -- A page of which the end is below 2^63 holds its part of the hits.
  page-eq :
      (n : ℕ)
      → n * per_page + per_page < 9223372036854775808
      → (paginate_hits hits (suc n) per_page).0 ≡ some (take per_page (drop (n * per_page) hits))
  unfolding paginate_hits page_start page_end slice_page
  page-eq n h =
      let first : wrap ((suc n - 1) * per_page) ≡ pos (n * per_page) =
        ap (λ k. wrap (k * per_page)) {x = suc n - 1} {y = n} (omega arith)
        ∙ wrap-small (n * per_page) (omega arith) in
      let last : wrap (n * per_page + per_page) ≡ pos (n * per_page + per_page) =
        wrap-small (n * per_page + per_page) h in
      rw (first, last) (slice-at_most hits (n * per_page) per_page)

  abbrev shown : Option Hits → Hits
  shown none = []
  shown (some l) = l

  -- The pages from the first one to the n-th, joined.
  abbrev pub pages_up_to : ℕ → Hits
  pages_up_to zero = []
  pages_up_to (suc n) = pages_up_to n ++ shown (paginate_hits hits (suc n) per_page).0

  pages_up_to-eq :
      (n : ℕ) → n * per_page < 9223372036854775808 → pages_up_to n ≡ take (n * per_page) hits
  pages_up_to-eq zero h = ap (λ n. take n hits) {x = 0} {y = 0 * per_page} (omega arith)
  pages_up_to-eq (suc n) h =
      let step = suc-mul n per_page in
      ap (λ l. l ++ shown (paginate_hits hits (suc n) per_page).0) (pages_up_to-eq n (omega arith))
      ∙ ap (λ o. take (n * per_page) hits ++ shown o) (page-eq n (omega arith))
      ∙ take-drop (n * per_page) per_page hits
      ∙ ap (λ k. take k hits) (sym step)

  -- For a page size from 1 to 50 and fewer than 2^53 hits, which a float64 counts exactly, the pages
  -- from the first to the last one that is announced hold all hits, each once and in their order.
  pub pages_up_to-total :
      1 ≤ per_page
      → per_page ≤ 50
      → length hits < 9007199254740992
      → pages_up_to (paginate_hits hits 1 per_page).1.total_pages ≡ hits
  unfolding paginate_hits
  pages_up_to-total low high few =
      let q = (length hits + (per_page - 1)) / per_page in
      let announced = ceil-div (length hits) per_page few low (omega (arith, high)) in
      let whole = mod-add-div' (length hits + (per_page - 1)) per_page in
      let small = mod-lt (length hits + (per_page - 1)) {m = per_page} (omega arith) in
      ap pages_up_to announced
      ∙ pages_up_to-eq q (omega arith)
      ∙ take-over (q * per_page) hits (omega arith)
