-- ===== src/Httpapi/Pages/Overflow.antt =====
-- The pages of which the ends do not fit into an int.
use native.Mathlib.Nat.{suc-mul}
use cindex.Prelude.{
  ℕ, zero, suc, ◌+◌, ◌-◌, ◌*◌, ◌≡◌, ◌≤◌, ◌<◌, refl, ◌∙◌, ap, none, some, List, [], arith, ltb,
  Bool-cases, inl, inr,
}
use cindex.Prelude.Int.{pos, negsuc}
use cindex.Domain.SearchJob.{SearchHit}
use cindex.Httpapi.Validation.{validate_pagination, validate_page, validate_per_page}
use cindex.Httpapi.Pages.{wrap, slice_page, page_start, page_end, paginate_hits}

wrap-low : (n : ℕ) → n < 9223372036854775808 → wrap n ≡ pos n
unfolding wrap
wrap-low n h = ground arith

wrap-high :
    (n : ℕ)
    → 9223372036854775808 ≤ n
    → n < 18446744073709551616
    → wrap n ≡ negsuc (18446744073709551615 - n)
unfolding wrap
wrap-high n h k = ground arith

-- A page of which the end is 2^63 or more and the start is below 2^64 is a slice out of range, for
-- every list of hits, and the handler panics. The check of the request admits the page.
pub paginate_hits-none :
    (hits : List SearchHit) (page per_page : ℕ)
    → 1 ≤ page
    → 1 ≤ per_page
    → per_page ≤ 50
    → 9223372036854775808 ≤ page * per_page
    → (page - 1) * per_page < 18446744073709551616
    → (validate_pagination (some (pos page)) (some (pos per_page)) ≡ [])
      × ((paginate_hits hits page per_page).0 ≡ none)
unfolding paginate_hits page_start page_end slice_page validate_pagination validate_page
    validate_per_page
paginate_hits-none hits zero per_page h p q low high = ground arith
paginate_hits-none hits (suc n) per_page h p q low high =
    let step = suc-mul n per_page in
    let same : (suc n - 1) * per_page ≡ n * per_page =
      ap (λ k. k * per_page) {x = suc n - 1} {y = n} (omega arith) in
    let top : n * per_page < 18446744073709551616 = omega (arith, high, same) in
    (
      ground arith,
      elim (Bool-cases (ltb (n * per_page) 9223372036854775808)) [
        | inl inside ↦
            let small : n * per_page < 9223372036854775808 = ground arith in
            let first = ap wrap same ∙ wrap-low (n * per_page) small in
            let last = wrap-high (n * per_page + per_page) (omega arith) (omega arith) in
            rw (first, last) refl
        | inr outside ↦
            let first = ap wrap same ∙ wrap-high (n * per_page) (ground arith) top in rw first refl
      ],
    )
