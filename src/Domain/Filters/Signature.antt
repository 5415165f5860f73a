-- ===== src/Domain/Filters/Signature.antt =====
-- The signature tells two filter configurations apart exactly when they select and sort otherwise.
use cindex.Prelude.{
  suc, ◌≡◌, ◌≢◌, ◌↔◌, refl, ap, sym, ◌∙◌, Bool, true, false, Option, none, some, [], ◌∷◌, ◌++◌,
  arith, Text, codes, All, text_eq, text_eq_iff, ◌≤◌,
}
use cindex.Prelude.Int.{ℤ, pos, negsuc}
use cindex.Go.Strings.{join}
use cindex.Go.Strconv.{itoa}
use cindex.Go.Strconv.Injective.{itoa_injective, itoa-ne-nil, itoa_ℕ-IsDigit}
use cindex.Domain.Filters.{
  SearchFilters, normalized_sort, is_default, bool_int, year_text, signature, sort_relevance,
  default_filters,
}

abbrev NoBar : Text → Type 0
NoBar = All (λ c. c ≢ 124)

-- A text without a bar ends at the first bar.
cons_bar_injective :
    (s t x y : Text) → NoBar s → NoBar t → s ++ 124 ∷ x ≡ t ++ 124 ∷ y → (s ≡ t) × (x ≡ y)
cons_bar_injective [] [] x y _ _ e = (refl, cc)
cons_bar_injective [] (b ∷ t) x y _ (q, _) e = ground arith
cons_bar_injective (a ∷ s) [] x y (p, _) _ e = ground arith
cons_bar_injective (a ∷ s) (b ∷ t) x y (_, p) (_, q) e =
    ground (arith, cons_bar_injective s t x y p q)

bool_int-NoBar : (b : Bool) → NoBar (bool_int b)
unfolding bool_int codes
bool_int-NoBar true = omega arith
bool_int-NoBar false = omega arith

bool_int_injective : (a b : Bool) → bool_int a ≡ bool_int b → a ≡ b
unfolding bool_int codes
bool_int_injective a b e = ground arith

NoBar-of_digits : (s : Text) → All (λ c. (48 ≤ c) × (c ≤ 57)) s → NoBar s
NoBar-of_digits [] _ = tt
NoBar-of_digits (c ∷ s) (d, h) = (omega arith, NoBar-of_digits s h)

year_text-NoBar : (y : Option ℤ) → NoBar (year_text y)
unfolding year_text itoa
year_text-NoBar none = tt
year_text-NoBar (some (pos n)) = NoBar-of_digits _ (itoa_ℕ-IsDigit n)
year_text-NoBar (some (negsuc n)) = (omega arith, NoBar-of_digits _ (itoa_ℕ-IsDigit (suc n)))

year_text_injective : (a b : Option ℤ) → year_text a ≡ year_text b → a ≡ b
unfolding year_text
year_text_injective none none e = refl
year_text_injective none (some z) e = absurd (itoa-ne-nil z (sym e))
year_text_injective (some y) none e = absurd (itoa-ne-nil y e)
year_text_injective (some y) (some z) e = ap some (itoa_injective y z e)

-- What the filters ask for: every field, the sort mode after normalisation.
pub record SameSearch (f g : SearchFilters) : Type 0 where
  pub peer_reviewed_only : f.peer_reviewed_only ≡ g.peer_reviewed_only
  pub indexed_only : f.indexed_only ≡ g.indexed_only
  pub exclude_preprints : f.exclude_preprints ≡ g.exclude_preprints
  pub exclude_retracted : f.exclude_retracted ≡ g.exclude_retracted
  pub year_from : f.year_from ≡ g.year_from
  pub year_to : f.year_to ≡ g.year_to
  pub sort : normalized_sort f ≡ normalized_sort g

signature-SameSearch : (f g : SearchFilters) → signature f ≡ signature g → SameSearch f g
unfolding signature join codes
signature-SameSearch f g e =
    let (e1, r1) =
      cons_bar_injective _ _ _ _ (bool_int-NoBar f.peer_reviewed_only)
        (bool_int-NoBar g.peer_reviewed_only) e in
    let (e2, r2) =
      cons_bar_injective _ _ _ _ (bool_int-NoBar f.indexed_only) (bool_int-NoBar g.indexed_only)
        r1 in
    let (e3, r3) =
      cons_bar_injective _ _ _ _ (bool_int-NoBar f.exclude_preprints)
        (bool_int-NoBar g.exclude_preprints) r2 in
    let (e4, r4) =
      cons_bar_injective _ _ _ _ (bool_int-NoBar f.exclude_retracted)
        (bool_int-NoBar g.exclude_retracted) r3 in
    let (e5, r5) =
      cons_bar_injective _ _ _ _ (year_text-NoBar f.year_from) (year_text-NoBar g.year_from) r4 in
    let (e6, r6) =
      cons_bar_injective _ _ _ _ (year_text-NoBar f.year_to) (year_text-NoBar g.year_to) r5 in
    record {
      peer_reviewed_only = bool_int_injective _ _ e1;
      indexed_only = bool_int_injective _ _ e2;
      exclude_preprints = bool_int_injective _ _ e3;
      exclude_retracted = bool_int_injective _ _ e4;
      year_from = year_text_injective _ _ e5;
      year_to = year_text_injective _ _ e6;
      sort = r6;
    }

SameSearch-signature : (f g : SearchFilters) → SameSearch f g → signature f ≡ signature g
unfolding signature
SameSearch-signature f g s = cc (
  s.peer_reviewed_only, s.indexed_only, s.exclude_preprints, s.exclude_retracted, s.year_from,
  s.year_to, s.sort,
)

-- Two filter configurations have one signature exactly when all flags, both years and the
-- normalised sort mode agree.
pub signature_iff : (f g : SearchFilters) → (signature f ≡ signature g) ↔ SameSearch f g
signature_iff f g = (signature-SameSearch f g, SameSearch-signature f g)

normalized_sort-default : normalized_sort default_filters ≡ sort_relevance
unfolding normalized_sort codes text_eq
normalized_sort-default = refl

is_default-SameSearch : (f : SearchFilters) → is_default f ≡ true → SameSearch f default_filters
unfolding is_default
is_default-SameSearch f h =
    let sort : normalized_sort f ≡ sort_relevance =
      (text_eq_iff (normalized_sort f) sort_relevance).0 (ground arith) in
    record {
      peer_reviewed_only = ground arith;
      indexed_only = ground arith;
      exclude_preprints = ground arith;
      exclude_retracted = ground arith;
      year_from = ground arith;
      year_to = ground arith;
      sort = sort ∙ sym normalized_sort-default;
    }

SameSearch-is_default : (f : SearchFilters) → SameSearch f default_filters → is_default f ≡ true
unfolding is_default
SameSearch-is_default f s = ground (
  arith,
  s.peer_reviewed_only,
  s.indexed_only,
  s.exclude_preprints,
  s.exclude_retracted,
  s.year_from,
  s.year_to,
  (text_eq_iff (normalized_sort f) sort_relevance).1 (s.sort ∙ normalized_sort-default),
)

-- `IsDefault` holds exactly of the filters whose signature is that of no filters at all.
pub is_default_iff :
    (f : SearchFilters) → (is_default f ≡ true) ↔ (signature f ≡ signature default_filters)
is_default_iff f = (
  λ h. SameSearch-signature f default_filters (is_default-SameSearch f h),
  λ e. SameSearch-is_default f (signature-SameSearch f default_filters e),
)
