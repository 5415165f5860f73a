-- ===== src/Connector/Patterns.antt =====
-- The helpers of backend/internal/connector/text.go that match a regular expression: each pattern is
-- written as a scan. The case table of package unicode is the parameter `lower`.
pub mod Years
use cindex.Prelude.{
  ℕ, zero, suc, ◌+◌, ◌-◌, ◌*◌, Bool, true, false, not, ◌&&◌, ◌||◌, Option, none, some, List, [],
  ◌∷◌, ◌++◌, ltb, leb, ◌==◌, if◌then◌else◌, Text, codes, is_empty, any, take,
}
use cindex.Go.Strings.{trim_space, trim_right_set, contains, fields_func}
use cindex.Go.Unicode.{to_lower, byte_len}
use cindex.Connector.Texts.{is_blank, is_digit}

-- The number of four digits that starts with 19 or 20.
abbrev year_of : ℕ → ℕ → ℕ → ℕ → Option ℕ
year_of a b c d =
    if ((a == 49 && b == 57) || (a == 50 && b == 48)) && is_digit c && is_digit d
    then some ((((a - 48) * 10 + (b - 48)) * 10 + (c - 48)) * 10 + (d - 48))
    else none

-- yearPattern at the start of the text.
unfoldable pub year_at : Text → Option ℕ
unfolding is_digit
year_at (a ∷ b ∷ c ∷ d ∷ s) = year_of a b c d
year_at _ = none

-- The matches of yearPattern, behind `skip` code points of the match before.
unfoldable pub years_from : ℕ → Text → List ℕ
unfolding year_at
years_from skip [] = []
years_from (suc skip) (c ∷ s) = years_from skip s
years_from zero (c ∷ s) = elim (year_at (c ∷ s)) [
  | some y ↦ y ∷ years_from 3 s
  | none ↦ years_from 0 s
]

-- yearPattern.FindString
unfoldable pub year_text : Text → Text
unfolding year_at
year_text [] = []
year_text (c ∷ s) = elim (year_at (c ∷ s)) [ some y ↦ take 4 (c ∷ s) | none ↦ year_text s ]

unfoldable pub latest_year : ℕ → ℕ → List ℕ → ℕ
latest_year now max [] = max
latest_year now max (y ∷ years) =
    let taken = latest_year now y years in
    let kept = latest_year now max years in
    if leb 1800 y && leb y (now + 1) && ltb max y then taken else kept

-- ExtractYear, in the year `now`.
unfoldable pub extract_year : ℕ → Text → ℕ
unfolding years_from latest_year
extract_year now text = latest_year now 0 (years_from 0 text)

-- [-._;()/:A-Z0-9] without regard to case, which adds U+017F and U+212A.
is_doi_char : ℕ → Bool
is_doi_char c =
    c == 45
    || c == 46
    || c == 95
    || c == 59
    || c == 40
    || c == 41
    || leb 47 c && leb c 58
    || leb 65 c && leb c 90
    || leb 97 c && leb c 122
    || c == 0x17f
    || c == 0x212a

-- The longest prefix of code points that satisfy the test, and the rest.
unfoldable pub span : (ℕ → Bool) → Text → Text × Text
span p [] = ([], [])
span p (c ∷ s) = let rest = span p s in if p c then (c ∷ rest.0, rest.1) else ([], c ∷ s)

doi_suffix : Text → Text → Option Text
doi_suffix before s =
    let found = span is_doi_char s in
    if is_empty found.0 then none else some (before ++ (47 ∷ found.0))

doi_slash : Text → Text → Option Text
doi_slash before (c ∷ s) = if c == 47 then doi_suffix before s else none
doi_slash before [] = none

count : Text → ℕ
count [] = 0
count (c ∷ s) = suc (count s)

doi_digits : Text × Text → Option Text
doi_digits (digits, s) =
    if leb 4 (count digits) && leb (count digits) 9
    then doi_slash (codes "10." ++ digits) s
    else none

-- doiPattern at the start of the text.
unfoldable pub doi_at : Text → Option Text
unfolding is_digit is_doi_char span doi_suffix doi_slash count doi_digits
doi_at (a ∷ b ∷ c ∷ s) =
    if a == 49 && b == 48 && c == 46 then doi_digits (span is_digit s) else none
doi_at _ = none

-- ExtractDOI
unfoldable pub extract_doi : Text → Text
unfolding doi_at trim_right_set
extract_doi [] = []
extract_doi (c ∷ s) = elim (doi_at (c ∷ s)) [
  | some m ↦ trim_right_set (λ d. d == 46) m
  | none ↦ extract_doi s
]

-- [a-zA-Zа-яА-Я0-9]
is_word_char : ℕ → Bool
is_word_char c =
    leb 97 c && leb c 122
    || leb 65 c && leb c 90
    || leb 0x430 c && leb c 0x44f
    || leb 0x410 c && leb c 0x42f
    || leb 48 c && leb c 57

all_in : Text → List Text → Bool
all_in blob [] = true
all_in blob (t ∷ tokens) =
    let rest = all_in blob tokens in if ltb 2 (byte_len t) then contains blob t && rest else rest

-- MatchAllTerms
unfoldable pub match_all_terms : (ℕ → ℕ) → Text → Text → Text → Bool
unfolding is_word_char all_in fields_func
match_all_terms lower query title abstract =
    all_in (to_lower lower (title ++ (codes " " ++ abstract)))
      (fields_func (λ c. not (is_word_char c)) (to_lower lower query))

is_conference_type : (ℕ → ℕ) → Text → Bool
is_conference_type lower t =
    contains (to_lower lower t) (codes "abstract") || contains (to_lower lower t) (codes "congress")

capital_behind : Text → Text → Text
capital_behind title [] = title
capital_behind title (c ∷ s) = if leb 65 c && leb c 90 then c ∷ s else title

blanks_behind : Text → Text → Text
blanks_behind title s =
    let blanks = span is_blank s in
    if is_empty blanks.0 then title else capital_behind title blanks.1

-- numericPrefixRe.ReplaceAllStringFunc: the title without a number of at most four digits and the
-- blanks in front of a capital.
unfoldable pub without_number : Text → Text
unfolding span is_digit is_blank blanks_behind capital_behind count
without_number title =
    let digits = span is_digit title in
    if leb 1 (count digits.0) && leb (count digits.0) 4 then blanks_behind title digits.1 else title

-- cleanPMCTitle
unfoldable pub clean_pmc_title : (ℕ → ℕ) → Text → List Text → Text
unfolding is_conference_type without_number
clean_pmc_title lower title pub_types =
    if any (is_conference_type lower) pub_types
    then without_number (trim_space title)
    else trim_space title
