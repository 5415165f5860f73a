-- ===== src/Domain/Eligibility/Doi.antt =====
-- doiPattern of backend/internal/domain/eligibility.go, `(?i)10\.\d{4,9}/[-._;()/:A-Z0-9]+`, as a
-- matcher. A slash is no digit, so the run of digits in front of it is the whole run.
use cindex.Prelude.{
  ℕ, ◌+◌, Bool, true, false, ◌&&◌, ◌||◌, [], ◌∷◌, leb, ◌==◌, if◌then◌else◌, Text, codes, any, ◌≡◌,
  refl,
}

is_digit : ℕ → Bool
is_digit c = leb b'0' c && leb c b'9'

-- The class under `(?i)`, with the two letters that fold to `s` and `k`.
is_doi_char : ℕ → Bool
unfolding is_digit
is_doi_char c =
    is_digit c
    || (leb b'A' c && leb c b'Z')
    || (leb b'a' c && leb c b'z')
    || c == 0x17f
    || c == 0x212a
    || any (λ p. c == p) (b'-' ∷ b'.' ∷ b'_' ∷ b';' ∷ b'(' ∷ b')' ∷ b'/' ∷ b':' ∷ [])

suffix_start : Text → Bool
suffix_start [] = false
suffix_start (c ∷ _) = is_doi_char c

-- Behind "10.", with `n` digits read.
registrant : ℕ → Text → Bool
registrant n [] = false
registrant n (c ∷ s) =
    if is_digit c then registrant (n + 1) s else leb 4 n && leb n 9 && c == b'/' && suffix_start s

doi_here : Text → Bool
doi_here (a ∷ b ∷ c ∷ s) = a == b'1' && b == b'0' && c == b'.' && registrant 0 s
doi_here _ = false

-- doiPattern.MatchString
unfoldable pub has_doi : Text → Bool
unfolding doi_here registrant suffix_start is_doi_char is_digit
has_doi [] = false
has_doi (c ∷ s) = doi_here (c ∷ s) || has_doi s

plain : (has_doi (codes "see 10.1000/xyz") ≡ true) × (has_doi (codes "10.100/xyz") ≡ false)
unfolding has_doi codes
plain = (refl, refl)
