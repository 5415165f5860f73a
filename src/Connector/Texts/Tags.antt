-- ===== src/Connector/Texts/Tags.antt =====
-- What `StripHTMLTags` (connector/text.go) leaves.
use cindex.Prelude.{
  ℕ, ◌≢◌, inl, inr, Bool, true, false, Bool-cases, if-cases, [], ◌∷◌, Text, All, ◌==◌, arith,
}
use cindex.Go.Strings.Trim.{trim_space-All}
use cindex.Connector.Texts.{
  is_blank, collapse, cut_to, normalize_scholarly, drop_tags, strip_html_tags,
}

-- Not an angle bracket.
unfoldable pub NoBracket : ℕ → Type 0
NoBracket c = (c ≢ 60) × (c ≢ 62)

blank-NoBracket : NoBracket 32
unfolding NoBracket
blank-NoBracket = (omega arith, omega arith)

collapse-NoBracket :
    (inside : Bool) (s : Text) → All NoBracket s → All NoBracket (collapse inside s)
unfolding collapse
collapse-NoBracket inside [] h = tt
collapse-NoBracket true (c ∷ s) (p, h) = elim (Bool-cases (is_blank c)) [
  | inl e ↦ rw e (collapse-NoBracket true s h)
  | inr e ↦ rw e (p, collapse-NoBracket false s h)
]
collapse-NoBracket false (c ∷ s) (p, h) = elim (Bool-cases (is_blank c)) [
  | inl e ↦ rw e (blank-NoBracket, collapse-NoBracket true s h)
  | inr e ↦ rw e (p, collapse-NoBracket false s h)
]

drop_tags-NoBracket : (in_tag : Bool) (s : Text) → All NoBracket (drop_tags in_tag s)
unfolding drop_tags NoBracket
drop_tags-NoBracket in_tag [] = tt
drop_tags-NoBracket in_tag (c ∷ s) =
    if-cases (All NoBracket) (c == 60) _ _ (λ _. drop_tags-NoBracket true s)
      (λ less.
        if-cases (All NoBracket) (c == 62) _ _ (λ _. drop_tags-NoBracket false s)
          (λ greater.
            if-cases (All NoBracket) in_tag _ _ (λ _. drop_tags-NoBracket true s)
              (λ _.
                ((ground (arith, less), ground (arith, greater)), drop_tags-NoBracket false s))))

-- What is left of any text without its tags holds no angle bracket, be the tags closed or not.
pub strip_html_tags-NoBracket : (s : Text) → All NoBracket (strip_html_tags s)
unfolding strip_html_tags normalize_scholarly cut_to
strip_html_tags-NoBracket s =
    trim_space-All NoBracket _
      (collapse-NoBracket false _ (trim_space-All NoBracket _ (drop_tags-NoBracket false s)))
