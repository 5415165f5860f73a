-- ===== src/Domain/Citation/Authors.antt =====
-- Which authors a citation (domain/citation.go) names.
use cindex.Prelude.{
  ◌≡◌, refl, sym, ◌∙◌, List, [], ◌∷◌, ◌++◌, Option, Text, codes, ltb, length, arith, true,
}
use cindex.Go.Strings.{join}
use cindex.Domain.Article.{Article}
use cindex.Domain.Citation.{authors_str, render_citation}

authors_str-more :
    (a b c d : Text) (more : List Text)
    → authors_str (a ∷ b ∷ c ∷ d ∷ more) ≡ join (codes ", ") (a ∷ b ∷ c ∷ []) ++ codes " [et al.]"
unfolding authors_str
authors_str-more a b c d more =
    let many : ltb 3 (length (a ∷ b ∷ c ∷ d ∷ more)) ≡ true = ground arith in rw many refl

module _ (article : Article) (journal : Option Text) (style : Text) where
  -- Two lists of authors that print alike give one citation.
  render-authors_str :
      (these those : List Text)
      → authors_str these ≡ authors_str those
      → render_citation article journal these style ≡ render_citation article journal those style
  unfolding render_citation
  render-authors_str these those e = rw e refl

  -- A citation names three authors at most: those behind the third change nothing in it, as long as
  -- there are some.
  pub render_citation-authors :
      (a b c d e : Text) (more others : List Text)
      → render_citation article journal (a ∷ b ∷ c ∷ d ∷ more) style
        ≡ render_citation article journal (a ∷ b ∷ c ∷ e ∷ others) style
  render_citation-authors a b c d e more others =
      render-authors_str _ _ (authors_str-more a b c d more ∙ sym (authors_str-more a b c e others))
