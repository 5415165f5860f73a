-- ===== src/Service/Enrichment/Cascade.antt =====
-- `applyCascade` (service/doi_enrichment.go) takes each missing field from the first source that has it.
use cindex.Prelude.{
  ◌≡◌, refl, sym, ap, ◌∙◌, Bool, true, false, ◌&&◌, ◌||◌, Option, none, some, List, [], ◌∷◌, map,
  Text, is_empty, any, if◌then◌else◌,
}
use cindex.Prelude.Int.{ℤ}
use cindex.Service.Enrichment.{
  EnrichCandidate, Enrichment, Progress, is_nil, no_names, is_unknown, missing_fields,
  truncate_runes, fill_text, fill_year, takes_authors, apply_step, apply_steps, apply_cascade,
}

-- The first list that is not empty.
unfoldable pub first_full {ℓ} : {A : Type ℓ} → List (List A) → List A
first_full [] = []
first_full ([] ∷ lists) = first_full lists
first_full ((x ∷ xs) ∷ lists) = x ∷ xs

unfoldable pub first_year : List (Option ℤ) → Option ℤ
first_year [] = none
first_year (none ∷ years) = first_year years
first_year (some y ∷ years) = some y

unfoldable pub or_else {ℓ} : {A : Type ℓ} → List A → List A → List A
or_else [] ys = ys
or_else (x ∷ xs) ys = x ∷ xs

unfoldable pub or_year : Option ℤ → Option ℤ → Option ℤ
or_year none found = found
or_year (some y) found = some y

or_else-nil {ℓ} : {A : Type ℓ} (xs : List A) → or_else xs [] ≡ xs
unfolding or_else
or_else-nil [] = refl
or_else-nil (x ∷ xs) = refl

fill_text-is_empty :
    (old found : Text)
    → is_empty old && is_empty (fill_text (is_empty old) old found)
      ≡ is_empty (fill_text (is_empty old) old found)
unfolding fill_text
fill_text-is_empty [] found = refl
fill_text-is_empty (c ∷ s) [] = refl
fill_text-is_empty (c ∷ s) (d ∷ t) = refl

or_else-fill_text :
    (old found : Text) (rest : List Text)
    → or_else (fill_text (is_empty old) old found) (first_full rest)
      ≡ or_else old (first_full (found ∷ rest))
unfolding or_else fill_text first_full
or_else-fill_text [] [] rest = refl
or_else-fill_text [] (d ∷ t) rest = refl
or_else-fill_text (c ∷ s) [] rest = refl
or_else-fill_text (c ∷ s) (d ∷ t) rest = refl

-- A field of the article that is a text: its value, its flag and where it is found.
module _ (value : Progress → Text) (missing : Progress → Bool) (found : Enrichment → Text)
    (filled : (p : Progress) (e : Enrichment)
      → value (apply_step p e) ≡ fill_text (missing p) (value p) (found e))
    (cleared : (p : Progress) (e : Enrichment)
      → missing (apply_step p e) ≡ missing p && is_empty (value (apply_step p e))) where
  flag_step :
      (p : Progress) (e : Enrichment)
      → missing p ≡ is_empty (value p)
      → missing (apply_step p e) ≡ is_empty (value (apply_step p e))
  flag_step p e h = cleared p e ∙ rw (filled p e, h) (fill_text-is_empty (value p) (found e))

  apply_steps-text :
      (p : Progress) (es : List Enrichment)
      → missing p ≡ is_empty (value p)
      → value (apply_steps p es) ≡ or_else (value p) (first_full (map found es))
  unfolding apply_steps first_full
  apply_steps-text p [] h = sym (or_else-nil (value p))
  apply_steps-text p (e ∷ es) h =
      apply_steps-text (apply_step p e) es (flag_step p e h)
      ∙ rw (filled p e, h) (or_else-fill_text (value p) (found e) (map found es))

fill_year-is_nil :
    (old found : Option ℤ)
    → is_nil old && is_nil (fill_year (is_nil old) old found)
      ≡ is_nil (fill_year (is_nil old) old found)
unfolding fill_year
fill_year-is_nil none found = refl
fill_year-is_nil (some y) none = refl
fill_year-is_nil (some y) (some z) = refl

or_year-fill_year :
    (old found : Option ℤ) (rest : List (Option ℤ))
    → or_year (fill_year (is_nil old) old found) (first_year rest)
      ≡ or_year old (first_year (found ∷ rest))
unfolding or_year fill_year first_year
or_year-fill_year none none rest = refl
or_year-fill_year none (some z) rest = refl
or_year-fill_year (some y) none rest = refl
or_year-fill_year (some y) (some z) rest = refl

or_year-none : (y : Option ℤ) → or_year y none ≡ y
unfolding or_year
or_year-none none = refl
or_year-none (some y) = refl

apply_steps-year :
    (p : Progress) (es : List Enrichment)
    → p.missing.year ≡ is_nil p.article.pub_year
    → (apply_steps p es).article.pub_year
      ≡ or_year p.article.pub_year (first_year (map (λ e. e.year) es))
unfolding apply_steps apply_step first_year
apply_steps-year p [] h = sym (or_year-none p.article.pub_year)
apply_steps-year p (e ∷ es) h =
    apply_steps-year (apply_step p e) es (rw h (fill_year-is_nil p.article.pub_year e.year))
    ∙ rw h (or_year-fill_year p.article.pub_year e.year (map (λ x. x.year) es))

-- The names that are pending behind one enrichment.
next_pending : Bool → List Text → List Text → List Text
next_pending missing pending found = if takes_authors missing pending found then found else pending

wanted : Bool → List (List Text) → List Text
wanted missing names = if missing then first_full names else []

or_else-next_pending :
    (missing : Bool) (pending found : List Text) (rest : List (List Text))
    → or_else
        (next_pending missing pending found)
        (wanted (missing && no_names (next_pending missing pending found)) rest)
      ≡ or_else pending (wanted missing (found ∷ rest))
unfolding next_pending wanted or_else takes_authors first_full
or_else-next_pending true [] [] rest = refl
or_else-next_pending true [] (x ∷ xs) rest = refl
or_else-next_pending false [] [] rest = refl
or_else-next_pending false [] (x ∷ xs) rest = refl
or_else-next_pending true (y ∷ ys) [] rest = refl
or_else-next_pending true (y ∷ ys) (x ∷ xs) rest = refl
or_else-next_pending false (y ∷ ys) [] rest = refl
or_else-next_pending false (y ∷ ys) (x ∷ xs) rest = refl

wanted-nil : (missing : Bool) → wanted missing [] ≡ []
unfolding wanted first_full
wanted-nil true = refl
wanted-nil false = refl

apply_steps-authors :
    (p : Progress) (es : List Enrichment)
    → (apply_steps p es).pending_authors
      ≡ or_else p.pending_authors (wanted p.missing.authors (map (λ e. e.authors) es))
unfolding apply_steps apply_step next_pending
apply_steps-authors p [] =
    sym (
      ap (or_else p.pending_authors) (wanted-nil p.missing.authors) ∙ or_else-nil p.pending_authors)
apply_steps-authors p (e ∷ es) =
    apply_steps-authors (apply_step p e) es
    ∙ or_else-next_pending p.missing.authors p.pending_authors e.authors (map (λ x. x.authors) es)

-- After the cascade every field has the value it had, or if it was missing, that of the first source
-- with a value, an abstract cut to 8000 code points; and the pending authors are those of the first
-- source that has any, if no author is known.
pub apply_cascade-first :
    (c : EnrichCandidate) (es : List Enrichment)
    → let p = apply_cascade c.article (missing_fields c) es in
      (p.article.abstract
        ≡ or_else c.article.abstract (first_full (map (λ e. truncate_runes e.abstract 8000) es)))
      × (p.article.pub_year ≡ or_year c.article.pub_year (first_year (map (λ e. e.year) es)))
      × (p.article.volume ≡ or_else c.article.volume (first_full (map (λ e. e.volume) es)))
      × (p.article.issue ≡ or_else c.article.issue (first_full (map (λ e. e.issue) es)))
      × (p.article.pages ≡ or_else c.article.pages (first_full (map (λ e. e.pages) es)))
      × (p.pending_authors ≡ (
          if no_names c.authors || any is_unknown c.authors
          then first_full (map (λ e. e.authors) es)
          else []))
unfolding apply_cascade missing_fields apply_step wanted or_else
apply_cascade-first c es =
    let start : Progress = record {
      article = c.article;
      missing = missing_fields c;
      changed = false;
      pending_authors = [];
    } in
    (
      apply_steps-text (λ p. p.article.abstract) (λ p. p.missing.abstract)
          (λ e. truncate_runes e.abstract 8000) (λ p e. refl) (λ p e. refl) start es refl,
      apply_steps-year start es refl,
      apply_steps-text (λ p. p.article.volume) (λ p. p.missing.volume) (λ e. e.volume) (λ p e. refl)
          (λ p e. refl) start es refl,
      apply_steps-text (λ p. p.article.issue) (λ p. p.missing.issue) (λ e. e.issue) (λ p e. refl)
          (λ p e. refl) start es refl,
      apply_steps-text (λ p. p.article.pages) (λ p. p.missing.pages) (λ e. e.pages) (λ p e. refl)
          (λ p e. refl) start es refl,
      apply_steps-authors start es,
    )
