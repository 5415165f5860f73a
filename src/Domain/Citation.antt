-- ===== src/Domain/Citation.antt =====
-- `RenderCitation` of backend/internal/domain/citation.go. The journal is the name of the article's
-- journal, `none` for a nil one.
pub mod Authors
use cindex.Prelude.{
  Option, none, some, List, [], ◌∷◌, ◌++◌, ltb, if◌then◌else◌, Text, codes, text_eq, is_empty,
  length, take,
}
use cindex.Prelude.Int.{ℤ}
use cindex.Go.Strings.{join, trim_space}
use cindex.Go.Strconv.{itoa}
use cindex.Domain.Article.{Article}

-- The authors: at most three of them.
unfoldable pub authors_str : List Text → Text
unfolding join
authors_str [] = codes "Unknown author"
authors_str (a ∷ authors) =
    if ltb 3 (length (a ∷ authors))
    then join (codes ", ") (take 3 (a ∷ authors)) ++ codes " [et al.]"
    else join (codes ", ") (a ∷ authors)

year_str : Option ℤ → Text
year_str none = codes "n.d."
year_str (some y) = itoa y

journal_str : Option Text → Text
journal_str none = codes "Unknown journal"
journal_str (some []) = codes "Unknown journal"
journal_str (some (c ∷ name)) = c ∷ name

doi_str : Text → Text
doi_str [] = []
doi_str (c ∷ doi) = codes " DOI: " ++ (c ∷ doi)

-- orDash
unfoldable pub or_dash : Text → Text
or_dash [] = codes "-"
or_dash (c ∷ s) = c ∷ s

concat : List Text → Text
concat [] = []
concat (s ∷ parts) = s ++ concat parts

-- The two formats.
gost : Text → Text → Text → Text → Article → Text
gost authors journal year doi a = concat (
    authors
    ∷ codes " "
    ∷ a.title
    ∷ codes " // "
    ∷ journal
    ∷ codes ". "
    ∷ year
    ∷ codes ". Т. "
    ∷ or_dash a.volume
    ∷ codes " № "
    ∷ or_dash a.issue
    ∷ codes ". С. "
    ∷ or_dash a.pages
    ∷ doi
    ∷ [])

plain : Text → Text → Text → Text → Article → Text
plain authors journal year doi a = concat (
    authors
    ∷ codes ". "
    ∷ a.title
    ∷ codes ". "
    ∷ journal
    ∷ codes ". "
    ∷ year
    ∷ codes ";"
    ∷ or_dash a.volume
    ∷ codes "("
    ∷ or_dash a.issue
    ∷ codes "):"
    ∷ or_dash a.pages
    ∷ doi
    ∷ [])

-- RenderCitation
unfoldable pub render_citation : Article → Option Text → List Text → Text → Text
unfolding authors_str year_str journal_str doi_str or_dash concat gost plain itoa trim_space
render_citation a journal authors style =
    let by = authors_str authors in
    let at = journal_str journal in
    let year = year_str a.pub_year in
    let doi = doi_str a.doi in
    if text_eq style (codes "gost_2003")
    then trim_space (gost by at year doi a)
    else trim_space (plain by at year doi a)
