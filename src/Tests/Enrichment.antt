-- ===== src/Tests/Enrichment.antt =====
-- The lookup of missing metadata for a sample article.
use cindex.Prelude.{
  ◌≡◌, ◌≤◌, length, text_eq, Text, refl, arith, ◌||◌, if◌then◌else◌, none, some, List, [], ◌∷◌, map,
  codes, any,
}
use cindex.Prelude.Int.{pos}
use cindex.Service.Enrichment.{
  EnrichCandidate, Enrichment, Progress, apply_cascade, missing_fields, truncate_runes, no_names,
  is_unknown,
}
use cindex.Service.Enrichment.Cascade.{
  first_full, first_year, or_else, or_year, apply_cascade-first,
}
use cindex.Service.Enrichment.Limiter.{WaitCall, wait, passed, Spaced, Ordered, passed-Spaced}
use cindex.Service.Translate.{LruCache, new_lru_cache, lru_get, lru_put}
use cindex.Service.Translate.Lru.{Use, get_key, put_key, use_all, last_put, Once, use_all-lru}
use cindex.Tests.Samples.{paper}

abbrev bare : EnrichCandidate
bare = record {
  article = record paper { abstract = []; pub_year = none; volume = codes "7"; pages = [] };
  authors = codes "Unknown author" ∷ [];
}

abbrev from_crossref : Enrichment
from_crossref = record {
  authors = [];
  abstract = [];
  year = some (pos 1998);
  volume = codes "8";
  issue = [];
  pages = codes "1-9";
}

abbrev from_openalex : Enrichment
from_openalex = record {
  authors = codes "E. Noether" ∷ [];
  abstract = codes "Ideals.";
  year = some (pos 1999);
  volume = [];
  issue = [];
  pages = codes "1";
}

abbrev answers : List Enrichment
answers = from_crossref ∷ from_openalex ∷ []

abbrev filled : Progress
filled = apply_cascade bare.article (missing_fields bare) answers

apply_cascade-first_example :
    (filled.article.abstract
      ≡ or_else bare.article.abstract
          (first_full (map (λ e. truncate_runes e.abstract 8000) answers)))
    × (filled.article.pub_year
        ≡ or_year bare.article.pub_year (first_year (map (λ e. e.year) answers)))
    × (filled.article.volume
        ≡ or_else bare.article.volume (first_full (map (λ e. e.volume) answers)))
    × (filled.article.issue ≡ or_else bare.article.issue (first_full (map (λ e. e.issue) answers)))
    × (filled.article.pages ≡ or_else bare.article.pages (first_full (map (λ e. e.pages) answers)))
    × (filled.pending_authors ≡ (
        if no_names bare.authors || any is_unknown bare.authors
        then first_full (map (λ e. e.authors) answers)
        else []))
apply_cascade-first_example = apply_cascade-first bare answers

-- The year of the first source that has one, and the volume that the article had.
first_year_wins : (filled.article.pub_year ≡ some (pos 1998)) × (filled.article.volume ≡ codes "7")
unfolding apply_cascade missing_fields codes
first_year_wins = (refl, refl)

-- Two calls of Crossref, 50 ms apart.
abbrev two_calls : List WaitCall
two_calls =
    record { now = 1000; late = 0; stop = none } ∷ record { now = 1050; late = 3; stop = none } ∷ []

two_calls-Ordered : Ordered 100 0 two_calls
unfolding Ordered wait
two_calls-Ordered = (
  omega arith,
  (λ t e. let same : 1000 ≡ t = cc in (omega (arith, same), (λ u f. tt), (λ f. tt))),
  (λ e. cc),
)

passed-Spaced_example : Spaced 100 0 (passed 100 0 two_calls)
passed-Spaced_example = passed-Spaced 100 0 two_calls two_calls-Ordered

-- A cache of two entries behind three puts.
abbrev three_puts : List Use
three_puts =
    put_key (codes "a") (codes "1")
    ∷ put_key (codes "b") (codes "2")
    ∷ get_key (codes "a")
    ∷ put_key (codes "c") (codes "3")
    ∷ []

abbrev small_cache : LruCache
small_cache = use_all (new_lru_cache 2) three_puts

use_all-lru_example :
    (length small_cache.entries ≤ 2)
    × Once small_cache.entries
    × ((k v : Text) → (lru_get small_cache k).0 ≡ some v → last_put k none three_puts ≡ some v)
    × (2 ≤ 2
        → (lru_get
            (use_all (lru_put small_cache (codes "b") (codes "4")) (get_key (codes "a") ∷ []))
            (codes "b")).0
          ≡ last_put (codes "b") (some (codes "4")) (get_key (codes "a") ∷ []))
use_all-lru_example = use_all-lru 2 three_puts (get_key (codes "a") ∷ []) (codes "b") (codes "4")

-- The oldest key has left.
oldest_left : small_cache.entries ≡ (codes "c", codes "3") ∷ (codes "a", codes "1") ∷ []
unfolding use_all new_lru_cache lru_get lru_put codes text_eq
oldest_left = refl
