-- ===== src/Service/Translate.antt =====
-- backend/internal/service/translate.go: the cache of translations, and the terms of a query in other
-- languages. The two translation services and the case table are parameters.
pub mod Recent
pub mod Lru
use cindex.Prelude.{
  ℕ, suc, Bool, true, false, not, ◌&&◌, ◌||◌, Option, none, some, List, [], ◌∷◌, ◌++◌, ltb, leb,
  ◌==◌, if◌then◌else◌, Text, codes, text_eq, is_empty, length, take, any,
}
use cindex.Go.Errors.{Result, ok, err}
use cindex.Go.Strings.{trim_space, join}
use cindex.Go.Unicode.{to_lower, byte_len, byte_take}
use cindex.Domain.SearchJob.{lookup, insert}

-- lruCache: its entries, the most recent one first. The map of the source finds the entry of a key in
-- this list.
pub record LruCache : Type 0 where
  pub max : ℕ
  pub entries : List (Text × Text)

unfoldable pub new_lru_cache : ℕ → LruCache
new_lru_cache max = record { max = max; entries = [] }

unfoldable pub remove_key : Text → List (Text × Text) → List (Text × Text)
remove_key key [] = []
remove_key key ((k, v) ∷ entries) =
    let rest = remove_key key entries in if text_eq k key then rest else (k, v) ∷ rest

pub got_from : LruCache → Text → Option Text → Option Text × LruCache
got_from c key none = (none, c)
got_from c key (some value) =
    (some value, record c { entries = (key, value) ∷ remove_key key c.entries })

-- get: the entry that is found becomes the most recent one.
unfoldable pub lru_get : LruCache → Text → Option Text × LruCache
unfolding got_from lookup remove_key
lru_get c key = got_from c key (lookup key c.entries)

pub put_at : LruCache → Text → Text → Option Text → LruCache
put_at c key value (some old) = record c { entries = (key, value) ∷ remove_key key c.entries }
put_at c key value none =
    let entries = (key, value) ∷ c.entries in
    record c {
      entries = if ltb c.max (length entries) then take (length c.entries) entries else entries;
    }

-- put: the oldest entry leaves if there are more than `max`.
unfoldable pub lru_put : LruCache → Text → Text → LruCache
unfolding put_at lookup remove_key
lru_put c key value = put_at c key value (lookup key c.entries)

abbrev pub translate_cache_size : ℕ
translate_cache_size = 512

is_cyrillic : ℕ → Bool
is_cyrillic r = leb 0x400 r && leb r 0x4ff

-- The language of one code point of the second loop.
unfoldable pub script_of : ℕ → Option Text
script_of r =
    if leb 0x4e00 r && leb r 0x9fff
    then some (codes "zh-CN")
    else if (leb 0x3040 r && leb r 0x309f) || (leb 0x31f0 r && leb r 0x31ff)
    then some (codes "ja")
    else if leb 0xac00 r && leb r 0xd7af
    then some (codes "ko")
    else none

first_script : Text → Text
first_script [] = codes "en"
first_script (r ∷ s) = elim (script_of r) [ some lang ↦ lang | none ↦ first_script s ]

-- DetectLanguage
unfoldable pub detect_language : Text → Text
unfolding is_cyrillic first_script script_of
detect_language s = if any is_cyrillic s then codes "ru" else first_script s

abbrev pub source_languages : List (Text × Text)
source_languages =
    (codes "europe_pmc", codes "en")
    ∷ (codes "openalex", codes "en")
    ∷ (codes "crossref", codes "en")
    ∷ (codes "pubmed", codes "en")
    ∷ (codes "arxiv", codes "en")
    ∷ (codes "doaj", codes "en")
    ∷ (codes "pmc", codes "en")
    ∷ (codes "core", codes "en")
    ∷ (codes "biorxiv", codes "en")
    ∷ (codes "medrxiv", codes "en")
    ∷ (codes "dblp", codes "en")
    ∷ (codes "hal", codes "fr")
    ∷ (codes "zenodo", codes "en")
    ∷ (codes "iacr", codes "en")
    ∷ (codes "exa", codes "multi")
    ∷ (codes "cinii", codes "ja")
    ∷ (codes "coaj", codes "zh-CN")
    ∷ (codes "sciengine", codes "zh-CN")
    ∷ (codes "sciopen", codes "zh-CN")
    ∷ (codes "cyberleninka", codes "ru")
    ∷ (codes "mathnet", codes "ru")
    ∷ (codes "scielo", codes "es")
    ∷ (codes "redalyc", codes "es")
    ∷ (codes "korea_science", codes "ko")
    ∷ (codes "persee", codes "fr")
    ∷ (codes "open_edition", codes "fr")
    ∷ (codes "revistas_csic", codes "es")
    ∷ (codes "medknow", codes "en")
    ∷ (codes "dergipark", codes "en")
    ∷ (codes "hrcak", codes "en")
    ∷ (codes "ajol", codes "en")
    ∷ []

-- GetSourceQueryLanguage
unfoldable pub source_query_language : Text → Text
unfolding lookup
source_query_language key = elim (lookup key source_languages) [
  | some lang ↦ lang
  | none ↦ codes "en"
]

-- The answer of a service that is used: it is no error and not blank.
usable : Result Text → Option Text
usable (err text) = none
usable (ok result) = if is_empty (trim_space result) then none else some (trim_space result)

or_next : Option Text → Option Text → Option Text
or_next none other = other
or_next (some t) other = some t

or_query : Text → Option Text → Text
or_query query none = query
or_query query (some t) = t

-- queryText[:500]
clip : Text → Text
clip s = if ltb 500 (byte_len s) then byte_take 500 s else s

module _ (google my_memory : Text → Text → Result Text) where
  -- The translation of the services, or the query itself.
  unfoldable pub translated : Text → Text → Text
  unfolding usable or_next or_query clip byte_len byte_take
  translated query lang =
      let text = clip (trim_space query) in
      or_query query (or_next (usable (google text lang)) (usable (my_memory text lang)))

  -- The cached translation, or a new one, which is cached.
  cached_or : LruCache → Text → Text → Text → Option Text × LruCache → Text × LruCache
  cached_or c key query lang (some t, hit) = (t, hit)
  cached_or c key query lang (none, _) =
      (translated query lang, lru_put c key (translated query lang))

  -- TranslateQuery, with the cache before and behind it.
  unfoldable pub translate_query : LruCache → Text → Text → Text × LruCache
  unfolding detect_language cached_or lru_get lru_put translated
  translate_query c query lang =
      let key = query ++ (0 ∷ lang) in
      if is_empty (trim_space query)
      then (query, c)
      else if text_eq (detect_language query) lang
      then (query, c)
      else cached_or c key query lang (lru_get c key)

  -- TranslateQueryForSource
  unfoldable pub translate_query_for_source : LruCache → Text → Text → Text × LruCache
  unfolding translate_query source_query_language
  translate_query_for_source c query source_key =
      let target = source_query_language source_key in
      if text_eq target (codes "multi") then (query, c) else translate_query c query target

  abbrev exa_search_languages : List Text
  exa_search_languages =
      codes "en"
      ∷ codes "ru"
      ∷ codes "de"
      ∷ codes "fr"
      ∷ codes "es"
      ∷ codes "zh-CN"
      ∷ codes "ja"
      ∷ codes "ko"
      ∷ []

  expand_languages :
      LruCache → Text → List Text → List (Text × Text) → List (Text × Text) × LruCache
  expand_languages c query [] results = (results, c)
  expand_languages c query (lang ∷ langs) results =
      let next = translate_query c query lang in
      expand_languages next.1 query langs
        (if is_empty next.0 then results else insert lang next.0 results)

  -- ExpandQueryForExa
  unfoldable pub expand_query_for_exa : LruCache → Text → List (Text × Text) × LruCache
  unfolding expand_languages translate_query insert
  expand_query_for_exa c query = expand_languages c query exa_search_languages []

  module _ (lower : ℕ → ℕ) where
    -- The loop of ExpandSearchTerms, with the keys that have been seen.
    unfoldable pub expand_terms : LruCache → Text → List Text → List Text → List Text × LruCache
    unfolding translate_query
    expand_terms c query seen [] = ([], c)
    expand_terms c query seen (lang ∷ langs) =
        let next = translate_query c query lang in
        let normalized = trim_space next.0 in
        let key = to_lower lower normalized in
        let fresh = expand_terms next.1 query (key ∷ seen) langs in
        let known = expand_terms next.1 query seen langs in
        if not (is_empty normalized) && not (any (text_eq key) seen)
        then (normalized ∷ fresh.0, fresh.1)
        else known

    abbrev term_languages : List Text
    term_languages = codes "en" ∷ codes "ru" ∷ codes "de" ∷ codes "fr" ∷ codes "es" ∷ []

    -- ExpandSearchTerms
    unfoldable pub expand_search_terms : LruCache → Text → List Text × LruCache
    unfolding expand_terms
    expand_search_terms c query = expand_terms c query (trim_space query ∷ []) term_languages
