-- ===== src/Connector/OpenAlex.antt =====
-- `openalex` of backend/internal/connector/api_connectors.go: OpenAlex, and Medknow with its host filter.
-- The records are decoded by the transport; url.QueryEscape and the case table are parameters.
use cindex.Prelude.{
  ℕ, zero, suc, ◌-◌, ◌*◌, Bool, false, not, ◌||◌, ◌&&◌, Option, none, some, List, [], ◌∷◌, ◌++◌,
  ltb, leb, ◌==◌, if◌then◌else◌, Text, codes, text_eq, is_empty, any,
}
use cindex.Prelude.Int.{ℤ, pos, negsuc, pos_part, ltb_ℤ}
use cindex.Go.Strings.{trim_space, trim_prefix, remove_all, join}
use cindex.Go.Strconv.{itoa_ℕ}
use cindex.Go.Unicode.{byte_len, byte_take, rune_len}
use cindex.Connector.{RawArticle}
use cindex.Connector.Errors.{Reply, got, ◌>>=◌}
use cindex.Connector.Texts.{is_article_like_item}
use cindex.Connector.Patterns.{extract_doi, extract_year}

-- The name and the type of a location's source.
pub record AlexSource : Type 0 where
  pub display_name : Text
  pub kind : Text

-- openAlexRecord. The best location is that of BestOALocation; a nil one has no source.
pub record OpenAlexRecord : Type 0 where
  pub id : Text
  pub display_name : Text
  pub title : Text
  pub doi : Text
  pub kind : Text
  pub is_retracted : Bool
  pub cited_by_count : ℕ
  pub publication_date : Text
  pub publication_year : ℤ
  pub language : Text
  pub landing_page_url : Text
  pub pdf_url : Text
  pub primary_source : Option AlexSource
  pub best_source : Option AlexSource
  pub authorships : List Text
  pub abstract_inverted_index : List (Text × List ℤ)

stands_at : ℕ → ℤ → Bool
stands_at i (pos n) = n == i
stands_at i (negsuc n) = false

-- words[i]: the word that is written last at the position.
unfoldable pub word_at : ℕ → List (Text × List ℤ) → Option Text
unfolding stands_at
word_at i [] = none
word_at i ((word, positions) ∷ index) =
    let later = word_at i index in
    elim later [ some w ↦ some w | none ↦ if any (stands_at i) positions then some word else none ]

larger : ℕ → ℕ → ℕ
larger a b = if ltb a b then b else a

last_of : List ℤ → ℕ
last_of [] = 0
last_of (p ∷ positions) = larger (pos_part p) (last_of positions)

last_position : List (Text × List ℤ) → ℕ
last_position [] = 0
last_position ((word, positions) ∷ index) = larger (last_of positions) (last_position index)

push_word : Option Text → List Text → List Text
push_word none words = words
push_word (some w) words = w ∷ words

-- The words at `left` positions from `i` on.
words_from : List (Text × List ℤ) → ℕ → ℕ → List Text
words_from index zero i = []
words_from index (suc left) i = push_word (word_at i index) (words_from index left (suc i))

-- rebuildInvertedIndex
unfoldable pub rebuild_inverted_index : List (Text × List ℤ) → Text
unfolding words_from push_word word_at last_position last_of larger join
rebuild_inverted_index [] = []
rebuild_inverted_index (entry ∷ index) =
    join (codes " ") (words_from (entry ∷ index) (suc (last_position (entry ∷ index))) 0)

-- date[n] == '-', by bytes.
dash_at : ℕ → Text → Bool
dash_at n [] = false
dash_at n (c ∷ s) =
    let rest = dash_at (n - rune_len c) s in
    if n == 0 then c == 45 else if leb (rune_len c) n then rest else false

dated : Text → ℕ → ℕ
dated date y = if y == 0 then 0 else if text_eq (byte_take 4 date) (itoa_ℕ y) then y else 0

-- strictYear in the year `now`; a year that ExtractYear finds has four digits.
unfoldable pub strict_year : ℕ → Text → ℕ
unfolding dash_at dated byte_len byte_take extract_year itoa_ℕ
strict_year now date =
    if not (byte_len date == 10) || not (dash_at 4 date) || not (dash_at 7 date)
    then 0
    else dated date (extract_year now date)

name_of : Option AlexSource → Text
name_of none = []
name_of (some s) = trim_space s.display_name

-- openAlexJournal
unfoldable pub open_alex_journal : OpenAlexRecord → Text
unfolding name_of
open_alex_journal r =
    if is_empty (name_of r.primary_source) then name_of r.best_source else name_of r.primary_source

trimmed_names : List Text → List Text
trimmed_names [] = []
trimmed_names (n ∷ names) =
    let rest = trimmed_names names in if is_empty (trim_space n) then rest else trim_space n ∷ rest

or_text : Text → Text → Text
or_text [] other = other
or_text (c ∷ s) other = c ∷ s

year_if : ℕ → Option ℤ
year_if zero = none
year_if (suc y) = some (pos (suc y))

is_journal : Option AlexSource → Bool
is_journal none = false
is_journal (some s) = text_eq s.kind (codes "journal")

-- The evidence of peer review and of a preprint, by the type of the record.
alex_evidence : OpenAlexRecord → Text × Text
alex_evidence r =
    if text_eq r.kind (codes "preprint")
    then ([], codes "TIER_A OpenAlex: preprint")
    else if text_eq r.kind (codes "article") && is_journal r.primary_source
    then (codes "TIER_B OpenAlex: journal article", [])
    else ([], [])

module _ (key : Text) (now : ℕ) where
  -- The record of buildOpenAlex, by its title and abstract.
  alex_raw : OpenAlexRecord → Text → Text → RawArticle
  alex_raw r title abstract = record {
    source_key = key;
    title = title;
    url = or_text r.landing_page_url r.id;
    abstract = abstract;
    full_text = title ++ (codes " " ++ abstract);
    language = codes "en";
    year = year_if (strict_year now r.publication_date);
    doi = or_text (remove_all r.doi (codes "https://doi.org/")) (extract_doi abstract);
    journal = open_alex_journal r;
    authors = trimmed_names r.authorships;
    volume = [];
    issue = [];
    pages = [];
    peer_review_evidence = (alex_evidence r).0;
    indexing_evidence = codes "TIER_B OpenAlex";
    preprint_evidence = (alex_evidence r).1;
    is_retracted = r.is_retracted;
    retraction_note = [];
    cited_by_count = r.cited_by_count;
  }

  -- buildOpenAlex
  unfoldable pub build_open_alex : OpenAlexRecord → Option RawArticle
  unfolding alex_raw alex_evidence is_journal year_if or_text trimmed_names open_alex_journal
      strict_year rebuild_inverted_index extract_doi remove_all
  build_open_alex r =
      let title = or_text (trim_space r.title) (trim_space r.display_name) in
      let abstract = trim_space (rebuild_inverted_index r.abstract_inverted_index) in
      if is_empty title
      then none
      else if is_empty abstract
      then none
      else some (alex_raw r title abstract)

  -- The journal of Medknow.
  medknow_journal : Option AlexSource → Text
  medknow_journal none = codes "Medknow"
  medknow_journal (some s) = or_text s.display_name (codes "Medknow")

  positive_or : ℤ → ℕ → ℤ
  positive_or year other = if ltb_ℤ (pos 0) year then year else pos other

  year_of : ℤ → Option ℤ
  year_of y = if ltb_ℤ (pos 0) y then some y else none

  medknow_raw : OpenAlexRecord → Text → Text → Text → Text → ℤ → RawArticle
  medknow_raw r title abstract url doi year =
      let journal = medknow_journal r.primary_source in
      record {
        source_key = key;
        title = title;
        url = url;
        abstract = abstract;
        full_text = join (codes " ") (title ∷ abstract ∷ journal ∷ r.language ∷ []);
        language = r.language;
        year = year_of year;
        doi = doi;
        journal = journal;
        authors = trimmed_names r.authorships;
        volume = [];
        issue = [];
        pages = [];
        peer_review_evidence = [];
        indexing_evidence = [];
        preprint_evidence = [];
        is_retracted = r.is_retracted;
        retraction_note = [];
        cited_by_count = r.cited_by_count;
      }

  -- buildMedknow
  unfoldable pub build_medknow : (ℕ → ℕ) → OpenAlexRecord → Option RawArticle
  unfolding medknow_raw medknow_journal positive_or year_of or_text trimmed_names strict_year
      rebuild_inverted_index trim_prefix is_article_like_item join
  build_medknow lower r =
      let title = or_text (trim_space r.display_name) (trim_space r.title) in
      let doi_url = trim_space r.doi in
      let doi =
        trim_prefix (trim_prefix doi_url (codes "https://doi.org/")) (codes "http://doi.org/") in
      let url = or_text (or_text r.landing_page_url r.pdf_url) doi_url in
      let abstract = trim_space (rebuild_inverted_index r.abstract_inverted_index) in
      let year = positive_or r.publication_year (strict_year now r.publication_date) in
      if not (is_article_like_item lower title url doi year)
      then none
      else some (medknow_raw r title abstract url doi year)

keep : ℕ → ℕ → Option RawArticle → List RawArticle → List RawArticle → List RawArticle
keep limit n none same more = same
keep limit n (some raw) same more = raw ∷ (if leb limit (suc n) then [] else more)

-- The loop of Fetch, behind `n` records: it ends as soon as there are `limit` of them.
unfoldable pub collect :
    (OpenAlexRecord → Option RawArticle) → ℕ → ℕ → List OpenAlexRecord → List RawArticle
unfolding keep
collect build limit n [] = []
collect build limit n (r ∷ rs) =
    keep limit n (build r) (collect build limit n rs) (collect build limit (suc n) rs)

-- The URL of Fetch, over the profile's search URL and url.QueryEscape.
unfoldable pub search_url : (Text → Text) → Text → Text → Text → ℕ → Text
unfolding itoa_ℕ larger
search_url quote_plus api_url [] query limit =
    api_url
    ++ (codes "?search=" ++ (quote_plus query ++ (codes "&per-page=" ++ itoa_ℕ (limit * 3))))
search_url quote_plus api_url host_filter query limit =
    api_url
    ++ (codes "?filter=primary_location.source.host_organization:"
        ++ (host_filter
            ++ (codes "&search="
                ++ (quote_plus query ++ (codes "&per-page=" ++ itoa_ℕ (larger 3 (limit * 2)))))))

-- Fetch, over the answer of GetJSON to its URL.
unfoldable pub fetch :
    (ℕ → ℕ) → Text → ℕ → Text → ℕ → Reply (List OpenAlexRecord) → Reply (List RawArticle)
unfolding collect build_open_alex build_medknow
fetch lower key now host_filter limit answer = answer >>= (λ rs. got (
    collect (if is_empty host_filter then build_open_alex key now else build_medknow key now lower)
      limit 0 rs))
