-- ===== src/Connector/Texts.antt =====
-- The helpers of backend/internal/connector/text.go that normalise text and read numbers. The case
-- table of package unicode is the parameter `lower`.
pub mod Tags
pub mod Evidence
pub mod Numbers
use cindex.Prelude.{
  ℕ, zero, suc, ◌+◌, ◌-◌, ◌*◌, ◌%◌, Bool, true, false, not, ◌&&◌, ◌||◌, Option, none, some, List,
  [], ◌∷◌, ◌++◌, ltb, leb, ◌==◌, if◌then◌else◌, Text, codes, text_eq, is_empty, length, any, take,
  map,
}
use cindex.Prelude.Int.{ℤ, pos, ltb_ℤ}
use cindex.Go.Ints.{word, signed}
use cindex.Go.Strings.{trim_space, trim_right_set, contains, has_prefix, fields_func}
use cindex.Go.Unicode.{to_lower, byte_len}

-- `\s` of package regexp.
unfoldable pub is_blank : ℕ → Bool
is_blank c = c == 9 || c == 10 || c == 12 || c == 13 || c == 32

-- nonWordPattern.ReplaceAllString(value, " "): one space for every run of blanks; the flag says
-- whether the code point before belongs to one.
unfoldable pub collapse : Bool → Text → Text
unfolding is_blank
collapse inside [] = []
collapse inside (c ∷ s) =
    let blank = collapse true s in
    let other = c ∷ collapse false s in
    if is_blank c then (if inside then blank else 32 ∷ blank) else other

unfoldable pub is_cut : ℕ → Bool
is_cut c = c == 32 || c == 9 || c == 10

-- The cut to at most `max_len` code points; `none` is a negative maxLen.
unfoldable pub cut_to : Option ℕ → Text → Text
unfolding trim_right_set is_cut
cut_to none value = value
cut_to (some max_len) value =
    if ltb max_len (length value) then trim_right_set is_cut (take max_len value) else value

-- NormalizeScholarly
unfoldable pub normalize_scholarly : Option ℕ → Text → Text
unfolding collapse cut_to
normalize_scholarly max_len value = cut_to max_len (trim_space (collapse false (trim_space value)))

-- The loop of StripHTMLTags.
unfoldable pub drop_tags : Bool → Text → Text
drop_tags in_tag [] = []
drop_tags in_tag (c ∷ s) =
    let opened = drop_tags true s in
    let closed = drop_tags false s in
    if c == 60 then opened else if c == 62 then closed else if in_tag then opened else c ∷ closed

-- StripHTMLTags
unfoldable pub strip_html_tags : Text → Text
unfolding drop_tags normalize_scholarly
strip_html_tags s = normalize_scholarly none (drop_tags false s)

-- fullTextFor
unfoldable pub full_text_for : Text → Text → Text
full_text_for title abstract = if is_empty abstract then title else title ++ (codes " " ++ abstract)

keep_trimmed : List Text → List Text
keep_trimmed [] = []
keep_trimmed (p ∷ parts) =
    let rest = keep_trimmed parts in if is_empty (trim_space p) then rest else trim_space p ∷ rest

-- SplitAuthors
unfoldable pub split_authors : Text → List Text
unfolding keep_trimmed fields_func
split_authors s = keep_trimmed (fields_func (λ c. c == 44 || c == 59) s)

unfoldable pub is_digit : ℕ → Bool
is_digit c = leb 48 c && leb c 57

-- The loop of ToInt, over the 64 bits of n.
unfoldable pub to_int_from : ℕ → Text → ℤ
unfolding signed is_digit
to_int_from n [] = signed n
to_int_from n (c ∷ s) =
    let rest = to_int_from ((n * 10 + (c - 48)) % word) s in if is_digit c then rest else pos 0

-- ToInt
unfoldable pub to_int : Text → ℤ
unfolding to_int_from
to_int s = to_int_from 0 s

abbrev pub peer_review_tokens : List Text
peer_review_tokens =
    codes "peer reviewed"
    ∷ codes "peer-review"
    ∷ codes "refereed"
    ∷ codes "double blind review"
    ∷ []

abbrev pub indexing_tokens : List Text
indexing_tokens =
    codes "scopus"
    ∷ codes "web of science"
    ∷ codes "medline"
    ∷ codes "pmc"
    ∷ codes "pubmed central"
    ∷ codes "kci"
    ∷ codes "tr dizin"
    ∷ codes "doaj"
    ∷ []

abbrev pub preprint_tokens : List Text
preprint_tokens =
    codes "preprint"
    ∷ codes "author manuscript"
    ∷ codes "accepted manuscript"
    ∷ codes "working paper"
    ∷ []

abbrev pub bad_article_tokens : List Text
bad_article_tokens =
    codes "browse"
    ∷ codes "advanced search"
    ∷ codes "journal collections"
    ∷ codes "home"
    ∷ codes "login"
    ∷ codes "about"
    ∷ codes "help"
    ∷ []

-- The test of titleIsArticleLike on the trimmed title.
trimmed_is_article_like : (ℕ → ℕ) → Text → Bool
trimmed_is_article_like lower title =
    not (ltb (length title) 18) && not (any (text_eq (to_lower lower title)) bad_article_tokens)

unfoldable pub title_is_article_like : (ℕ → ℕ) → Text → Bool
unfolding trimmed_is_article_like
title_is_article_like lower title = trimmed_is_article_like lower (trim_space title)

-- IsArticleLikeItem
unfoldable pub is_article_like_item : (ℕ → ℕ) → Text → Text → Text → ℤ → Bool
unfolding title_is_article_like
is_article_like_item lower title url doi year =
    title_is_article_like lower title
    && has_prefix url (codes "http")
    && (not (is_empty doi) || ltb_ℤ (pos 0) year)

-- mergeTokenSet, with the evidence that has been merged so far.
unfoldable pub merge_tokens : (ℕ → ℕ) → Text → Text → List Text → Text
unfolding contains
merge_tokens lower text merged [] = merged
merge_tokens lower text merged (tok ∷ tokens) =
    let longer = merge_tokens lower text (trim_space (merged ++ (codes " " ++ tok))) tokens in
    let same = merge_tokens lower text merged tokens in
    if contains text tok && not (contains (to_lower lower merged) tok) then longer else same

unfoldable pub merge_token_set : (ℕ → ℕ) → Text → Text → List Text → Text
unfolding merge_tokens
merge_token_set lower text existing tokens = merge_tokens lower text (trim_space existing) tokens

-- MergeEvidence: the evidence of peer review, of indexing and of a preprint.
unfoldable pub merge_evidence : (ℕ → ℕ) → Text → Text × Text × Text → Text × Text × Text
unfolding merge_token_set
merge_evidence lower text (peer, indexing, preprint) =
    let low = to_lower lower text in
    (
      merge_token_set lower low peer peer_review_tokens,
      merge_token_set lower low indexing indexing_tokens,
      merge_token_set lower low preprint preprint_tokens,
    )

-- The loop of MergeEvidenceSkipPreprint.
unfoldable pub skip_peer : Text → Text × Text → List Text → Text × Text
unfolding contains
skip_peer low (peer, preprint) [] = (peer, preprint)
skip_peer low (peer, preprint) (tok ∷ tokens) =
    let found = skip_peer low ([], tok) tokens in
    let other = skip_peer low (peer, preprint) tokens in if contains low tok then found else other

-- MergeEvidenceSkipPreprint
unfoldable pub merge_evidence_skip_preprint :
    (ℕ → ℕ) → Text → Text × Text × Text → Text × Text × Text
unfolding skip_peer merge_evidence
merge_evidence_skip_preprint lower text (peer, indexing, preprint) =
    let skipped = skip_peer (to_lower lower text) (peer, preprint) preprint_tokens in
    merge_evidence lower text (skipped.0, indexing, skipped.1)
