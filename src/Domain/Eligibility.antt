-- ===== src/Domain/Eligibility.antt =====
-- backend/internal/domain/eligibility.go. A confidence is a number of ten-thousandths, so that
-- `round4` is exact; the case table of package unicode is the parameter `lower`.
pub mod Doi
pub mod Precedence
pub mod Apply
use cindex.Prelude.{
  ℕ, ◌+◌, ◌*◌, ◌/◌, Bool, true, false, not, ◌&&◌, ◌||◌, List, [], ◌∷◌, ◌++◌, ltb, leb,
  if◌then◌else◌, Text, codes, text_eq, is_empty, any,
}
use cindex.Go.Strings.{has_prefix, contains, join}
use cindex.Go.Unicode.{byte_take, to_lower}
use cindex.Domain.Article.{Article}
use Doi.{has_doi}

abbrev pub tier_a_prefix : Text
tier_a_prefix = codes "tierA:"

abbrev pub tier_b_prefix : Text
tier_b_prefix = codes "tierB:"

abbrev pub confidence_tier_a : ℕ
confidence_tier_a = 10000

abbrev pub confidence_tier_b : ℕ
confidence_tier_b = 7000

abbrev pub confidence_source_default : ℕ
confidence_source_default = 6000

abbrev pub confidence_keyword : ℕ
confidence_keyword = 3000

abbrev pub confidence_none : ℕ
confidence_none = 0

-- A map to `true`, as the list of its keys.
abbrev is_key : Text → List Text → Bool
is_key k = any (text_eq k)

unfoldable pub peer_reviewed_by_default : Text → Bool
peer_reviewed_by_default k = is_key k (
    codes "pubmed"
    ∷ codes "pmc"
    ∷ codes "europe_pmc"
    ∷ codes "doaj"
    ∷ codes "scielo"
    ∷ codes "mathnet"
    ∷ [])

unfoldable pub preprint_sources : Text → Bool
preprint_sources k = is_key k (codes "arxiv" ∷ codes "iacr" ∷ [])

unfoldable pub indexing_keywords : List Text
indexing_keywords =
    codes "scopus"
    ∷ codes "web of science"
    ∷ codes "medline"
    ∷ codes "pmc"
    ∷ codes "pubmed"
    ∷ codes "pubmed central"
    ∷ codes "kci"
    ∷ codes "tr dizin"
    ∷ codes "esci"
    ∷ codes "doaj"
    ∷ codes "openalex"
    ∷ codes "crossref"
    ∷ codes "semantic scholar"
    ∷ []

unfoldable pub preprint_keywords : List Text
preprint_keywords =
    codes "preprint"
    ∷ codes "author manuscript"
    ∷ codes "accepted manuscript"
    ∷ codes "working paper"
    ∷ []

unfoldable pub peer_review_keywords : List Text
peer_review_keywords =
    codes "peer reviewed"
    ∷ codes "peer-review"
    ∷ codes "refereed"
    ∷ codes "double blind review"
    ∷ []

unfoldable pub has_tier : Text → Text → Bool
has_tier evidence tier = not (is_empty evidence) && has_prefix evidence tier

unfoldable pub tier_label : Bool → ℕ → Text
tier_label is_peer_reviewed confidence =
    if not is_peer_reviewed
    then codes "none"
    else if leb confidence_tier_a confidence
    then codes "A"
    else if leb confidence_tier_b confidence
    then codes "B"
    else if leb confidence_source_default confidence
    then codes "source-default"
    else if leb confidence_keyword confidence
    then codes "keyword"
    else codes "none"

pub record EligibilityDecision : Type 0 where
  pub peer_reviewed : Bool
  pub indexed : Bool
  pub doi_and_card : Bool
  pub not_preprint : Bool
  pub peer_review_conf : ℕ
  pub indexing_conf : ℕ
  pub doi_and_card_conf : ℕ
  pub not_preprint_conf : ℕ
  pub peer_review_reason : Text
  pub preprint_reason : Text
  pub retracted : Bool

unfoldable pub eligible : EligibilityDecision → Bool
eligible d = not d.retracted && d.peer_reviewed && d.indexed && d.doi_and_card && d.not_preprint

-- round4(total / parts): to the nearest ten-thousandth, half up.
unfoldable pub round4 : ℕ → ℕ → ℕ
round4 total parts = (2 * total + parts) / (2 * parts)

unfoldable pub overall_confidence : EligibilityDecision → ℕ
unfolding round4
overall_confidence d =
    round4 (d.peer_review_conf + d.indexing_conf + d.doi_and_card_conf + d.not_preprint_conf) 4

-- `truncate`: s[:n] when s is longer; a cut of a shorter text is the text.
unfoldable pub truncate : Text → ℕ → Text
truncate s n = byte_take n s

-- A keyword of the list occurs in the text.
abbrev mentions : Text → List Text → Bool
mentions scan_text = any (λ tok. contains scan_text tok)

unfoldable pub decide_preprint : Text → Text → Text → Bool × Text
decide_preprint preprint_ev scan_text source_key =
    if has_tier preprint_ev tier_a_prefix
    then (true, [])
    else if preprint_sources source_key
    then (true, codes "препринт-источник: " ++ source_key)
    else if mentions scan_text preprint_keywords
    then (true, codes "упоминание препринта в тексте")
    else (false, [])

unfoldable pub decide_peer_review : Text → Text → Text → Bool → Bool × ℕ × Text
decide_peer_review peer_ev scan_text source_key is_preprint =
    if is_preprint
    then (false, confidence_tier_a, [])
    else if has_tier peer_ev tier_a_prefix
    then (true, confidence_tier_a, [])
    else if has_tier peer_ev tier_b_prefix
    then (true, confidence_tier_b, [])
    else if peer_reviewed_by_default source_key
    then (
      true,
      confidence_source_default,
      codes "рецензируемый источник по репутации: " ++ source_key,
    )
    else if mentions scan_text peer_review_keywords
    then (true, confidence_keyword, codes "упоминание рецензирования в тексте")
    else (false, confidence_none, [])

-- The indexing block of EvaluateEligibility.
unfoldable pub decide_indexed : Text → Text → Bool × ℕ
decide_indexed index_ev scan_text =
    if has_tier index_ev tier_a_prefix || has_tier index_ev tier_b_prefix
    then (true, if has_tier index_ev tier_a_prefix then confidence_tier_a else confidence_tier_b)
    else if mentions scan_text indexing_keywords
    then (true, confidence_keyword)
    else (false, confidence_none)

-- 1.0 for a fact, 0.0 otherwise.
abbrev certain : Bool → ℕ
certain b = if b then 10000 else 0

module _ (lower : ℕ → ℕ) where
  unfoldable pub scan_text : Article → Text
  unfolding truncate
  scan_text a =
      to_lower lower (join (codes " ") (a.title ∷ a.abstract ∷ truncate a.full_text 5000 ∷ []))

  unfoldable pub evaluate_eligibility : Article → Text → Text → EligibilityDecision
  unfolding decide_preprint decide_peer_review decide_indexed round4 scan_text
  evaluate_eligibility a source_key journal_name =
      let scanned = scan_text a in
      let (is_preprint, preprint_reason) = decide_preprint a.preprint_evidence scanned source_key in
      let (peer_reviewed, peer_review_conf, peer_review_reason) =
        decide_peer_review a.peer_review_evidence scanned source_key is_preprint in
      let (indexed, indexing_conf) = decide_indexed a.indexing_evidence scanned in
      let with_doi = has_doi a.doi || has_doi scanned in
      let journal_card = not (is_empty journal_name) in
      record {
        peer_reviewed = peer_reviewed;
        indexed = indexed;
        doi_and_card = with_doi && journal_card;
        not_preprint = not is_preprint;
        peer_review_conf = peer_review_conf;
        indexing_conf = indexing_conf;
        doi_and_card_conf = round4 (certain with_doi + certain journal_card) 2;
        not_preprint_conf = certain (not is_preprint);
        peer_review_reason = peer_review_reason;
        preprint_reason = preprint_reason;
        retracted = a.is_retracted;
      }

pub record EligibilityUpdate : Type 0 where
  pub is_peer_reviewed_or_refereed : Bool
  pub is_indexed_in_reputable_db : Bool
  pub has_doi_and_journal_card : Bool
  pub is_not_preprint_or_manuscript : Bool
  pub is_eligible : Bool
  pub peer_review_confidence : ℕ
  pub indexing_confidence : ℕ
  pub doi_and_card_confidence : ℕ
  pub not_preprint_confidence : ℕ
  pub eligibility_confidence : ℕ
  pub peer_review_evidence : Text
  pub preprint_evidence : Text
  pub retraction_note : Text

-- A reason fills an empty evidence field.
abbrev fill : Text → Text → Text
fill evidence reason = if not (is_empty reason) && is_empty evidence then reason else evidence

-- The default note of a retracted article without one.
note_retraction : Bool → Text → Text
note_retraction retracted note =
    if retracted && is_empty note then codes "статья отозвана (retraction)" else note

-- The update that a decision asks for.
update_from : Article → EligibilityDecision → EligibilityUpdate
unfolding eligible overall_confidence note_retraction
update_from a d = record {
  is_peer_reviewed_or_refereed = d.peer_reviewed;
  is_indexed_in_reputable_db = d.indexed;
  has_doi_and_journal_card = d.doi_and_card;
  is_not_preprint_or_manuscript = d.not_preprint;
  is_eligible = eligible d;
  peer_review_confidence = d.peer_review_conf;
  indexing_confidence = d.indexing_conf;
  doi_and_card_confidence = d.doi_and_card_conf;
  not_preprint_confidence = d.not_preprint_conf;
  eligibility_confidence = overall_confidence d;
  peer_review_evidence = fill a.peer_review_evidence d.peer_review_reason;
  preprint_evidence = fill a.preprint_evidence d.preprint_reason;
  retraction_note = note_retraction d.retracted a.retraction_note;
}

unfoldable pub apply_eligibility : (ℕ → ℕ) → Article → Text → Text → EligibilityUpdate
unfolding update_from
apply_eligibility lower a source_key journal_name =
    update_from a (evaluate_eligibility lower a source_key journal_name)
