-- ===== src/Domain/Eligibility/Precedence.antt =====
-- The order in which the signals decide, and what a decision guarantees.
use cindex.Prelude.{ℕ, ◌≤◌, ◌≡◌, ◌↔◌, Bool, true, false, arith, Text, codes}
use cindex.Domain.Article.{Article}
use cindex.Domain.Eligibility.{
  tier_label, round4, scan_text, decide_preprint, decide_peer_review, decide_indexed,
  evaluate_eligibility, EligibilityDecision,
}

-- What each verdict says of its confidence.
record IsGraded (d : EligibilityDecision) : Type 0 where
  peer_top : d.peer_review_conf ≤ 10000
  peer_bottom : d.peer_reviewed ≡ true → 3000 ≤ d.peer_review_conf
  index_top : d.indexing_conf ≤ 10000
  index_bottom : d.indexed ≡ true → 3000 ≤ d.indexing_conf
  card_top : d.doi_and_card_conf ≤ 10000
  card_bottom : d.doi_and_card ≡ true → d.doi_and_card_conf ≡ 10000
  preprint_top : d.not_preprint_conf ≤ 10000
  preprint_bottom : d.not_preprint ≡ true → d.not_preprint_conf ≡ 10000
  preprint_first : d.not_preprint ≡ false → d.peer_reviewed ≡ false

decide_peer_review-graded :
    (ev t k : Text) (p : Bool)
    → ((decide_peer_review ev t k p).1 ≤ 10000)
      × ((decide_peer_review ev t k p).0 ≡ true → 3000 ≤ (decide_peer_review ev t k p).1)
      × (p ≡ true → (decide_peer_review ev t k p).0 ≡ false)
unfolding decide_peer_review
decide_peer_review-graded ev t k p = (ground arith, λ h. ground arith, λ h. ground arith)

decide_indexed-graded :
    (ev t : Text)
    → ((decide_indexed ev t).1 ≤ 10000)
      × ((decide_indexed ev t).0 ≡ true → 3000 ≤ (decide_indexed ev t).1)
unfolding decide_indexed
decide_indexed-graded ev t = (ground arith, λ h. ground arith)

record IsEligible (d : EligibilityDecision) : Type 0 where
  retracted : d.retracted ≡ false
  peer_reviewed : d.peer_reviewed ≡ true
  indexed : d.indexed ≡ true
  doi_and_card : d.doi_and_card ≡ true
  not_preprint : d.not_preprint ≡ true

module _ (lower : ℕ → ℕ) (a : Article) (source_key journal_name : Text) where
  abbrev decision : EligibilityDecision
  decision = evaluate_eligibility lower a source_key journal_name

  evaluate_eligibility-IsGraded : IsGraded decision
  unfolding evaluate_eligibility round4
  evaluate_eligibility-IsGraded = ground (
    arith,
    decide_peer_review-graded a.peer_review_evidence (scan_text lower a) source_key
        (decide_preprint a.preprint_evidence (scan_text lower a) source_key).0,
    decide_indexed-graded a.indexing_evidence (scan_text lower a),
  )

  -- A search result is labelled "none" exactly when the evaluation finds no peer review, and a
  -- preprint always is.
  pub tier_label-eq-none_iff :
      ((tier_label decision.peer_reviewed decision.peer_review_conf ≡ codes "none")
        ↔ (decision.peer_reviewed ≡ false))
      × (decision.not_preprint ≡ false → decision.peer_reviewed ≡ false)
  unfolding tier_label codes
  tier_label-eq-none_iff =
      let g = evaluate_eligibility-IsGraded in
      ((λ h. ground (arith, g), λ h. rw h), g.preprint_first)
