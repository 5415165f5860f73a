-- ===== src/Domain/Eligibility/Apply.antt =====
-- A reason that a pass writes into the evidence cannot change the next pass.
use cindex.Prelude.{
  ℕ, ◌≡◌, refl, ap, ◌∙◌, ◌⊎◌, Bool, true, false, [], ◌∷◌, ◌++◌, arith, Text, codes, inl, inr,
}
use cindex.Go.Strings.{has_prefix}
use cindex.Domain.Article.{Article}
use cindex.Domain.Eligibility.{
  fill, decide_preprint, decide_peer_review, evaluate_eligibility, apply_eligibility,
  EligibilityUpdate, EligibilityDecision, update_from, has_tier, tier_a_prefix, tier_b_prefix,
  scan_text, note_retraction,
}

-- The article as UpdateEligibility stores it: the evidence and the note are those of the update.
abbrev pub stored : Article → EligibilityUpdate → Article
stored a u = record a {
  peer_review_evidence = u.peer_review_evidence;
  preprint_evidence = u.preprint_evidence;
  retraction_note = u.retraction_note;
}

fill-eq : (ev reason : Text) → (fill ev reason ≡ ev) ⊎ ((ev ≡ []) × (fill ev reason ≡ reason))
fill-eq [] [] = inl refl
fill-eq [] (c ∷ reason) = inr (refl, refl)
fill-eq (c ∷ ev) [] = inl refl
fill-eq (c ∷ ev) (d ∷ reason) = inl refl

-- Neither evidence starts with a tier.
abbrev Tierless : Text → Type 0
Tierless ev = (has_tier ev tier_a_prefix ≡ false) × (has_tier ev tier_b_prefix ≡ false)

Tierless-nil : Tierless []
unfolding has_tier
Tierless-nil = (refl, refl)

decide_preprint-Tierless : (ev t k : Text) → Tierless ev → Tierless (decide_preprint ev t k).1
decide_preprint-Tierless ev t k h =
    let by_source : Tierless (codes "препринт-источник: " ++ k) =
      unfold has_tier has_prefix codes in (refl, refl) in
    let by_text : Tierless (codes "упоминание препринта в тексте") =
      unfold has_tier has_prefix codes in (refl, refl) in
    unfold decide_preprint in ground (arith, by_source, by_text, Tierless-nil)

decide_peer_review-Tierless :
    (ev t k : Text) (p : Bool) → Tierless ev → Tierless (decide_peer_review ev t k p).2
decide_peer_review-Tierless ev t k p h =
    let by_source : Tierless (codes "рецензируемый источник по репутации: " ++ k) =
      unfold has_tier has_prefix codes in (refl, refl) in
    let by_text : Tierless (codes "упоминание рецензирования в тексте") =
      unfold has_tier has_prefix codes in (refl, refl) in
    unfold decide_peer_review in ground (arith, by_source, by_text, Tierless-nil)

decide_preprint-eq :
    (ev ev' t k : Text)
    → Tierless ev
    → Tierless ev'
    → decide_preprint ev t k ≡ decide_preprint ev' t k
unfolding decide_preprint
decide_preprint-eq ev ev' t k h h' = rw (h.0, h'.0)

decide_peer_review-eq :
    (ev ev' t k : Text) (p : Bool)
    → Tierless ev
    → Tierless ev'
    → decide_peer_review ev t k p ≡ decide_peer_review ev' t k p
unfolding decide_peer_review
decide_peer_review-eq ev ev' t k p h h' = rw (h.0, h'.0, h.1, h'.1)

decide_preprint-fill :
    (ev t k : Text)
    → decide_preprint (fill ev (decide_preprint ev t k).1) t k ≡ decide_preprint ev t k
decide_preprint-fill ev t k = elim (fill-eq ev (decide_preprint ev t k).1) [
  | inl same ↦ ap (λ e. decide_preprint e t k) same
  | inr (nil, filled) ↦
      let bare : Tierless ev = rw nil Tierless-nil in
      ap (λ e. decide_preprint e t k) filled
      ∙ decide_preprint-eq _ ev t k (decide_preprint-Tierless ev t k bare) bare
]

decide_peer_review-fill :
    (ev t k : Text) (p : Bool)
    → decide_peer_review (fill ev (decide_peer_review ev t k p).2) t k p
      ≡ decide_peer_review ev t k p
decide_peer_review-fill ev t k p = elim (fill-eq ev (decide_peer_review ev t k p).2) [
  | inl same ↦ ap (λ e. decide_peer_review e t k p) same
  | inr (nil, filled) ↦
      let bare : Tierless ev = rw nil Tierless-nil in
      ap (λ e. decide_peer_review e t k p) filled
      ∙ decide_peer_review-eq _ ev t k p (decide_peer_review-Tierless ev t k p bare) bare
]

fill_idempotent : (ev reason : Text) → fill (fill ev reason) reason ≡ fill ev reason
fill_idempotent [] [] = refl
fill_idempotent [] (c ∷ reason) = refl
fill_idempotent (c ∷ ev) [] = refl
fill_idempotent (c ∷ ev) (d ∷ reason) = refl

note_idempotent :
    (r : Bool) (note : Text) → note_retraction r (note_retraction r note) ≡ note_retraction r note
unfolding note_retraction codes
note_idempotent true [] = refl
note_idempotent true (c ∷ note) = refl
note_idempotent false note = refl

update_from_idempotent :
    (a : Article) (d : EligibilityDecision)
    → update_from (stored a (update_from a d)) d ≡ update_from a d
unfolding update_from
update_from_idempotent a d = simp (
  fill_idempotent a.peer_review_evidence d.peer_review_reason,
  fill_idempotent a.preprint_evidence d.preprint_reason,
  note_idempotent d.retracted a.retraction_note,
)

module _ (lower : ℕ → ℕ) (a : Article) (source_key journal_name : Text) where
  -- Evaluating the article again after the update has been stored gives the same decision.
  pub evaluate_eligibility-stored :
      evaluate_eligibility lower
        (stored a (apply_eligibility lower a source_key journal_name))
        source_key
        journal_name
      ≡ evaluate_eligibility lower a source_key journal_name
  evaluate_eligibility-stored =
      let t = scan_text lower a in
      let p = decide_preprint-fill a.preprint_evidence t source_key in
      let r =
        decide_peer_review-fill a.peer_review_evidence t source_key
          (decide_preprint a.preprint_evidence t source_key).0 in
      unfold evaluate_eligibility apply_eligibility scan_text in simp (p, r)

  -- Applying the rules again to the stored article changes nothing.
  pub apply_eligibility_idempotent :
      apply_eligibility lower
        (stored a (apply_eligibility lower a source_key journal_name))
        source_key
        journal_name
      ≡ apply_eligibility lower a source_key journal_name
  unfolding apply_eligibility
  apply_eligibility_idempotent =
      ap (update_from (stored a (apply_eligibility lower a source_key journal_name)))
        evaluate_eligibility-stored
      ∙ update_from_idempotent a (evaluate_eligibility lower a source_key journal_name)
