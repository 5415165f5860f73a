-- ===== src/Connector/Texts/Evidence.antt =====
-- The evidence that `MergeEvidence` (connector/text.go) collects.
use mathlib.Core.Bool.{false≢true}
use cindex.Prelude.{
  ℕ, ◌≡◌, ◌≢◌, ◌⊎◌, refl, sym, ap, subst, ◌∙◌, inl, inr, Bool, true, false, not, ◌&&◌, if-cases,
  List, [], ◌∷◌, ◌++◌, Text, codes, All,
}
use cindex.Go.Strings.{trim_space, contains}
use cindex.Go.Strings.Trim.{Trimmed, trim_space-Trimmed, trim_space-lem, trim_space-append}
use cindex.Go.Strings.Contains.{contains-append_left, contains-append_right, contains_self}
use cindex.Go.Unicode.{to_lower}
use cindex.Connector.Texts.{
  merge_tokens, merge_token_set, merge_evidence, peer_review_tokens, indexing_tokens,
  preprint_tokens,
}

known : (a b : Bool) → a && not b ≡ false → a ≡ true → b ≡ true
known true true e h = refl
known true false e h = sym e
known false b e h = absurd (false≢true h)

conflict : (a b : Bool) → (a ≡ true → b ≡ true) → a && not b ≢ true
conflict true true f e = false≢true e
conflict true false f e = false≢true (f refl)
conflict false b f e = false≢true e

-- A token of the lists: trimmed, not empty and in lower case.
pub record IsToken (lower : ℕ → ℕ) (tok : Text) : Type 0 where
  pub trimmed : Trimmed tok
  pub full : tok ≢ []
  pub lowered : to_lower lower tok ≡ tok

module _ (lower : ℕ → ℕ) (text : Text) where
  Holds : Text → Text → Type 0
  Holds merged t = contains (to_lower lower merged) t ≡ true

  to_lower-append : (s t : Text) → to_lower lower (s ++ t) ≡ to_lower lower s ++ to_lower lower t
  to_lower-append [] t = refl
  to_lower-append (c ∷ s) t = ap (λ r. lower c ∷ r) (to_lower-append s t)

  -- The evidence with one more token.
  longer : Text → Text → Text
  longer merged tok = trim_space (merged ++ (codes " " ++ tok))

  longer-cases :
      (merged tok : Text)
      → Trimmed merged
      → IsToken lower tok
      → ((merged ≡ []) × (longer merged tok ≡ tok)) ⊎ (longer merged tok ≡ merged ++ (32 ∷ tok))
  unfolding longer
  longer-cases merged tok m h = unfold codes in trim_space-append merged tok m h.trimmed h.full

  longer-keeps :
      (merged tok t : Text)
      → Trimmed merged
      → IsToken lower tok
      → Holds merged t
      → Holds (longer merged tok) t
  unfolding Holds
  longer-keeps merged tok t m h k =
      let kept : (rest : Text) → contains (to_lower lower (merged ++ rest)) t ≡ true = λ rest.
        subst (λ s. contains s t ≡ true) (sym (to_lower-append merged rest))
          (contains-append_left (to_lower lower merged) (to_lower lower rest) t k) in
      elim (longer-cases merged tok m h) [
        | inl (none, e) ↦
            subst (λ s. contains (to_lower lower s) t ≡ true) (ap (λ s. s ++ tok) none ∙ sym e)
              (kept tok)
        | inr e ↦ subst (λ s. contains (to_lower lower s) t ≡ true) (sym e) (kept (32 ∷ tok))
      ]

  longer-Holds :
      (merged tok : Text) → Trimmed merged → IsToken lower tok → Holds (longer merged tok) tok
  unfolding Holds
  longer-Holds merged tok m h =
      let own : contains (to_lower lower tok) tok ≡ true =
        subst (λ s. contains s tok ≡ true) (sym h.lowered) (contains_self tok) in
      elim (longer-cases merged tok m h) [
        | inl (none, e) ↦ subst (λ s. contains (to_lower lower s) tok ≡ true) (sym e) own
        | inr e ↦
            subst (λ s. contains s tok ≡ true)
              (sym (ap (to_lower lower) e ∙ to_lower-append merged (32 ∷ tok)))
              (contains-append_right (to_lower lower merged) (lower 32 ∷ to_lower lower tok) tok
                (contains-append_right (lower 32 ∷ []) (to_lower lower tok) tok own))
      ]

  merge_tokens-keeps :
      (merged t : Text) (tokens : List Text)
      → All (IsToken lower) tokens
      → Trimmed merged
      → Holds merged t
      → Holds (merge_tokens lower text merged tokens) t
  unfolding merge_tokens
  merge_tokens-keeps merged t [] h m k = k
  merge_tokens-keeps merged t (tok ∷ tokens) (h, hs) m k =
      if-cases (λ r. Holds r t) (contains text tok && not (contains (to_lower lower merged) tok)) _
        _
        (λ _.
          merge_tokens-keeps (trim_space (merged ++ (codes " " ++ tok))) t tokens hs
            (trim_space-Trimmed (merged ++ (codes " " ++ tok)))
            (unfold longer in longer-keeps merged tok t m h k))
        (λ _. merge_tokens-keeps merged t tokens hs m k)

  -- Every token of the text is in `merged`.
  Complete : Text → List Text → Type 0
  Complete merged = All (λ tok. contains text tok ≡ true → Holds merged tok)

  merge_tokens-Complete :
      (merged : Text) (tokens : List Text)
      → All (IsToken lower) tokens
      → Trimmed merged
      → Complete (merge_tokens lower text merged tokens) tokens
  unfolding merge_tokens Complete
  merge_tokens-Complete merged [] h m = tt
  merge_tokens-Complete merged (tok ∷ tokens) (h, hs) m =
      if-cases (λ r. (contains text tok ≡ true → Holds r tok) × Complete r tokens)
        (contains text tok && not (contains (to_lower lower merged) tok)) _ _
        (λ _.
          let next = trim_space (merged ++ (codes " " ++ tok)) in
          let trimmed = trim_space-Trimmed (merged ++ (codes " " ++ tok)) in
          (
            (λ _.
                merge_tokens-keeps next tok tokens hs trimmed
                  (unfold longer in longer-Holds merged tok m h)),
            merge_tokens-Complete next tokens hs trimmed,
          ))
        (λ e. (
          (λ found. merge_tokens-keeps merged tok tokens hs m (unfold Holds in known _ _ e found)),
          merge_tokens-Complete merged tokens hs m,
        ))

  merge_tokens-Trimmed :
      (merged : Text) (tokens : List Text)
      → Trimmed merged
      → Trimmed (merge_tokens lower text merged tokens)
  unfolding merge_tokens
  merge_tokens-Trimmed merged [] m = m
  merge_tokens-Trimmed merged (tok ∷ tokens) m =
      if-cases Trimmed (contains text tok && not (contains (to_lower lower merged) tok)) _ _
        (λ _.
          merge_tokens-Trimmed (trim_space (merged ++ (codes " " ++ tok))) tokens
            (trim_space-Trimmed (merged ++ (codes " " ++ tok))))
        (λ _. merge_tokens-Trimmed merged tokens m)

  merge_tokens-stable :
      (merged : Text) (tokens : List Text)
      → Complete merged tokens
      → merge_tokens lower text merged tokens ≡ merged
  unfolding merge_tokens Complete Holds
  merge_tokens-stable merged [] h = refl
  merge_tokens-stable merged (tok ∷ tokens) (h, hs) =
      if-cases (λ r. r ≡ merged) (contains text tok && not (contains (to_lower lower merged) tok)) _
        _ (λ e. absurd (conflict _ _ h e)) (λ _. merge_tokens-stable merged tokens hs)

  merge_token_set-Complete :
      (existing : Text) (tokens : List Text)
      → All (IsToken lower) tokens
      → Complete (merge_token_set lower text existing tokens) tokens
        × (merge_token_set lower text (merge_token_set lower text existing tokens) tokens
            ≡ merge_token_set lower text existing tokens)
  unfolding merge_token_set
  merge_token_set-Complete existing tokens h =
      let trimmed = trim_space-Trimmed existing in
      let merged = merge_tokens lower text (trim_space existing) tokens in
      let complete = merge_tokens-Complete (trim_space existing) tokens h trimmed in
      (
        complete,
        ap (λ m. merge_tokens lower text m tokens)
              (trim_space-lem merged (merge_tokens-Trimmed (trim_space existing) tokens trimmed))
            ∙ merge_tokens-stable merged tokens complete,
      )

triple :
    {a b c x y z : Text} → a ≡ x → b ≡ y → c ≡ z → ◌≡◌ {A = Text × Text × Text} (a, b, c) (x, y, z)
triple p q r = rw (p, q, r) refl

-- Each token of `tokens` that stands in the text, in lower case, stands in the evidence too.
unfoldable pub Covers : (ℕ → ℕ) → Text → List Text → Text → Type 0
Covers lower text tokens evidence =
    All
      (λ tok.
        contains (to_lower lower text) tok ≡ true → contains (to_lower lower evidence) tok ≡ true)
      tokens

-- If the case table leaves the tokens as they are, MergeEvidence covers the tokens of the text by each
-- of the three strings, whatever they held before, and a second pass changes none of them.
pub merge_evidence-Covers :
    (lower : ℕ → ℕ) (text peer indexing preprint : Text)
    → All (IsToken lower) peer_review_tokens
    → All (IsToken lower) indexing_tokens
    → All (IsToken lower) preprint_tokens
    → Covers lower text peer_review_tokens (merge_evidence lower text (peer, indexing, preprint)).0
      × Covers lower text indexing_tokens (merge_evidence lower text (peer, indexing, preprint)).1
      × Covers lower text preprint_tokens (merge_evidence lower text (peer, indexing, preprint)).2
      × (merge_evidence lower text (merge_evidence lower text (peer, indexing, preprint))
          ≡ merge_evidence lower text (peer, indexing, preprint))
unfolding merge_evidence Covers Complete Holds
merge_evidence-Covers lower text peer indexing preprint p i r =
    let low = to_lower lower text in
    let first = merge_token_set-Complete lower low peer peer_review_tokens p in
    let second = merge_token_set-Complete lower low indexing indexing_tokens i in
    let third = merge_token_set-Complete lower low preprint preprint_tokens r in
    (first.0, second.0, third.0, triple first.1 second.1 third.1)
