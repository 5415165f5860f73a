-- ===== src/Connector/EuropePmc/Evidence.antt =====
-- The records that Europe PMC and PubMed Central (connector/api_connectors.go) return.
use mathlib.Core.Bool.{false≢true}
use mathlib.Core.List.{cons-ne-nil}
use cindex.Prelude.{
  ℕ, ◌≡◌, ◌≢◌, ◌⊎◌, refl, sym, if◌then◌else◌, inl, inr, Bool, true, false, ◌||◌, if-cases, Option,
  none, some, List, [], ◌∷◌, Text, is_empty, All,
}
use cindex.Go.Strings.{trim_space}
use cindex.Connector.{RawArticle}
use cindex.Connector.EuropePmc.{
  EuropePmcRecord, epmc_tier_evidence, build, build_pmc, build_all, raw_of, push_raw, pmc_peer,
  pmc_url, first_or,
}

-- A record with a title for its index entry: its abstract and its URL are not empty, and a preprint has
-- no evidence of peer review.
pub record Sound (raw : RawArticle) : Type 0 where
  pub abstract_full : raw.abstract ≢ []
  pub url_full : raw.url ≢ []
  pub one_kind : (raw.preprint_evidence ≡ []) ⊎ (raw.peer_review_evidence ≡ [])

SoundOption : Option RawArticle → Type 0
SoundOption none = Unit
SoundOption (some raw) = Sound raw

full : (s : Text) → is_empty s ≡ false → s ≢ []
full [] h e = false≢true (sym h)
full (c ∷ s) h e = cons-ne-nil c s e

or-false-right : (a b : Bool) → a || b ≡ false → b ≡ false
or-false-right true b h = absurd (false≢true (sym h))
or-false-right false b h = h

one_of : (p q : Text) → (q ≡ []) ⊎ ((if is_empty q then p else []) ≡ [])
one_of p [] = inl refl
one_of p (c ∷ q) = inr refl

build-Sound : (lower : ℕ → ℕ) (key : Text) (r : EuropePmcRecord) → SoundOption (build lower key r)
unfolding build SoundOption raw_of
build-Sound lower key r =
    if-cases SoundOption (is_empty (trim_space r.title)) _ _ (λ _. tt)
      (λ _.
        if-cases SoundOption (is_empty (trim_space r.abstract_text)) _ _ (λ _. tt)
          (λ abstract.
            if-cases SoundOption (is_empty (first_or r.id r.full_text_urls)) _ _ (λ _. tt)
              (λ url. record {
                abstract_full = full _ abstract;
                url_full = full _ url;
                one_kind = one_of _ _;
              })))

pmc_one_of :
    (lower : ℕ → ℕ) (key : Text) (e : Text × Text) → (e.1 ≡ []) ⊎ (pmc_peer lower key e ≡ [])
unfolding pmc_peer
pmc_one_of lower key (peer, []) = inl refl
pmc_one_of lower key (peer, c ∷ preprint) = inr refl

build_pmc-Sound :
    (lower : ℕ → ℕ) (key : Text) (now : ℕ) (r : EuropePmcRecord)
    → SoundOption (build_pmc lower key now r)
unfolding build_pmc SoundOption raw_of
build_pmc-Sound lower key now r =
    if-cases SoundOption (is_empty (trim_space r.title) || is_empty (trim_space r.abstract_text)) _
      _ (λ _. tt)
      (λ blank.
        if-cases SoundOption (is_empty (pmc_url lower key r)) _ _ (λ _. tt)
          (λ url. record {
            abstract_full = full _ (or-false-right _ _ blank);
            url_full = full _ url;
            one_kind = pmc_one_of lower key (epmc_tier_evidence lower r.pub_types);
          }))

push_raw-Sound :
    (lower : ℕ → ℕ) (key : Text) (o : Option RawArticle) (raws : List RawArticle)
    → SoundOption o
    → All Sound raws
    → All Sound (push_raw lower key o raws)
unfolding push_raw SoundOption
push_raw-Sound lower key none raws h hs = hs
push_raw-Sound lower key (some raw) raws h hs = (h, hs)

-- Both connectors return only records with an abstract and a URL, and none of them is at once a preprint
-- and peer reviewed.
pub build_all-Sound :
    (lower : ℕ → ℕ) (key : Text) (open_access_only : Bool) (now : ℕ) (rs : List EuropePmcRecord)
    → All Sound (build_all lower key open_access_only now rs)
unfolding build_all
build_all-Sound lower key open_access_only now [] = tt
build_all-Sound lower key open_access_only now (r ∷ rs) =
    push_raw-Sound lower key _ _
      (if-cases SoundOption open_access_only _ _ (λ _. build_pmc-Sound lower key now r)
        (λ _. build-Sound lower key r))
      (build_all-Sound lower key open_access_only now rs)
