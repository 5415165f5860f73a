-- ===== src/Connector/Registry/Known.antt =====
-- The keys for which connector/registry.go has a connector are those of connector/profile.go.
use mathlib.Core.Bool.{false≢true}
use cindex.Prelude.{
  ◌≡◌, refl, sym, ◌∙◌, subst, Bool, true, false, ◌&&◌, Bool-cases, inl, inr, Option, none, some,
  List, [], ◌∷◌, map, Text, codes, text_eq, text_eq_iff, any,
}
use cindex.Domain.SearchJob.{lookup}
use cindex.Connector.Profile.{SourceProfile, keys, profiles, profile_for, find_profile}
use cindex.Connector.Registry.{connectors, new_connector}

-- There is a value.
unfoldable pub is_known {ℓ} : {V : Type ℓ} → Option V → Bool
is_known none = false
is_known (some _) = true

-- A key of a list of keys.
listed : Text → List Text → Bool
listed key = any (λ k. text_eq k key)

lookup-listed :
    {V : Type 0} (key : Text) (m : List (Text × V))
    → is_known (lookup key m) ≡ listed key (map (λ e. e.0) m)
unfolding is_known lookup listed
lookup-listed key [] = refl
lookup-listed key ((k, v) ∷ m) = elim (Bool-cases (text_eq k key)) [
  | inl e ↦ rw e refl
  | inr e ↦ rw e (lookup-listed key m)
]

and-left : (a b : Bool) → a && b ≡ true → a ≡ true
and-left true b h = refl
and-left false b h = h

and-right : (a b : Bool) → a && b ≡ true → b ≡ true
and-right true b h = h
and-right false b h = absurd (false≢true h)

Bool-eq : (a b : Bool) → (a ≡ true → b ≡ true) → (b ≡ true → a ≡ true) → a ≡ b
Bool-eq true b h k = sym (h refl)
Bool-eq false true h k = k refl
Bool-eq false false h k = refl

-- Each key of the first list is in the second one.
all_listed : List Text → List Text → Bool
all_listed [] ks = true
all_listed (j ∷ js) ks = listed j ks && all_listed js ks

listed-all_listed :
    (key : Text) (js ks : List Text)
    → all_listed js ks ≡ true
    → listed key js ≡ true
    → listed key ks ≡ true
unfolding listed all_listed
listed-all_listed key [] ks h k = absurd (false≢true k)
listed-all_listed key (j ∷ js) ks h k = elim (Bool-cases (text_eq j key)) [
  | inl e ↦ subst (λ t. listed t ks ≡ true) ((text_eq_iff j key).0 e) (and-left _ _ h)
  | inr e ↦ listed-all_listed key js ks (and-right _ _ h) (sym (rw e refl) ∙ k)
]

find_profile-listed :
    (key : Text) (ps : List SourceProfile)
    → is_known (find_profile key ps) ≡ listed key (map (λ p. p.source_key) ps)
unfolding is_known find_profile listed
find_profile-listed key [] = refl
find_profile-listed key (p ∷ ps) = elim (Bool-cases (text_eq p.source_key key)) [
  | inl e ↦ rw e refl
  | inr e ↦ rw e (find_profile-listed key ps)
]

connectors-listed : all_listed (map (λ e. e.0) connectors) keys ≡ true
unfolding all_listed listed keys profiles text_eq codes
connectors-listed = refl

keys-listed : all_listed keys (map (λ e. e.0) connectors) ≡ true
unfolding all_listed listed keys profiles text_eq codes
keys-listed = refl

-- A source key has a connector exactly if it has a profile.
pub new_connector-profile_for :
    (key : Text) → is_known (new_connector key) ≡ is_known (profile_for key)
unfolding new_connector profile_for keys
new_connector-profile_for key =
    lookup-listed key connectors
    ∙ Bool-eq _ _ (listed-all_listed key (map (λ e. e.0) connectors) keys connectors-listed)
        (listed-all_listed key keys (map (λ e. e.0) connectors) keys-listed)
    ∙ sym (find_profile-listed key profiles)
