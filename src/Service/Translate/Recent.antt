-- ===== src/Service/Translate/Recent.antt =====
-- Which value the cache of service/translate.go holds for a key, and for how long.
use cindex.Prelude.{
  ℕ, zero, suc, ◌≤◌, ◌≡◌, refl, sym, ◌∙◌, ap, inl, inr, arith, false, Bool-cases, if-cases, Option,
  none, some, List, [], ◌∷◌, ltb, Text, text_eq, text_eq_iff, length, take, if◌then◌else◌,
}
use cindex.Domain.SearchJob.{lookup}
use cindex.Service.Translate.{LruCache, remove_key, got_from, put_at}

abbrev Entries : Type 0
Entries = List (Text × Text)

lookup-remove_key :
    (k key : Text) (entries : Entries)
    → text_eq k key ≡ false
    → lookup key (remove_key k entries) ≡ lookup key entries
unfolding lookup remove_key
lookup-remove_key k key [] h = refl
lookup-remove_key k key ((j, v) ∷ entries) h = elim (Bool-cases (text_eq j k)) [
  | inl e ↦
      let same : j ≡ k = (text_eq_iff j k).0 e in
      let other : text_eq j key ≡ false = ap (λ i. text_eq i key) same ∙ h in
      rw (e, other) (lookup-remove_key k key entries h)
  | inr e ↦ rw e (ap (λ o. if text_eq j key then some v else o) (lookup-remove_key k key entries h))
]

-- An entry that is found in front is found.
pub lookup-take-some :
    (n : ℕ) (key v : Text) (entries : Entries)
    → lookup key (take n entries) ≡ some v
    → lookup key entries ≡ some v
unfolding lookup
lookup-take-some zero key v entries h = cc
lookup-take-some (suc n) key v [] h = cc
lookup-take-some (suc n) key v ((j, w) ∷ entries) h = elim (Bool-cases (text_eq j key)) [
  | inl e ↦ rw e (rw e at h)
  | inr e ↦ rw e (lookup-take-some n key v entries (rw e at h))
]

-- The value of a key is the one of `o`, if the cache holds the key.
abbrev pub Last : LruCache → Text → Option Text → Type 0
Last c key o = (v : Text) → lookup key c.entries ≡ some v → o ≡ some v

-- What the key's value was, or is after a put of `k`.
abbrev pub put_over : Text → Option Text → Text → Text → Option Text
put_over key o k value = if text_eq k key then some value else o

moved-lookup :
    (k key value : Text) (entries : Entries) (o : Option Text)
    → ((v : Text) → lookup key entries ≡ some v → o ≡ some v)
    → (v : Text) → lookup key ((k, value) ∷ remove_key k entries) ≡ some v
    → put_over key o k value ≡ some v
unfolding lookup
moved-lookup k key value entries o h v e = elim (Bool-cases (text_eq k key)) [
  | inl same ↦ rw same (rw same at e)
  | inr other ↦ rw other (h v (sym (lookup-remove_key k key entries other) ∙ rw other at e))
]

pub put_at-Last :
    (c : LruCache) (key : Text) (o : Option Text) (k value : Text) (found : Option Text)
    → Last c key o
    → Last (put_at c k value found) key (put_over key o k value)
unfolding put_at lookup
put_at-Last c key o k value (some old) h v e = moved-lookup k key value c.entries o h v e
put_at-Last c key o k value none h v e =
    let whole : lookup key ((k, value) ∷ c.entries) ≡ some v =
      if-cases (λ l. lookup key l ≡ some v → lookup key ((k, value) ∷ c.entries) ≡ some v)
        (ltb c.max (length ((k, value) ∷ c.entries))) _ _
        (λ _. lookup-take-some (length c.entries) key v ((k, value) ∷ c.entries)) (λ _ p. p) e in
    elim (Bool-cases (text_eq k key)) [
      | inl same ↦ rw same (rw same at whole)
      | inr other ↦ rw other (h v (rw other at whole))
    ]

pub got_from-Last :
    (c : LruCache) (key : Text) (o : Option Text) (k : Text) (found : Option Text)
    → lookup k c.entries ≡ found
    → Last c key o
    → Last (got_from c k found).1 key o
unfolding got_from lookup
got_from-Last c key o k none f h v e = h v e
got_from-Last c key o k (some w) f h v e = elim (Bool-cases (text_eq k key)) [
  | inl same ↦
      let own : k ≡ key = (text_eq_iff k key).0 same in
      h v (ap (λ i. lookup i c.entries) (sym own) ∙ f ∙ rw same at e)
  | inr other ↦ h v (sym (lookup-remove_key k key c.entries other) ∙ rw other at e)
]

-- The key stands among the first `n` entries.
pub record IsRecent (n : ℕ) (key : Text) (entries : Entries) : Type 0 where
  pub value : Text
  pub found : lookup key (take n entries) ≡ some value

lookup-take-suc :
    (n : ℕ) (key v : Text) (entries : Entries)
    → lookup key (take n entries) ≡ some v
    → lookup key (take (suc n) entries) ≡ some v
unfolding lookup
lookup-take-suc zero key v entries h = cc
lookup-take-suc (suc n) key v [] h = cc
lookup-take-suc (suc n) key v ((j, w) ∷ entries) h = elim (Bool-cases (text_eq j key)) [
  | inl e ↦ rw e (rw e at h)
  | inr e ↦ rw e (lookup-take-suc n key v entries (rw e at h))
]

-- Removing another key moves an entry forward only.
lookup-take-remove_key :
    (n : ℕ) (k key v : Text) (entries : Entries)
    → text_eq k key ≡ false
    → lookup key (take n entries) ≡ some v
    → lookup key (take n (remove_key k entries)) ≡ some v
unfolding lookup remove_key
lookup-take-remove_key zero k key v entries ne h = cc
lookup-take-remove_key (suc n) k key v [] ne h = cc
lookup-take-remove_key (suc n) k key v ((j, w) ∷ entries) ne h = elim (Bool-cases (text_eq j k)) [
  | inl e ↦
      let other : text_eq j key ≡ false = ap (λ i. text_eq i key) ((text_eq_iff j k).0 e) ∙ ne in
      rw e (
        lookup-take-suc n key v (remove_key k entries)
          (lookup-take-remove_key n k key v entries ne (rw other at h)))
  | inr e ↦ rw e (elim (Bool-cases (text_eq j key)) [
    | inl own ↦ rw own (rw own at h)
    | inr other ↦ rw other (lookup-take-remove_key n k key v entries ne (rw other at h))
  ])
]

-- An entry in front pushes the others back by one place.
pushed-IsRecent :
    (n : ℕ) (k key value : Text) (entries : Entries)
    → (text_eq k key ≡ false → IsRecent n key entries)
    → IsRecent (suc n) key ((k, value) ∷ entries)
unfolding lookup
pushed-IsRecent n k key value entries h = elim (Bool-cases (text_eq k key)) [
  | inl same ↦ record { value = value; found = rw same refl }
  | inr other ↦ let r = h other in record { value = r.value; found = rw other r.found }
]

moved-IsRecent :
    (n : ℕ) (k key value : Text) (entries : Entries)
    → IsRecent n key entries
    → IsRecent (suc n) key ((k, value) ∷ remove_key k entries)
moved-IsRecent n k key value entries h =
    pushed-IsRecent n k key value (remove_key k entries) (λ other. record {
      value = h.value;
      found = lookup-take-remove_key n k key h.value entries other h.found;
    })

take-take : (n m : ℕ) (entries : Entries) → n ≤ m → take n (take m entries) ≡ take n entries
take-take zero m entries h = refl
take-take (suc n) zero entries h = absurd (omega (arith, h))
take-take (suc n) (suc m) [] h = refl
take-take (suc n) (suc m) (e ∷ entries) h = ap (◌∷◌ e) (take-take n m entries (omega (arith, h)))

-- A cut to more places than `n` keeps what stands there.
cut-IsRecent :
    (n m : ℕ) (key : Text) (entries : Entries)
    → n ≤ m
    → IsRecent n key entries
    → IsRecent n key (take m entries)
cut-IsRecent n m key entries le h = record {
  value = h.value;
  found = ap (lookup key) (take-take n m entries le) ∙ h.found;
}

-- A put pushes a key back by one place at most, and drops none of the first `max`.
pub put_at-IsRecent :
    (c : LruCache) (n : ℕ) (key k value : Text) (found : Option Text)
    → suc n ≤ c.max
    → (text_eq k key ≡ false → IsRecent n key c.entries)
    → IsRecent (suc n) key (put_at c k value found).entries
unfolding put_at
put_at-IsRecent c n key k value (some old) small h =
    pushed-IsRecent n k key value (remove_key k c.entries) (λ other. record {
      value = (h other).value;
      found = lookup-take-remove_key n k key (h other).value c.entries other (h other).found;
    })
put_at-IsRecent c n key k value none small h =
    if-cases (IsRecent (suc n) key) (ltb c.max (length ((k, value) ∷ c.entries))) _ _
      (λ over.
        cut-IsRecent (suc n) (length c.entries) key ((k, value) ∷ c.entries)
          (ground (arith, over, small)) (pushed-IsRecent n k key value c.entries h))
      (λ _. pushed-IsRecent n k key value c.entries h)

pub got_from-IsRecent :
    (c : LruCache) (n : ℕ) (key k : Text) (found : Option Text)
    → IsRecent n key c.entries
    → IsRecent (suc n) key (got_from c k found).1.entries
unfolding got_from
got_from-IsRecent c n key k none h = record {
  value = h.value;
  found = lookup-take-suc n key h.value c.entries h.found;
}
got_from-IsRecent c n key k (some w) h = moved-IsRecent n k key w c.entries h
