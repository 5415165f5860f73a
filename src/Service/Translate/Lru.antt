-- ===== src/Service/Translate/Lru.antt =====
-- The cache of service/translate.go stays within its size, holds each key once, and answers with the value
-- that was put last.
use mathlib.Core.Bool.{false≢true}
use cindex.Prelude.{
  ap, subst, ◌+◌, if◌then◌else◌, ℕ, zero, suc, ◌≤◌, ◌≡◌, ◌≢◌, refl, sym, ◌∙◌, inl, inr, arith,
  false, Bool-cases, if-cases, Option, none, some, List, [], ◌∷◌, ltb, Text, text_eq, text_eq_refl,
  length, length-take, take, All,
}
use cindex.Domain.SearchJob.{lookup}
use cindex.Service.Translate.Recent.{
  Last, put_over, put_at-Last, got_from-Last, IsRecent, put_at-IsRecent, got_from-IsRecent,
  lookup-take-some,
}
use cindex.Service.Translate.{
  LruCache, new_lru_cache, remove_key, got_from, lru_get, put_at, lru_put,
}

abbrev pub Absent : Text → List (Text × Text) → Type 0
Absent key = All (λ e. text_eq e.0 key ≡ false)

-- Each key stands once.
unfoldable pub Once : List (Text × Text) → Type 0
Once [] = Unit
Once ((k, v) ∷ entries) = Absent k entries × Once entries

-- The invariant of a cache.
pub record IsCache (c : LruCache) : Type 0 where
  pub small : length c.entries ≤ c.max
  pub once : Once c.entries

remove_key-Absent :
    (key : Text) (entries : List (Text × Text)) → Absent key (remove_key key entries)
unfolding remove_key
remove_key-Absent key [] = tt
remove_key-Absent key ((k, v) ∷ entries) = elim (Bool-cases (text_eq k key)) [
  | inl e ↦ rw e (remove_key-Absent key entries)
  | inr e ↦ rw e (e, remove_key-Absent key entries)
]

remove_key-keeps :
    (key k : Text) (entries : List (Text × Text))
    → Absent k entries
    → Absent k (remove_key key entries)
unfolding remove_key
remove_key-keeps key k [] h = tt
remove_key-keeps key k ((j, v) ∷ entries) (p, h) =
    if-cases (Absent k) (text_eq j key) _ _ (λ _. remove_key-keeps key k entries h)
      (λ _. (p, remove_key-keeps key k entries h))

remove_key-Once :
    (key : Text) (entries : List (Text × Text)) → Once entries → Once (remove_key key entries)
unfolding remove_key Once
remove_key-Once key [] h = tt
remove_key-Once key ((k, v) ∷ entries) (p, h) =
    if-cases Once (text_eq k key) _ _ (λ _. remove_key-Once key entries h)
      (λ _. (remove_key-keeps key k entries p, remove_key-Once key entries h))

some-ne-none : (v : Text) → some v ≢ none
some-ne-none v h = cc

length-remove_key_le :
    (key : Text) (entries : List (Text × Text))
    → suc (length (remove_key key entries)) ≤ suc (length entries)
unfolding remove_key
length-remove_key_le key [] = omega arith
length-remove_key_le key ((k, v) ∷ entries) = elim (Bool-cases (text_eq k key)) [
  | inl e ↦ rw e (omega (arith, length-remove_key_le key entries))
  | inr e ↦ rw e (omega (arith, length-remove_key_le key entries))
]

-- Removing a key that is there makes the list shorter.
length-remove_key :
    (key value : Text) (entries : List (Text × Text))
    → lookup key entries ≡ some value
    → suc (length (remove_key key entries)) ≤ length entries
unfolding remove_key lookup
length-remove_key key value [] h = cc
length-remove_key key value ((k, v) ∷ entries) h = elim (Bool-cases (text_eq k key)) [
  | inl e ↦ rw e (length-remove_key_le key entries)
  | inr e ↦ rw e (omega (arith, length-remove_key key value entries (sym (rw e refl) ∙ h)))
]

lookup-none :
    (key : Text) (entries : List (Text × Text)) → lookup key entries ≡ none → Absent key entries
unfolding lookup
lookup-none key [] h = tt
lookup-none key ((k, v) ∷ entries) h = elim (Bool-cases (text_eq k key)) [
  | inl e ↦ absurd (some-ne-none v (sym (rw e refl) ∙ h))
  | inr e ↦ (e, lookup-none key entries (sym (rw e refl) ∙ h))
]

take-All :
    (key : Text) (n : ℕ) (entries : List (Text × Text))
    → Absent key entries
    → Absent key (take n entries)
take-All key zero entries h = tt
take-All key (suc n) [] h = tt
take-All key (suc n) (e ∷ entries) (p, h) = (p, take-All key n entries h)

take-Once : (n : ℕ) (entries : List (Text × Text)) → Once entries → Once (take n entries)
unfolding Once
take-Once zero entries h = tt
take-Once (suc n) [] h = tt
take-Once (suc n) ((k, v) ∷ entries) (p, h) = (take-All k n entries p, take-Once n entries h)

-- The most recent entry of a cache, in front of the others without its key.
moved-IsCache :
    (c : LruCache) (key value old : Text)
    → IsCache c
    → lookup key c.entries ≡ some old
    → IsCache (record c { entries = (key, value) ∷ remove_key key c.entries })
unfolding Once
moved-IsCache c key value old h found = record {
  small = omega (arith, h.small, length-remove_key key old c.entries found);
  once = (remove_key-Absent key c.entries, remove_key-Once key c.entries h.once);
}

got_from-IsCache :
    (c : LruCache) (key : Text) (found : Option Text)
    → IsCache c
    → lookup key c.entries ≡ found
    → IsCache (got_from c key found).1
unfolding got_from
got_from-IsCache c key none h e = h
got_from-IsCache c key (some value) h e = moved-IsCache c key value value h e

cut-IsCache :
    (c : LruCache) (key value : Text)
    → IsCache c
    → lookup key c.entries ≡ none
    → IsCache (put_at c key value none)
unfolding put_at Once
cut-IsCache c key value h e =
    let entries = (key, value) ∷ c.entries in
    let once : Once entries = (lookup-none key c.entries e, h.once) in
    if-cases (λ r. IsCache (record c { entries = r })) (ltb c.max (length entries)) _ _
      (λ _. record {
        small = omega (arith, h.small, length-take (length c.entries) entries);
        once = take-Once (length c.entries) entries once;
      })
      (λ fits. record { small = ground (arith, fits); once = once })

put_at-IsCache :
    (c : LruCache) (key value : Text) (found : Option Text)
    → IsCache c
    → lookup key c.entries ≡ found
    → IsCache (put_at c key value found)
unfolding put_at
put_at-IsCache c key value none h e = cut-IsCache c key value h e
put_at-IsCache c key value (some old) h e = moved-IsCache c key value old h e

-- The calls of a cache.
pub data Use : Type 0 where
  get_key : Text → Use
  put_key : Text → Text → Use

unfoldable pub use_all : LruCache → List Use → LruCache
unfolding lru_get lru_put
use_all c [] = c
use_all c (get_key key ∷ uses) = use_all (lru_get c key).1 uses
use_all c (put_key key value ∷ uses) = use_all (lru_put c key value) uses

use_all-IsCache : (c : LruCache) (uses : List Use) → IsCache c → IsCache (use_all c uses)
unfolding use_all lru_get lru_put
use_all-IsCache c [] h = h
use_all-IsCache c (get_key key ∷ uses) h =
    use_all-IsCache (lru_get c key).1 uses (got_from-IsCache c key (lookup key c.entries) h refl)
use_all-IsCache c (put_key key value ∷ uses) h =
    use_all-IsCache (lru_put c key value) uses
      (put_at-IsCache c key value (lookup key c.entries) h refl)

got_from-answer :
    (c : LruCache) (key : Text) (found : Option Text) → (got_from c key found).0 ≡ found
unfolding got_from
got_from-answer c key none = refl
got_from-answer c key (some value) = refl

got_from-max :
    (c : LruCache) (key : Text) (found : Option Text) → (got_from c key found).1.max ≡ c.max
unfolding got_from
got_from-max c key none = refl
got_from-max c key (some value) = refl

put_at-max :
    (c : LruCache) (key value : Text) (found : Option Text) → (put_at c key value found).max ≡ c.max
unfolding put_at
put_at-max c key value none = refl
put_at-max c key value (some old) = refl

use_all-max : (c : LruCache) (uses : List Use) → (use_all c uses).max ≡ c.max
unfolding use_all lru_get lru_put
use_all-max c [] = refl
use_all-max c (get_key key ∷ uses) =
    use_all-max (lru_get c key).1 uses ∙ got_from-max c key (lookup key c.entries)
use_all-max c (put_key key value ∷ uses) =
    use_all-max (lru_put c key value) uses ∙ put_at-max c key value (lookup key c.entries)

-- The value of a key after the calls, where `o` is the one in front of them.
unfoldable pub last_put : Text → Option Text → List Use → Option Text
last_put key o [] = o
last_put key o (get_key _ ∷ uses) = last_put key o uses
last_put key o (put_key k value ∷ uses) =
    last_put key (if text_eq k key then some value else o) uses

use_all-Last :
    (c : LruCache) (key : Text) (o : Option Text) (uses : List Use)
    → Last c key o
    → Last (use_all c uses) key (last_put key o uses)
unfolding use_all last_put lru_get lru_put
use_all-Last c key o [] h = h
use_all-Last c key o (get_key k ∷ uses) h =
    use_all-Last (lru_get c k).1 key o uses (got_from-Last c key o k (lookup k c.entries) refl h)
use_all-Last c key o (put_key k value ∷ uses) h =
    use_all-Last (lru_put c k value) key (put_over key o k value) uses
      (put_at-Last c key o k value (lookup k c.entries) h)

use_all-IsRecent :
    (c : LruCache) (n m : ℕ) (key : Text) (uses : List Use)
    → n + length uses ≡ m
    → m ≤ c.max
    → IsRecent n key c.entries
    → IsRecent m key (use_all c uses).entries
unfolding use_all lru_get lru_put
use_all-IsRecent c n m key [] e few h =
    subst (λ i. IsRecent i key c.entries) {x = n} {y = m} (omega (arith, e)) h
use_all-IsRecent c n m key (get_key k ∷ uses) e few h =
    let same = got_from-max c k (lookup k c.entries) in
    use_all-IsRecent (lru_get c k).1 (suc n) m key uses (omega (arith, e))
      (omega (arith, few, same)) (got_from-IsRecent c n key k (lookup k c.entries) h)
use_all-IsRecent c n m key (put_key k value ∷ uses) e few h =
    let same = put_at-max c k value (lookup k c.entries) in
    use_all-IsRecent (lru_put c k value) (suc n) m key uses (omega (arith, e))
      (omega (arith, few, same))
      (put_at-IsRecent c n key k value (lookup k c.entries) (omega (arith, e, few)) (λ _. h))

-- A key that has been put stays for fewer calls than the size, with the value of its last put.
stays :
    (c : LruCache) (key value : Text) (later : List Use)
    → suc (length later) ≤ c.max
    → (lru_get (use_all (lru_put c key value) later) key).0 ≡ last_put key (some value) later
unfolding lru_get lru_put
stays c key value later few =
    let d = lru_put c key value in
    let same = put_at-max c key value (lookup key c.entries) in
    let front : IsRecent 1 key d.entries =
      put_at-IsRecent c 0 key key value (lookup key c.entries) (omega (arith, few))
        (λ e. absurd (false≢true (sym e ∙ text_eq_refl key))) in
    let found =
      use_all-IsRecent d 1 (suc (length later)) key later (omega arith) (omega (arith, few, same))
        front in
    let end = use_all d later in
    let held = lookup-take-some (suc (length later)) key found.value end.entries found.found in
    let own : Last d key (some value) =
      subst (Last d key)
        (ap (λ b. if b then some value else lookup key c.entries) (text_eq_refl key))
        (put_at-Last c key (lookup key c.entries) key value (lookup key c.entries) (λ v e. e)) in
    got_from-answer end key (lookup key end.entries)
    ∙ held
    ∙ sym (use_all-Last d key (some value) later own found.value held)

-- After any sequence of gets and puts a new cache is within its size and holds each key once. What a get answers then is the value that was put last for its key; and a value put then is
-- still found, or the one put for its key since, as long as fewer calls than the size have followed.
pub use_all-lru :
    (max : ℕ) (uses later : List Use) (key value : Text)
    → let c = use_all (new_lru_cache max) uses in
      (length c.entries ≤ max)
      × Once c.entries
      × ((k v : Text) → (lru_get c k).0 ≡ some v → last_put k none uses ≡ some v)
      × (suc (length later) ≤ max
          → (lru_get (use_all (lru_put c key value) later) key).0 ≡ last_put key (some value) later)
unfolding new_lru_cache lru_get lru_put Once
use_all-lru max uses later key value =
    let c = use_all (new_lru_cache max) uses in
    let kept =
      use_all-IsCache (new_lru_cache max) uses (record { small = omega arith; once = tt }) in
    let same : c.max ≡ max = use_all-max (new_lru_cache max) uses in
    (
      omega (arith, kept.small, same),
      kept.once,
      λ k v e.
          use_all-Last (new_lru_cache max) k none uses (λ w p. cc) v
            (sym (got_from-answer c k (lookup k c.entries)) ∙ e),
      λ few. stays c key value later (omega (arith, few, same)),
    )
