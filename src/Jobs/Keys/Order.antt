-- ===== src/Jobs/Keys/Order.antt =====
-- The insertion sort of the keys sorts, and keeps every key.
use mathlib.Core.Logic.{inl, inr}
use mathlib.Core.List.Perm
use mathlib.Core.List.{reverse, reverse-cons, perm_middle, reverse_perm, Perm, append-nil}
use cindex.Prelude.{
  ◌≡◌, refl, sym, subst, true, false, List, [], ◌∷◌, ◌++◌, map, arith, Text, All, All-append,
  Bool-cases,
}
use cindex.Jobs.Keys.{text_ltb, sink, sort_from, sorted_keys}

-- No key is behind a greater one.
abbrev pub IsSorted : List Text → Type 0
IsSorted [] = Unit
IsSorted (a ∷ l) = All (λ b. text_ltb b a ≡ false) l × IsSorted l

text_ltb_asymm : (s t : Text) → text_ltb s t ≡ true → text_ltb t s ≡ false
unfolding text_ltb
text_ltb_asymm [] [] h = refl
text_ltb_asymm [] (b ∷ t) h = refl
text_ltb_asymm (a ∷ s) [] h = ground arith
text_ltb_asymm (a ∷ s) (b ∷ t) h = ground (arith, text_ltb_asymm s t)

not_ltb_trans : (s t u : Text) → text_ltb s t ≡ false → text_ltb t u ≡ false → text_ltb s u ≡ false
unfolding text_ltb
not_ltb_trans [] [] u h k = k
not_ltb_trans [] (b ∷ t) u h k = ground arith
not_ltb_trans (a ∷ s) [] [] h k = refl
not_ltb_trans (a ∷ s) [] (c ∷ u) h k = ground arith
not_ltb_trans (a ∷ s) (b ∷ t) [] h k = refl
not_ltb_trans (a ∷ s) (b ∷ t) (c ∷ u) h k = ground (arith, not_ltb_trans s t u)

-- The same of a list that is kept backwards.
abbrev IsFront : List Text → Type 0
IsFront [] = Unit
IsFront (a ∷ l) = All (λ b. text_ltb a b ≡ false) l × IsFront l

below :
    (a b : Text) (l : List Text)
    → text_ltb a b ≡ false
    → All (λ c. text_ltb b c ≡ false) l
    → All (λ c. text_ltb a c ≡ false) l
below a b [] h k = tt
below a b (c ∷ l) h k = (not_ltb_trans a b c h k.0, below a b l h k.1)

sink-All : (P : Text → Type 0) (key : Text) (l : List Text) → P key → All P l → All P (sink key l)
unfolding sink
sink-All P key [] p h = (p, tt)
sink-All P key (a ∷ l) p h = elim (Bool-cases (text_ltb key a)) [
  | inl less ↦ rw less (h.0, sink-All P key l p h.1)
  | inr not_less ↦ rw not_less (p, h)
]

sink-IsFront : (key : Text) (l : List Text) → IsFront l → IsFront (sink key l)
unfolding sink
sink-IsFront key [] h = (tt, tt)
sink-IsFront key (a ∷ l) h = elim (Bool-cases (text_ltb key a)) [
  | inl less ↦ rw less (
    sink-All (λ b. text_ltb a b ≡ false) key l (text_ltb_asymm key a less) h.0,
    sink-IsFront key l h.1,
  )
  | inr not_less ↦ rw not_less ((not_less, below key a l not_less h.0), h)
]

sink-Perm : (key : Text) (l : List Text) → Perm (sink key l) (key ∷ l)
unfolding sink
sink-Perm key [] = Perm.refl (key ∷ [])
sink-Perm key (a ∷ l) = elim (Bool-cases (text_ltb key a)) [
  | inl less ↦ rw less (Perm.trans (Perm.cons a (sink-Perm key l)) (Perm.swap key a l))
  | inr not_less ↦ rw not_less (Perm.refl (key ∷ a ∷ l))
]

IsSorted-append :
    (l : List Text) (a : Text)
    → IsSorted l
    → All (λ b. text_ltb a b ≡ false) l
    → IsSorted (l ++ a ∷ [])
IsSorted-append [] a h k = (tt, tt)
IsSorted-append (b ∷ l) a h k =
    (All-append (λ c. text_ltb c b ≡ false) l (a ∷ []) h.0 (k.0, tt), IsSorted-append l a h.1 k.1)

All-reverse : (P : Text → Type 0) (l : List Text) → All P l → All P (reverse l)
All-reverse P [] h = tt
All-reverse P (a ∷ l) h =
    subst (All P) (sym (reverse-cons a l))
      (All-append P (reverse l) (a ∷ []) (All-reverse P l h.1) (h.0, tt))

reverse-IsSorted : (l : List Text) → IsFront l → IsSorted (reverse l)
reverse-IsSorted [] h = tt
reverse-IsSorted (a ∷ l) h =
    subst IsSorted (sym (reverse-cons a l))
      (IsSorted-append (reverse l) a (reverse-IsSorted l h.1) (All-reverse _ l h.0))

sort_from-IsSorted : (front keys : List Text) → IsFront front → IsSorted (sort_from front keys)
unfolding sort_from
sort_from-IsSorted front [] h = reverse-IsSorted front h
sort_from-IsSorted front (key ∷ keys) h =
    sort_from-IsSorted (sink key front) keys (sink-IsFront key front h)

sort_from-Perm : (front keys : List Text) → Perm (sort_from front keys) (keys ++ front)
unfolding sort_from
sort_from-Perm front [] = reverse_perm front
sort_from-Perm front (key ∷ keys) =
    Perm.trans (sort_from-Perm (sink key front) keys)
      (Perm.trans (Perm.append_left keys (sink-Perm key front)) (perm_middle keys front))

-- The keys to resume from are those of the map, in ascending order, whatever the order of the
-- map's iteration.
pub sorted_keys-IsSorted {ℓ} :
    {V : Type ℓ} (m : List (Text × V))
    → IsSorted (sorted_keys m) × Perm (sorted_keys m) (map (λ e. e.0) m)
unfolding sorted_keys
sorted_keys-IsSorted m =
    let keys = map (λ e. e.0) m in
    (
      sort_from-IsSorted [] keys tt,
      subst (Perm (sort_from [] keys)) (append-nil keys) (sort_from-Perm [] keys),
    )
