-- ===== src/Go/Strings/Fields.antt =====
-- Joining the fields of a text by single spaces normalises it.
use mathlib.Core.List.{append-nil, append_assoc, cons-ne-nil}
use cindex.Prelude.{
  ℕ, ◌≡◌, ◌≢◌, refl, ap, sym, ◌∙◌, true, false, List, [], ◌∷◌, ◌++◌, Text, All, inl, inr,
  Bool-cases,
}
use cindex.Go.Strings.{is_space, flush, fields_from, fields, join}

abbrev NoSpace : Text → Type 0
NoSpace = All (λ c. is_space c ≡ false)

abbrev IsWord : Text → Type 0
IsWord w = (w ≢ []) × NoSpace w

NoSpace-concat : (w : Text) (c : ℕ) → NoSpace w → is_space c ≡ false → NoSpace (w ++ c ∷ [])
NoSpace-concat [] c _ p = (p, tt)
NoSpace-concat (d ∷ w) c (q, h) p = (q, NoSpace-concat w c h p)

flush-IsWord : (w : Text) (ws : List Text) → NoSpace w → All IsWord ws → All IsWord (flush w ws)
unfolding flush
flush-IsWord [] ws _ h = h
flush-IsWord (c ∷ w) ws n h = ((cons-ne-nil c w, n), h)

fields_from-IsWord : (w s : Text) → NoSpace w → All IsWord (fields_from w s)
unfolding fields_from
fields_from-IsWord w [] n = flush-IsWord w [] n tt
fields_from-IsWord w (c ∷ s) n = elim (Bool-cases (is_space c)) [
  | inl space ↦ rw space (flush-IsWord w (fields_from [] s) n (fields_from-IsWord [] s tt))
  | inr other ↦ rw other (fields_from-IsWord (w ++ c ∷ []) s (NoSpace-concat w c n other))
]

-- Every field is a non-empty run of code points that are not spaces.
fields-IsWord : (s : Text) → All IsWord (fields s)
unfolding fields
fields-IsWord s = fields_from-IsWord [] s tt

flush_word : (w : Text) (ws : List Text) → w ≢ [] → flush w ws ≡ w ∷ ws
unfolding flush
flush_word [] ws h = absurd (h refl)
flush_word (c ∷ w) ws h = refl

fields_from_other :
    (w : Text) (c : ℕ) (s : Text)
    → is_space c ≡ false
    → fields_from w (c ∷ s) ≡ fields_from (w ++ c ∷ []) s
unfolding fields_from
fields_from_other w c s p = rw p

fields_from_space :
    (w : Text) (c : ℕ) (s : Text)
    → is_space c ≡ true
    → fields_from w (c ∷ s) ≡ flush w (fields_from [] s)
unfolding fields_from
fields_from_space w c s p = rw p

-- Reading a word puts it behind what has been read.
fields_from-append : (w v s : Text) → NoSpace v → fields_from w (v ++ s) ≡ fields_from (w ++ v) s
fields_from-append w [] s _ = ap (λ t. fields_from t s) (sym (append-nil w))
fields_from-append w (c ∷ v) s (p, h) =
    fields_from_other w c (v ++ s) p
    ∙ fields_from-append (w ++ c ∷ []) v s h
    ∙ ap (λ t. fields_from t s) (append_assoc w (c ∷ []) v)

abbrev space : Text
space = 32 ∷ []

space_is_space : is_space 32 ≡ true
unfolding is_space
space_is_space = refl

fields-join_words : (ws : List Text) → All IsWord ws → fields_from [] (join space ws) ≡ ws
unfolding join
fields-join_words [] _ = unfold fields_from flush in refl
fields-join_words (w ∷ []) ((ne, n), _) =
    ap (fields_from []) (sym (append-nil w))
    ∙ fields_from-append [] w [] n
    ∙ (unfold fields_from in flush_word w [] ne)
fields-join_words (w ∷ v ∷ ws) ((ne, n), h) =
    fields_from-append [] w (32 ∷ join space (v ∷ ws)) n
    ∙ fields_from_space w 32 (join space (v ∷ ws)) space_is_space
    ∙ flush_word w (fields_from [] (join space (v ∷ ws))) ne
    ∙ ap (◌∷◌ w) (fields-join_words (v ∷ ws) h)

-- The fields of the joined fields are the fields.
pub fields-join-fields : (s : Text) → fields (join (32 ∷ []) (fields s)) ≡ fields s
fields-join-fields s = unfold fields in fields-join_words (fields_from [] s) (fields-IsWord s)
