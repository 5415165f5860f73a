-- ===== src/Go/Strings.antt =====
-- Package strings, over the code points of a text.
pub mod Fields
pub mod Trim
pub mod Contains
use cindex.Prelude.{
  ℕ, zero, suc, ◌-◌, Option, none, some, length, Bool, true, false, ◌||◌, ◌&&◌, List, [], ◌∷◌, ◌++◌,
  leb, ◌==◌, if◌then◌else◌, Text, any,
}

-- unicode.IsSpace
unfoldable pub is_space : ℕ → Bool
is_space c =
    (leb 9 c && leb c 13)
    || c == 32
    || c == 0x85
    || c == 0xa0
    || c == 0x1680
    || (leb 0x2000 c && leb c 0x200a)
    || c == 0x2028
    || c == 0x2029
    || c == 0x202f
    || c == 0x205f
    || c == 0x3000

-- A word that has been read, in front of the words behind it.
flush : Text → List Text → List Text
flush [] rest = rest
flush word rest = word ∷ rest

fields_from : Text → Text → List Text
fields_from word [] = flush word []
fields_from word (c ∷ s) =
    let closed = flush word (fields_from [] s) in
    let longer = fields_from (word ++ c ∷ []) s in if is_space c then closed else longer

-- strings.Fields: the maximal runs of code points that are not spaces.
unfoldable pub fields : Text → List Text
unfolding fields_from flush is_space
fields s = fields_from [] s

-- strings.Join
unfoldable pub join : Text → List Text → Text
join sep [] = []
join sep (s ∷ []) = s
join sep (s ∷ t ∷ ts) = s ++ (sep ++ join sep (t ∷ ts))

-- strings.TrimLeftFunc(s, unicode.IsSpace)
trim_left : Text → Text
trim_left [] = []
trim_left (c ∷ s) = if is_space c then trim_left s else c ∷ s

trim_right_cons : ℕ → Text → Text
trim_right_cons c [] = if is_space c then [] else c ∷ []
trim_right_cons c s = c ∷ s

-- strings.TrimRightFunc(s, unicode.IsSpace)
trim_right : Text → Text
trim_right [] = []
trim_right (c ∷ s) = trim_right_cons c (trim_right s)

-- strings.TrimSpace
unfoldable pub trim_space : Text → Text
unfolding trim_left trim_right trim_right_cons is_space
trim_space s = trim_right (trim_left s)

-- strings.HasPrefix
unfoldable pub has_prefix : Text → Text → Bool
has_prefix s [] = true
has_prefix [] (p ∷ ps) = false
has_prefix (c ∷ s) (p ∷ ps) = c == p && has_prefix s ps

-- strings.Contains
unfoldable pub contains : Text → Text → Bool
unfolding has_prefix
contains [] sub = has_prefix [] sub
contains (c ∷ s) sub = has_prefix (c ∷ s) sub || contains s sub

-- A text with a code point that satisfies the test: strings.ContainsFunc.
abbrev pub contains_func : (ℕ → Bool) → Text → Bool
contains_func = any

-- strings.TrimLeft and strings.TrimRight, with the test of the cutset.
unfoldable pub trim_left_set : (ℕ → Bool) → Text → Text
trim_left_set p [] = []
trim_left_set p (c ∷ s) = if p c then trim_left_set p s else c ∷ s

trim_end : (ℕ → Bool) → ℕ → Text → Text
trim_end p c [] = if p c then [] else c ∷ []
trim_end p c s = c ∷ s

unfoldable pub trim_right_set : (ℕ → Bool) → Text → Text
unfolding trim_end
trim_right_set p [] = []
trim_right_set p (c ∷ s) = trim_end p c (trim_right_set p s)

-- The code point, as a word, in front of the words of the rest.
extend : ℕ → List Text → List Text
extend c [] = (c ∷ []) ∷ []
extend c (word ∷ words) = (c ∷ word) ∷ words

-- strings.Split at one code point.
unfoldable pub split_at : ℕ → Text → List Text
unfolding extend
split_at sep [] = [] ∷ []
split_at sep (c ∷ s) = let rest = split_at sep s in if c == sep then [] ∷ rest else extend c rest

push_word : Text → List Text → List Text
push_word [] rest = rest
push_word word rest = word ∷ rest

fields_func_from : (ℕ → Bool) → Text → Text → List Text
fields_func_from p word [] = push_word word []
fields_func_from p word (c ∷ s) =
    let closed = push_word word (fields_func_from p [] s) in
    let longer = fields_func_from p (word ++ c ∷ []) s in if p c then closed else longer

-- strings.FieldsFunc
unfoldable pub fields_func : (ℕ → Bool) → Text → List Text
unfolding fields_func_from push_word
fields_func p s = fields_func_from p [] s

-- The text behind a prefix.
strip : Text → Text → Option Text
strip s [] = some s
strip [] (p ∷ ps) = none
strip (c ∷ s) (p ∷ ps) = if c == p then strip s ps else none

or_whole : Text → Option Text → Text
or_whole s none = s
or_whole s (some rest) = rest

-- strings.TrimPrefix
unfoldable pub trim_prefix : Text → Text → Text
unfolding strip or_whole
trim_prefix s prefix = or_whole s (strip s prefix)

without : ℕ → ℕ → Text → Text → Text
without skip size sub [] = []
without (suc skip) size sub (c ∷ s) = without skip size sub s
without zero size sub (c ∷ s) =
    let cut = without (size - 1) size sub s in
    let kept = c ∷ without 0 size sub s in if has_prefix (c ∷ s) sub then cut else kept

-- strings.ReplaceAll(s, sub, "") for a text `sub` that is not empty.
unfoldable pub remove_all : Text → Text → Text
unfolding without has_prefix
remove_all s sub = without 0 (length sub) sub s
